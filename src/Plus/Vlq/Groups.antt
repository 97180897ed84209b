-- ===== src/Plus/Vlq/Groups.antt =====
-- The groups that `encode_vlq` splits a number into, and the bytes it makes of them.
use rs_snap.Prelude.{
  ℕ, zero, suc, ◌+◌, ◌*◌, ◌/◌, ◌^◌, ◌≤◌, ◌<◌, ◌≡◌, arith, [], ◌∷◌, length, All, ◌==◌, Bool-cases,
  inl, inr, bit_and,
}
use rs_snap.Prelude.Bits.{and_7f}
use native.Mathlib.Nat.{pow-suc}
use rs_snap.Wire.{Bytes, ok}
use rs_snap.Plus.Vlq.{split_groups}

-- The number that groups stand for, lowest first.
abbrev pub value_of : Bytes → ℕ
value_of [] = 0
value_of (g ∷ groups) = g + 128 * value_of groups

pub record AreGroups (slots v : ℕ) (groups : Bytes) : Type 0 where
  pub value_is : value_of groups ≡ v
  pub few : length groups ≤ slots
  pub seven_bits : All (λ g. g < 128) groups

-- A number that fits the slots is split with no write out of range.
pub split_groups-AreGroups :
    (slots v : ℕ)
    → v < 128 ^ slots
    → (groups : Bytes) × (split_groups slots v ≡ ok groups) × AreGroups slots v groups
unfolding split_groups
split_groups-AreGroups zero v h = ([], ground arith, ground arith)
split_groups-AreGroups (suc slots) v h = elim (Bool-cases (v == 0)) [
  | inl done ↦ ([], rw done, ground arith)
  | inr more ↦
      let (groups, e, a) =
        split_groups-AreGroups slots (v / 128) (omega (arith, pow-suc 128 slots)) in
      (bit_and v 0x7f ∷ groups, rw (more, e), ground (arith, and_7f v))
]
