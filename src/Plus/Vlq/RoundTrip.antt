-- ===== src/Plus/Vlq/RoundTrip.antt =====
-- `decode_vlq` on what `encode_vlq` wrote, and on any other input.
use rs_snap.Prelude.{
  ℕ, ◌+◌, ◌*◌, ◌%◌, ◌≤◌, ◌<◌, ◌≡◌, ◌≢◌, refl, ◌∙◌, ap, arith, [], ◌∷◌, ◌++◌, length, length-append,
  append_assoc, All, ltb, Bool-cases, inl, inr, bit_or,
}
use rs_snap.Prelude.Bits.{and_7f, bit_and_80, bit_or_80, or_7, or_zero}
use mathlib.Core.Path.{ap₂}
use rs_snap.Wire.{Bytes, IsU32, ok, panic}
use rs_snap.Plus.Vlq.{put_groups, encode_vlq, push_group, decode_loop, decode_vlq}
use rs_snap.Plus.Vlq.Groups.{value_of, AreGroups, split_groups-AreGroups}

push_group-sum :
    (result byte : ℕ) → IsU32 result → push_group result byte ≡ result * 128 + byte % 128
push_group-sum result byte h = ground (arith, and_7f byte, or_7 result (byte % 128))

-- A byte with bit 7 set, over the group `g`, and a last byte.
step_more :
    (g : ℕ) (rest : Bytes) (result n : ℕ)
    → g < 128
    → IsU32 (result * 128 + g)
    → n < 4
    → decode_loop ((g + 128) ∷ rest) result n ≡ decode_loop rest (result * 128 + g) (n + 1)
unfolding decode_loop
step_more g rest result n hg fits hn =
    ground (arith, push_group-sum result (g + 128), bit_and_80 (g + 128))

step_last :
    (g : ℕ) (rest : Bytes) (result n : ℕ)
    → g < 128
    → IsU32 (result * 128 + g)
    → decode_loop (g ∷ rest) result n ≡ ok (result * 128 + g, rest)
unfolding decode_loop
step_last g rest result n hg fits = ground (arith, push_group-sum result g, bit_and_80 g)

-- The groups above the lowest one, with their bit set, are read into the number they stand for.
decode_loop-put_groups :
    (groups tail : Bytes)
    → IsU32 (value_of groups)
    → length groups ≤ 4
    → All (λ g. g < 128) groups
    → decode_loop (put_groups 0x80 groups ++ tail) 0 0
      ≡ decode_loop tail (value_of groups) (length groups)
unfolding put_groups
decode_loop-put_groups [] tail fits few h = refl
decode_loop-put_groups (g ∷ groups) tail fits few (hg, h) =
    rw (append_assoc, bit_or_80 g hg)
      (decode_loop-put_groups groups ((g + 128) ∷ tail) (omega arith) (omega arith) h
        ∙ step_more g tail (value_of groups) (length groups) hg (omega arith) (omega arith)
        ∙ ap₂ (decode_loop tail) (omega arith) (omega arith))

length-put_groups : (cont : ℕ) (groups : Bytes) → length (put_groups cont groups) ≡ length groups
unfolding put_groups
length-put_groups cont [] = refl
length-put_groups cont (g ∷ groups) = omega (
  arith,
  length-append (put_groups 0x80 groups) (bit_or g cont ∷ []),
  length-put_groups 0x80 groups,
)

decode_loop-AreGroups :
    (v : ℕ) (groups rest : Bytes)
    → IsU32 v
    → AreGroups 5 v groups
    → 0 < v
    → (decode_loop (put_groups 0x00 groups ++ rest) 0 0 ≡ ok (v, rest)) × (1 ≤ length groups)
unfolding put_groups
decode_loop-AreGroups v [] rest fits a pos = absurd (omega (arith, a.value_is))
decode_loop-AreGroups v (g ∷ groups) rest fits a pos = (
  rw (append_assoc, or_zero g)
      (decode_loop-put_groups groups (g ∷ rest) (omega (arith, a.value_is)) (omega (arith, a.few))
          a.seven_bits.1
        ∙ step_last g rest (value_of groups) (length groups) a.seven_bits.0
            (omega (arith, a.value_is))
        ∙ ap (λ (n : ℕ). ok (n, rest)) (omega (arith, a.value_is))),
  omega arith,
)

-- `encode_vlq` succeeds on every u32, and `decode_vlq` reads the number back and leaves what follows.
pub decode_vlq-encode_vlq :
    (v : ℕ) (rest : Bytes)
    → IsU32 v
    → (wire : Bytes) × (encode_vlq v ≡ ok wire)
      × (decode_vlq (wire ++ rest) ≡ ok (v, rest))
      × (1 ≤ length wire)
      × (length wire ≤ 5)
unfolding encode_vlq decode_vlq
decode_vlq-encode_vlq v rest h = elim (Bool-cases (ltb v 0x80)) [
  | inl short ↦ (
    v % 256 ∷ [],
    rw short,
    ground (arith, step_last (v % 256) rest 0 0),
    omega arith,
    omega arith,
  )
  | inr long ↦
      let (groups, e, a) = split_groups-AreGroups 5 v (omega arith) in
      let (read, some_group) = decode_loop-AreGroups v groups rest h a (ground arith) in
      (
        put_groups 0x00 groups,
        rw (long, e),
        read,
        omega (arith, length-put_groups 0x00 groups),
        omega (arith, length-put_groups 0x00 groups, a.few),
      )
]

decode_loop_takes :
    (buf : Bytes) (result n v : ℕ) (rest : Bytes)
    → n ≤ 4
    → decode_loop buf result n ≡ ok (v, rest)
    → IsU32 v × (length rest < length buf) × (length buf + n ≤ length rest + 5)
unfolding decode_loop
decode_loop_takes [] result n v rest hn e = cc
decode_loop_takes (b ∷ buf) result n v rest hn e =
    ground (arith, decode_loop_takes buf (push_group result b) (n + 1) v rest)

-- Whatever the input, a number that `decode_vlq` returns is a u32, and took one to five bytes.
pub decode_vlq_takes :
    (buf : Bytes) (v : ℕ) (rest : Bytes)
    → decode_vlq buf ≡ ok (v, rest)
    → IsU32 v × (length rest < length buf) × (length buf ≤ length rest + 5)
unfolding decode_vlq
decode_vlq_takes buf v rest e = ground (arith, decode_loop_takes buf 0 0 v rest)

decode_loop-ne-panic : (buf : Bytes) (result n : ℕ) → decode_loop buf result n ≢ panic
unfolding decode_loop
decode_loop-ne-panic [] result n = λ e. cc
decode_loop-ne-panic (b ∷ buf) result n =
    ground (arith, decode_loop-ne-panic buf (push_group result b) (n + 1))

pub decode_vlq-ne-panic : (buf : Bytes) → decode_vlq buf ≢ panic
unfolding decode_vlq
decode_vlq-ne-panic buf = decode_loop-ne-panic buf 0 0
