-- ===== src/Partner/Ends.antt =====
-- Runs of crates/snap7-partner/src that come to their end, and the reads and slices that do.
use rs_snap.Prelude.{
  ℕ, ◌-◌, ◌≤◌, ◌<◌, ◌≡◌, refl, arith, Bool, true, false, Bool-cases, inl, inr, leb→le, Option, none,
  some, length, length-drop, leb, ltb,
}
use rs_snap.Wire.{Bytes}
use rs_snap.Partner.Runs.{
  S7Partner, Run, Outcome, Error, done, failed, crash, go_on, on_error, cut_exact, or_fail, refuse,
  read_exact, slice_from, slice, slice_from_in_range, slice_in_range,
}
use rs_snap.Partner.Proto.{
  decode_params, decode_data_hdr, decode_params-returns, decode_data_hdr-returns,
}
use rs_snap.Partner.Transport.{read_body}

-- A run that comes to its end, with a value or an error, and leaves fewer than `n` bytes of
-- its input.
unfoldable pub Ends : {A : Type 0} → ℕ → Bytes × (S7Partner × Outcome (A × Bytes)) → Type 0
Ends n (sent, (p, done (a, rest))) = length rest < n
Ends n (sent, (p, failed e)) = Unit {0}
Ends n (sent, (p, crash)) = ⊥

pub go_on-Ends :
    {A B : Type 0} (m n : ℕ) (run : Bytes × (S7Partner × Outcome (A × Bytes))) (f : A → Run B)
    → Ends m run
    → ((a : A) (p : S7Partner) (rest : Bytes) → length rest < m → Ends n (f a p rest))
    → Ends n (go_on run f)
unfolding Ends
go_on-Ends m n (sent, (p, done (a, rest))) f h k = k a p rest h
go_on-Ends m n (sent, (p, failed e)) f h k = tt
go_on-Ends m n (sent, (p, crash)) f h k = elim h [ ]

pub on_error-Ends :
    {A : Type 0} (n : ℕ) (f : S7Partner → S7Partner)
    (run : Bytes × (S7Partner × Outcome (A × Bytes)))
    → Ends n run
    → Ends n (on_error f run)
unfolding Ends
on_error-Ends n f (sent, (q, done a)) h = h
on_error-Ends n f (sent, (q, failed e)) h = h
on_error-Ends n f (sent, (q, crash)) h = h

pub refuse-Ends :
    (n : ℕ) (b : Bool) (e : Error) (p : S7Partner) (input : Bytes)
    → length input < n
    → Ends n (refuse b e p input)
unfolding Ends
refuse-Ends n true e p input h = tt
refuse-Ends n false e p input h = h

pub or_fail-Ends :
    {A : Type 0} (n : ℕ) (o : Option A) (e : Error) (p : S7Partner) (input : Bytes)
    → length input < n
    → Ends n (or_fail o e p input)
unfolding Ends
or_fail-Ends n none e p input h = tt
or_fail-Ends n (some a) e p input h = h

cut_exact-Ends :
    (b : Bool) (k n : ℕ) (p : S7Partner) (input : Bytes)
    → length input < n
    → Ends n (cut_exact b k p input)
unfolding Ends
cut_exact-Ends true k n p input h = omega (arith, length-drop k input)
cut_exact-Ends false k n p input h = tt

pub read_exact-Ends :
    (k n : ℕ) (p : S7Partner) (input : Bytes) → length input < n → Ends n (read_exact k p input)
read_exact-Ends k n p input h = cut_exact-Ends (leb k (length input)) k n p input h

-- Reading the header takes bytes off the input, if it is not refused.
pub header-Ends :
    (n : ℕ) (p : S7Partner) (input : Bytes) → length input ≤ n → Ends n (read_exact 4 p input)
unfolding Ends
header-Ends n p input h = elim (Bool-cases (leb 4 (length input))) [
  | inl e ↦ rw e (omega (arith, length-drop 4 input, leb→le 4 (length input) e))
  | inr e ↦ rw e tt
]

-- What follows a test that does not refuse runs with the test false.
pub refuse-go_on-Ends :
    {A : Type 0} (n : ℕ) (b : Bool) (e : Error) (f : Unit {0} → Run A) (p : S7Partner)
    (input : Bytes)
    → (b ≡ false → Ends n (f tt p input))
    → Ends n (go_on (refuse b e p input) f)
unfolding Ends
refuse-go_on-Ends n true e f p input k = tt
refuse-go_on-Ends n false e f p input k = k refl

pub read_body-Ends :
    (total n : ℕ) (p : S7Partner) (input : Bytes)
    → 4 ≤ total
    → length input < n
    → Ends n (read_body total p input)
read_body-Ends total n p input le h =
    let far : ltb total 4 ≡ false = ground arith in rw far (read_exact-Ends (total - 4) n p input h)

pub slice_from-Ends :
    (bytes : Bytes) (lo n : ℕ) (p : S7Partner) (input : Bytes)
    → lo ≤ length bytes
    → length input < n
    → Ends n (slice_from bytes lo p input)
unfolding Ends
slice_from-Ends bytes lo n p input le h = rw (slice_from_in_range bytes lo le) h

pub slice-Ends :
    (bytes : Bytes) (lo hi n : ℕ) (p : S7Partner) (input : Bytes)
    → lo ≤ hi
    → hi ≤ length bytes
    → length input < n
    → Ends n (slice bytes lo hi p input)
unfolding Ends
slice-Ends bytes lo hi n p input le le' h = rw (slice_in_range bytes lo hi le le') h

pub decode_params-Ends :
    (bytes : Bytes) (n : ℕ) (p : S7Partner) (input : Bytes)
    → length input < n
    → Ends n (decode_params bytes p input)
unfolding Ends
decode_params-Ends bytes n p input h = let (o, e) = decode_params-returns bytes p input in rw e h

pub decode_data_hdr-Ends :
    (bytes : Bytes) (n : ℕ) (p : S7Partner) (input : Bytes)
    → length input < n
    → Ends n (decode_data_hdr bytes p input)
unfolding Ends
decode_data_hdr-Ends bytes n p input h =
    let (o, e) = decode_data_hdr-returns bytes p input in rw e h
