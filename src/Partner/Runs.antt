-- ===== src/Partner/Runs.antt =====
-- The state of an `S7Partner`, the errors of crates/snap7-partner/src/error.rs, and code that runs on
-- the state and the stream. A run takes the bytes that the peer sends; it gives the bytes sent, the
-- state and the outcome with the input that is left. A write succeeds; a read past the end of the
-- input is the I/O error.
use Prim.Native.String.{String}
use rs_snap.Prelude.{
  ℕ, Bool, true, false, Option, none, some, [], ◌++◌, length, take, drop, leb, ltb, get_or, ◌-◌,
  ◌<◌, ◌≤◌, ◌≡◌, arith, ◌&&◌, if◌then◌else◌,
}
use rs_snap.Wire.{Bytes}

pub data Error : Type 0 where
  io : Error
  invalid_pdu : String → Error
  send_refused : ℕ → Error
  recv_timeout not_connected : Error

-- `pdu_size` is `inner`: none if there is no stream. The two timeouts are not read by the code.
pub record S7Partner : Type 0 where
  pub pdu_size : Option ℕ
  pub seq : ℕ
  pub pdu_ref : ℕ
  pub connected : Bool
  pub bytes_sent : ℕ
  pub bytes_recv : ℕ
  pub send_errors : ℕ
  pub recv_errors : ℕ

pub data Outcome (A : Type 0) : Type 0 where
  done : A → Outcome A
  failed : Error → Outcome A
  crash : Outcome A

abbrev pub Run : Type 0 → Type 0
Run A = S7Partner → Bytes → Bytes × (S7Partner × Outcome (A × Bytes))

abbrev pub after_sending :
    {A : Type 0}
    → Bytes
    → Bytes × (S7Partner × Outcome (A × Bytes))
    → Bytes × (S7Partner × Outcome (A × Bytes))
after_sending sent (more, run) = (sent ++ more, run)

abbrev pub go_on :
    {A B : Type 0}
    → Bytes × (S7Partner × Outcome (A × Bytes))
    → (A → Run B)
    → Bytes × (S7Partner × Outcome (B × Bytes))
go_on (sent, (p, done (a, rest))) f = after_sending sent (f a p rest)
go_on (sent, (p, failed e)) f = (sent, (p, failed e))
go_on (sent, (p, crash)) f = (sent, (p, crash))

infixl 5 ◌>>=◌ ◌>>◌
abbrev pub ◌>>=◌ : {A B : Type 0} → Run A → (A → Run B) → Run B
◌>>=◌ m f p input = go_on (m p input) f

abbrev pub ◌>>◌ : {A B : Type 0} → Run A → Run B → Run B
m >> k = m >>= λ _. k

abbrev pub return : {A : Type 0} → A → Run A
return a p input = ([], (p, done (a, input)))

abbrev pub fail : {A : Type 0} → Error → Run A
fail e p input = ([], (p, failed e))

abbrev pub stuck : {A : Type 0} → Run A
stuck p input = ([], (p, crash))

abbrev pub modify : (S7Partner → S7Partner) → Run (Unit {0})
modify f p input = ([], (f p, done (tt, input)))

abbrev pub get : Run S7Partner
get p input = ([], (p, done (p, input)))

-- `ok_or(e)?`, `guard(..)?`
abbrev pub or_fail : {A : Type 0} → Option A → Error → Run A
or_fail none e p input = ([], (p, failed e))
or_fail (some a) e p input = ([], (p, done (a, input)))

-- `if bad { return Err(e) }`
abbrev pub refuse : Bool → Error → Run (Unit {0})
refuse true e p input = ([], (p, failed e))
refuse false e p input = ([], (p, done (tt, input)))

abbrev pub write_all : Bytes → Run (Unit {0})
write_all bytes p input = (bytes, (p, done (tt, input)))

abbrev pub cut_exact : Bool → ℕ → Run Bytes
cut_exact true n p input = ([], (p, done (take n input, drop n input)))
cut_exact false n p input = ([], (p, failed io))

abbrev pub read_exact : ℕ → Run Bytes
read_exact n p input = cut_exact (leb n (length input)) n p input

abbrev pub on_error :
    {A : Type 0}
    → (S7Partner → S7Partner)
    → Bytes × (S7Partner × Outcome A)
    → Bytes × (S7Partner × Outcome A)
on_error f (sent, (p, failed e)) = (sent, (f p, failed e))
on_error f (sent, (p, done a)) = (sent, (p, done a))
on_error f (sent, (p, crash)) = (sent, (p, crash))

-- A step whose error changes a counter.
abbrev pub counting : {A : Type 0} → (S7Partner → S7Partner) → Run A → Run A
counting f m p input = on_error f (m p input)

-- `bytes[i]`, `&bytes[lo..]` and `&bytes[lo..hi]`: out of range, they panic.
unfoldable pub index : Bytes → ℕ → Run ℕ
index bytes i = if ltb i (length bytes) then return (get_or bytes i 0) else stuck

unfoldable pub slice_from : Bytes → ℕ → Run Bytes
slice_from bytes lo = if leb lo (length bytes) then return (drop lo bytes) else stuck

unfoldable pub slice : Bytes → (lo hi : ℕ) → Run Bytes
slice bytes lo hi =
    if leb lo hi && leb hi (length bytes) then return (take (hi - lo) (drop lo bytes)) else stuck

pub index_in_range :
    (bytes : Bytes) (i : ℕ) → i < length bytes → index bytes i ≡ return (get_or bytes i 0)
unfolding index
index_in_range bytes i h = ground arith

pub slice_from_in_range :
    (bytes : Bytes) (lo : ℕ) → lo ≤ length bytes → slice_from bytes lo ≡ return (drop lo bytes)
unfolding slice_from
slice_from_in_range bytes lo h = ground arith

pub slice_in_range :
    (bytes : Bytes) (lo hi : ℕ)
    → lo ≤ hi
    → hi ≤ length bytes
    → slice bytes lo hi ≡ return (take (hi - lo) (drop lo bytes))
unfolding slice
slice_in_range bytes lo hi h k = ground arith
