-- ===== src/Wire/Error.antt =====
-- crates/snap7-client/src/proto/error.rs: the errors of the protocol layer, and the outcome of a
-- fallible function. The message text of `EncodingFailed` is kept as a tag for each message.
use rs_snap.Prelude.{ℕ, ◌≡◌, ◌≢◌, ◌⊎◌, inl, inr, refl}

pub data Message : Type 0 where
  frame_too_large vlq_exceeds_u32 vlq_overflow data_too_long : Message

pub data ProtoError : Type 0 where
  buffer_too_short : ℕ → ℕ → ProtoError
  invalid_magic : ℕ → ℕ → ProtoError
  unsupported_pdu_type : ℕ → ProtoError
  unsupported_function : ℕ → ProtoError
  encoding_failed : Message → ProtoError
  unsupported_area : ℕ → ProtoError
  unsupported_transport_size : ℕ → ProtoError
  invalid_version : ℕ → ProtoError
  integrity_failure : ProtoError

-- `panic` is what the `bytes` crate does on a read past the end, and what slicing does.
pub data Result {ℓ} (A : Type ℓ) : Type ℓ where
  ok : A → Result A
  err : ProtoError → Result A
  panic : Result A

infixl 5 ◌>>=◌
abbrev pub ◌>>=◌ {ℓ κ} : {A : Type ℓ} {B : Type κ} → Result A → (A → Result B) → Result B
ok a >>= f = f a
err e >>= f = err e
panic >>= f = panic

-- To split on a computed outcome that is no panic.
pub Result-cases {ℓ} :
    {A : Type ℓ} (r : Result A)
    → r ≢ panic
    → ((a : A) × (r ≡ ok a)) ⊎ ((e : ProtoError) × (r ≡ err e))
Result-cases (ok a) h = inl (a, refl)
Result-cases (err e) h = inr (e, refl)
Result-cases panic h = absurd (h refl)
