-- ===== src/Wire/Buffer.antt =====
-- The reads and writes of the `bytes` crate that the codecs use. A buffer is the list of the bytes
-- that are left; a reader takes bytes off its front and returns the rest.
use rs_snap.Prelude.{
  ℕ, ◌+◌, ◌*◌, ◌/◌, ◌%◌, ◌<◌, List, [], ◌∷◌, length, take, drop, leb, ltb, Bool, true, false,
}
use rs_snap.Wire.Error.{ProtoError, Result, ok, err, panic}

abbrev pub Bytes : Type 0
Bytes = List ℕ

abbrev pub IsU8 : ℕ → Type 0
IsU8 b = b < 256

abbrev pub IsU16 : ℕ → Type 0
IsU16 n = n < 65536

abbrev pub IsU32 : ℕ → Type 0
IsU32 n = n < 4294967296

-- A method with a `&mut Bytes` argument.
abbrev pub Reader : Type 0 → Type 0
Reader A = Bytes → Result (A × Bytes)

infixl 5 ◌>>=◌ ◌>>◌
abbrev pub ◌>>=◌ : {A B : Type 0} → Reader A → (A → Reader B) → Reader B
◌>>=◌ m f buf = elim (m buf) [ ok (a, rest) ↦ f a rest | err e ↦ err e | panic ↦ panic ]

abbrev pub ◌>>◌ : {A B : Type 0} → Reader A → Reader B → Reader B
m >> k = m >>= λ _. k

abbrev pub pure : {A : Type 0} → A → Reader A
pure a buf = ok (a, buf)

-- `Type::try_from(v)?` and other steps that take no bytes.
abbrev pub lift : {A : Type 0} → Result A → Reader A
lift (ok a) buf = ok (a, buf)
lift (err e) buf = err e
lift panic buf = panic

-- `if bad { return Err(e) }`.
abbrev pub refuse : Bool → ProtoError → Reader (Unit {0})
refuse true e buf = err e
refuse false e buf = ok (tt, buf)

-- `if buf.len() < n { return Err(BufferTooShort { need: n, have: buf.len() }) }`.
abbrev pub need : ℕ → Reader (Unit {0})
need n buf = refuse (ltb (length buf) n) (ProtoError.buffer_too_short n (length buf)) buf

abbrev pub get_u8 : Reader ℕ
get_u8 [] = panic
get_u8 (a ∷ rest) = ok (a, rest)

abbrev pub get_u16 : Reader ℕ
get_u16 (a ∷ b ∷ rest) = ok (a * 256 + b, rest)
get_u16 _ = panic

abbrev pub get_u32 : Reader ℕ
get_u32 (a ∷ b ∷ c ∷ d ∷ rest) = ok (a * 16777216 + b * 65536 + c * 256 + d, rest)
get_u32 _ = panic

abbrev pub remaining : Reader ℕ
remaining buf = ok (length buf, buf)

-- The front of `n` bytes and what follows it; the flag says that the buffer is that long.
abbrev pub cut : Bool → ℕ → Reader Bytes
cut true n buf = ok (take n buf, drop n buf)
cut false n buf = panic

-- `split_to(n)`, `copy_to_bytes(n)`.
abbrev pub split_to : ℕ → Reader Bytes
split_to n buf = cut (leb n (length buf)) n buf

abbrev pub advance : ℕ → Reader Bytes
advance = split_to

-- What `put_u8`, `put_u16` and `put_u32` append for an argument of their width.
abbrev pub put_u8 : ℕ → Bytes
put_u8 n = n ∷ []

abbrev pub put_u16 : ℕ → Bytes
put_u16 n = (n / 256) ∷ (n % 256) ∷ []

abbrev pub put_u32 : ℕ → Bytes
put_u32 n = (n / 16777216) ∷ (n / 65536 % 256) ∷ (n / 256 % 256) ∷ (n % 256) ∷ []
