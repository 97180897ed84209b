-- ===== src/Gateway/Values.antt =====
-- The values of crates/snap7-opcua-gateway/src/poller.rs, to bytes and back.
use rs_snap.Prelude.{
  ℕ, ◌+◌, ◌*◌, Bool, true, false, not, Option, none, some, [], ◌∷◌, length, get_or, leb, ◌==◌,
  if◌then◌else◌,
}
use rs_snap.Wire.{Bytes, put_u16, put_u32}
use rs_snap.S7.Codes.{TransportSize}
use rs_snap.Prelude.{◌≡◌, refl, arith}
use rs_snap.Wire.{IsU8, IsU16, IsU32}

pub data Variant : Type 0 where
  float int32 uint32 int16 uint16 byte : ℕ → Variant
  boolean : Bool → Variant
  other : Variant

abbrev u32_of : Bytes → ℕ
u32_of bytes =
    ((get_or bytes 0 0 * 256 + get_or bytes 1 0) * 256 + get_or bytes 2 0) * 256 + get_or bytes 3 0

abbrev u16_of : Bytes → ℕ
u16_of bytes = get_or bytes 0 0 * 256 + get_or bytes 1 0

abbrev at_least : ℕ → Bytes → Variant → Option Variant
at_least n bytes v = if leb n (length bytes) then some v else none

unfoldable pub bytes_to_variant : Bytes → TransportSize → Option Variant
bytes_to_variant bytes TransportSize.real = at_least 4 bytes (float (u32_of bytes))
bytes_to_variant bytes TransportSize.dword = at_least 4 bytes (uint32 (u32_of bytes))
bytes_to_variant bytes TransportSize.dint = at_least 4 bytes (int32 (u32_of bytes))
bytes_to_variant bytes TransportSize.word = at_least 2 bytes (uint16 (u16_of bytes))
bytes_to_variant bytes TransportSize.int = at_least 2 bytes (int16 (u16_of bytes))
bytes_to_variant bytes TransportSize.byte = at_least 1 bytes (byte (get_or bytes 0 0))
bytes_to_variant bytes TransportSize.bit = at_least 1 bytes (boolean (not (get_or bytes 0 0 == 0)))
bytes_to_variant bytes _ = none

unfoldable pub transport_size_bytes : TransportSize → ℕ → Option ℕ
transport_size_bytes TransportSize.real count = some (4 * count)
transport_size_bytes TransportSize.dword count = some (4 * count)
transport_size_bytes TransportSize.dint count = some (4 * count)
transport_size_bytes TransportSize.word count = some (2 * count)
transport_size_bytes TransportSize.int count = some (2 * count)
transport_size_bytes TransportSize.byte count = some (1 * count)
transport_size_bytes TransportSize.bit count = some (1 * count)
transport_size_bytes _ count = none

unfoldable pub variant_to_bytes : Variant → Option (Bytes × TransportSize)
variant_to_bytes (float f) = some (put_u32 f, TransportSize.real)
variant_to_bytes (int32 i) = some (put_u32 i, TransportSize.dint)
variant_to_bytes (uint32 u) = some (put_u32 u, TransportSize.dword)
variant_to_bytes (int16 i) = some (put_u16 i, TransportSize.int)
variant_to_bytes (uint16 u) = some (put_u16 u, TransportSize.word)
variant_to_bytes (byte b) = some (b ∷ [], TransportSize.byte)
variant_to_bytes (boolean b) = some ((if b then 1 else 0) ∷ [], TransportSize.bit)
variant_to_bytes other = none

-- A value whose bits have the width of its type.
unfoldable pub Fits : Variant → Type 0
Fits (float f) = IsU32 f
Fits (int32 i) = IsU32 i
Fits (uint32 u) = IsU32 u
Fits (int16 i) = IsU16 i
Fits (uint16 u) = IsU16 u
Fits (byte b) = IsU8 b
Fits (boolean b) = Unit {0}
Fits other = ⊥

-- Every value of a type that a tag can have is written as bytes from which its type reads it back, and they
-- are as many as a poll of one element of the type asks for.
pub bytes_to_variant-variant_to_bytes :
    (v : Variant)
    → Fits v
    → (bytes : Bytes) × (ts : TransportSize) × (variant_to_bytes v ≡ some (bytes, ts))
      × (bytes_to_variant bytes ts ≡ some v)
      × (transport_size_bytes ts 1 ≡ some (length bytes))
unfolding Fits bytes_to_variant variant_to_bytes transport_size_bytes
bytes_to_variant-variant_to_bytes (float f) h = (_, _, refl, ground arith, refl)
bytes_to_variant-variant_to_bytes (int32 f) h = (_, _, refl, ground arith, refl)
bytes_to_variant-variant_to_bytes (uint32 f) h = (_, _, refl, ground arith, refl)
bytes_to_variant-variant_to_bytes (int16 f) h = (_, _, refl, ground arith, refl)
bytes_to_variant-variant_to_bytes (uint16 f) h = (_, _, refl, ground arith, refl)
bytes_to_variant-variant_to_bytes (byte f) h = (_, _, refl, ground arith, refl)
bytes_to_variant-variant_to_bytes (boolean true) h = (_, _, refl, refl, refl)
bytes_to_variant-variant_to_bytes (boolean false) h = (_, _, refl, refl, refl)
bytes_to_variant-variant_to_bytes other h = elim h [ ]
