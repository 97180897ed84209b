-- ===== src/S7/Address/Laws.antt =====
-- What `decode` reads where `encode` wrote an address item.
use rs_snap.Prelude.{
  ℕ, ◌+◌, ◌*◌, ◌/◌, ◌%◌, ◌^◌, ◌<◌, ◌≡◌, ◌≢◌, ◌∙◌, ap, arith, true, false, ◌∷◌, ◌++◌, bit_and,
}
use rs_snap.Prelude.Bits.{and_7, and_ff, or_3, or_8, or_16}
use rs_snap.Wire.{Bytes, ok, panic, IsU16}
use rs_snap.S7.Codes.{
  area_of-area_code, transport_size_of-transport_code, area_of-ne-panic, transport_size_of-ne-panic,
}
use rs_snap.S7.Address.{AddressItem, by_element, addr_bits, put_address, join_u24, get_address}

-- Three bytes joined by shifts are their big-endian number.
join_u24-sum : (b0 b1 b2 : ℕ) → b1 < 256 → b2 < 256 → join_u24 b0 b1 b2 ≡ b0 * 65536 + b1 * 256 + b2
unfolding join_u24
join_u24-sum b0 b1 b2 h1 h2 = ground (arith, or_16 b0 (b1 * 256), or_8 (b0 * 256 + b1) b2)

join_u24-split :
    (n : ℕ)
    → n < 2 ^ 24
    → join_u24 (bit_and (n / 65536) 0xff) (bit_and (n / 256) 0xff) (bit_and n 0xff) ≡ n
join_u24-split n h = ground (
  arith,
  and_ff (n / 65536),
  and_ff (n / 256),
  and_ff n,
  join_u24-sum (n / 65536 % 256) (n / 256 % 256) (n % 256),
)

-- What the address is read back as: the 24 bits, split at the bit number whatever the transport.
abbrev pub reread : AddressItem → AddressItem
reread item = record item { start = addr_bits item / 8; bit_offset = addr_bits item % 8 }

pub record IsValid (item : AddressItem) : Type 0 where
  pub db_number_fits : IsU16 item.db_number
  pub length_fits : IsU16 item.length
  pub addr_fits : addr_bits item < 2 ^ 24

pub get_address-put_address :
    (item : AddressItem) (rest : Bytes)
    → IsValid item
    → get_address (put_address item ++ rest) ≡ ok (reread item, rest)
unfolding get_address put_address
get_address-put_address item rest v = ground (
  arith,
  transport_size_of-transport_code item.transport,
  area_of-area_code item.area,
  join_u24-split (addr_bits item),
  and_7 (addr_bits item),
)

-- An item that `decode` reads as it was: addressed by byte and bit, within 24 bits.
pub record IsByByte (item : AddressItem) : Type 0 where
  pub by_byte : by_element item.transport ≡ false
  pub start_fits : item.start < 2 ^ 21
  pub bit_fits : item.bit_offset < 8
  pub db_number_fits : IsU16 item.db_number
  pub length_fits : IsU16 item.length

addr_bits-by_byte :
    (item : AddressItem) → IsByByte item → addr_bits item ≡ item.start * 8 + item.bit_offset
unfolding addr_bits
addr_bits-by_byte item v = ground (arith, or_3 item.start item.bit_offset)

pub IsByByte-IsValid : (item : AddressItem) → IsByByte item → IsValid item
IsByByte-IsValid item v = omega (arith, addr_bits-by_byte item v)

pub reread-IsByByte : (item : AddressItem) → IsByByte item → reread item ≡ item
reread-IsByByte item v = ground (arith, addr_bits-by_byte item v)

pub get_address-ne-panic : (buf : Bytes) → get_address buf ≢ panic
unfolding get_address
get_address-ne-panic (a ∷ b ∷ c ∷ d ∷ e ∷ f ∷ g ∷ h ∷ i ∷ j ∷ k ∷ l ∷ rest) =
    ground (arith, transport_size_of-ne-panic d, area_of-ne-panic i)
get_address-ne-panic _ = ground arith

-- An item addressed by element (a timer or a counter, of a number below 2^24) is not read back as it
-- was: where `encode` writes the element's number, `decode` reads an eighth of it as the start, and
-- its low three bits as the bit.
get_address-by_element :
    (item : AddressItem) (rest : Bytes)
    → by_element item.transport ≡ true
    → IsU16 item.db_number
    → IsU16 item.length
    → item.start < 2 ^ 24
    → get_address (put_address item ++ rest)
      ≡ ok (record item { start = item.start / 8; bit_offset = item.start % 8 }, rest)
get_address-by_element item rest e hd hl hs =
    let bits : addr_bits item ≡ item.start = unfold addr_bits in rw e in
    get_address-put_address item rest
      (record { db_number_fits = hd; length_fits = hl; addr_fits = rw bits hs })
    ∙ ap (λ (n : ℕ). ok (record item { start = n / 8; bit_offset = n % 8 }, rest)) bits
