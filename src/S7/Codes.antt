-- ===== src/S7/Codes.antt =====
-- The one-byte enumerations of crates/snap7-client/src/proto/s7/header.rs and their `TryFrom<u8>`.
use rs_snap.Prelude.{ℕ, ◌≡◌, ◌<◌, ◌≢◌, refl, arith, ◌==◌, if◌then◌else◌}
use rs_snap.Wire.{
  Result, ok, err, panic, unsupported_pdu_type, unsupported_area, unsupported_transport_size,
}

pub data PduType : Type 0 where
  job ack ack_data user_data : PduType

-- `pdu_type as u8`
unfoldable pub pdu_code : PduType → ℕ
pdu_code PduType.job = 0x01
pdu_code PduType.ack = 0x02
pdu_code PduType.ack_data = 0x03
pdu_code PduType.user_data = 0x07

unfoldable pub pdu_type_of : ℕ → Result PduType
pdu_type_of v =
    if v == 0x01
    then ok PduType.job
    else if v == 0x02
    then ok PduType.ack
    else if v == 0x03
    then ok PduType.ack_data
    else if v == 0x07
    then ok PduType.user_data
    else err (unsupported_pdu_type v)

pub data Area : Type 0 where
  peripheral_input process_input process_output marker data_block : Area
  instance_db local_data counter timer : Area

unfoldable pub area_code : Area → ℕ
area_code Area.peripheral_input = 0x80
area_code Area.process_input = 0x81
area_code Area.process_output = 0x82
area_code Area.marker = 0x83
area_code Area.data_block = 0x84
area_code Area.instance_db = 0x85
area_code Area.local_data = 0x86
area_code Area.counter = 0x1c
area_code Area.timer = 0x1d

unfoldable pub area_of : ℕ → Result Area
area_of v =
    if v == 0x80
    then ok Area.peripheral_input
    else if v == 0x81
    then ok Area.process_input
    else if v == 0x82
    then ok Area.process_output
    else if v == 0x83
    then ok Area.marker
    else if v == 0x84
    then ok Area.data_block
    else if v == 0x85
    then ok Area.instance_db
    else if v == 0x86
    then ok Area.local_data
    else if v == 0x1c
    then ok Area.counter
    else if v == 0x1d
    then ok Area.timer
    else err (unsupported_area v)

pub data TransportSize : Type 0 where
  bit byte char word int dword dint real date tod time s5time dtl counter timer : TransportSize

unfoldable pub transport_code : TransportSize → ℕ
transport_code TransportSize.bit = 0x01
transport_code TransportSize.byte = 0x02
transport_code TransportSize.char = 0x03
transport_code TransportSize.word = 0x04
transport_code TransportSize.int = 0x05
transport_code TransportSize.dword = 0x06
transport_code TransportSize.dint = 0x07
transport_code TransportSize.real = 0x08
transport_code TransportSize.date = 0x09
transport_code TransportSize.tod = 0x0a
transport_code TransportSize.time = 0x0b
transport_code TransportSize.s5time = 0x0c
transport_code TransportSize.dtl = 0x0f
transport_code TransportSize.counter = 0x1c
transport_code TransportSize.timer = 0x1d

unfoldable pub transport_size_of : ℕ → Result TransportSize
transport_size_of v =
    if v == 0x01
    then ok TransportSize.bit
    else if v == 0x02
    then ok TransportSize.byte
    else if v == 0x03
    then ok TransportSize.char
    else if v == 0x04
    then ok TransportSize.word
    else if v == 0x05
    then ok TransportSize.int
    else if v == 0x06
    then ok TransportSize.dword
    else if v == 0x07
    then ok TransportSize.dint
    else if v == 0x08
    then ok TransportSize.real
    else if v == 0x09
    then ok TransportSize.date
    else if v == 0x0a
    then ok TransportSize.tod
    else if v == 0x0b
    then ok TransportSize.time
    else if v == 0x0c
    then ok TransportSize.s5time
    else if v == 0x0f
    then ok TransportSize.dtl
    else if v == 0x1c
    then ok TransportSize.counter
    else if v == 0x1d
    then ok TransportSize.timer
    else err (unsupported_transport_size v)

-- Each `try_from` reads back each code, and accepts no other number.
pub pdu_type_of-pdu_code : (p : PduType) → pdu_type_of (pdu_code p) ≡ ok p
unfolding pdu_type_of pdu_code
pdu_type_of-pdu_code PduType.job = refl
pdu_type_of-pdu_code _ = refl

pub area_of-area_code : (a : Area) → area_of (area_code a) ≡ ok a
unfolding area_of area_code
area_of-area_code Area.timer = refl
area_of-area_code _ = refl

pub transport_size_of-transport_code :
    (t : TransportSize) → transport_size_of (transport_code t) ≡ ok t
unfolding transport_size_of transport_code
transport_size_of-transport_code TransportSize.bit = refl
transport_size_of-transport_code _ = refl

pub pdu_code-pdu_type_of : (v : ℕ) {p : PduType} → pdu_type_of v ≡ ok p → pdu_code p ≡ v
unfolding pdu_type_of pdu_code
pdu_code-pdu_type_of v h = ground arith

pub area_code-area_of : (v : ℕ) {a : Area} → area_of v ≡ ok a → area_code a ≡ v
unfolding area_of area_code
area_code-area_of v h = ground arith

pub transport_code-transport_size_of :
    (v : ℕ) {t : TransportSize} → transport_size_of v ≡ ok t → transport_code t ≡ v
unfolding transport_size_of transport_code
transport_code-transport_size_of v h = ground arith

pub pdu_type_of-ne-panic : (v : ℕ) → pdu_type_of v ≢ panic
unfolding pdu_type_of
pdu_type_of-ne-panic v = ground arith

pub area_of-ne-panic : (v : ℕ) → area_of v ≢ panic
unfolding area_of
area_of-ne-panic v = ground arith

pub transport_size_of-ne-panic : (v : ℕ) → transport_size_of v ≢ panic
unfolding transport_size_of
transport_size_of-ne-panic v = ground arith

pub area_code-lt : (a : Area) → area_code a < 256
unfolding area_code
area_code-lt Area.timer = omega arith
area_code-lt _ = omega arith

pub transport_code-lt : (t : TransportSize) → transport_code t < 256
unfolding transport_code
transport_code-lt TransportSize.bit = omega arith
transport_code-lt _ = omega arith
