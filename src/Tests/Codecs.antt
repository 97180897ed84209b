-- ===== src/Tests/Codecs.antt =====
-- The codecs of crates/snap7-client/src/proto at concrete PDUs.
use rs_snap.Prelude.{refl, arith, some, [], ◌∷◌}
use rs_snap.Wire.{Bytes}
use rs_snap.S7.Codes.{PduType, Area, TransportSize}
use rs_snap.S7.Header.{S7Header}
use rs_snap.S7.Header
use rs_snap.S7.Address.{AddressItem, by_element}
use rs_snap.S7.Address.Laws.{IsByByte}
use rs_snap.S7.ReadVar.{ReadVarRequest, DataItem, ReadVarResponse}
use rs_snap.S7.ReadVar
use rs_snap.S7.WriteVar.{WriteItem, WriteVarRequest}
use rs_snap.S7.WriteVar
use rs_snap.S7.Negotiate.{Negotiate, Negotiate-decode-encode}
use rs_snap.S7.Negotiate
use rs_snap.S7.Clock.{PlcDateTime}
use rs_snap.S7.Clock
use rs_snap.S7.Szl.{SzlRequest, SzlRequest-decode-encode}
use rs_snap.S7.Szl
use rs_snap.Plus.Session
use rs_snap.Plus.MultiVar

abbrev hello : Bytes
hello = 0x68 ∷ 0x69 ∷ []

abbrev acknowledged : S7Header
acknowledged = record {
  pdu_type = PduType.ack_data;
  reserved = 0;
  pdu_ref = 7;
  param_len = 2;
  data_len = 1;
  error_class = some 0;
  error_code = some 0;
}

-- DB 1, bytes 4 and 5.
abbrev word_of_db : AddressItem
word_of_db = record {
  area = Area.data_block;
  db_number = 1;
  start = 4;
  bit_offset = 0;
  length = 2;
  transport = TransportSize.byte;
}

word_of_db-IsByByte : IsByByte word_of_db
unfolding by_element
word_of_db-IsByByte = record {
  by_byte = refl;
  start_fits = omega arith;
  bit_fits = omega arith;
  db_number_fits = omega arith;
  length_fits = omega arith;
}

abbrev three_bytes : ReadVarResponse
three_bytes = record {
  items =
      record { return_code = 0xff; content = 1 ∷ 2 ∷ 3 ∷ [] }
      ∷ record { return_code = 5; content = [] }
      ∷ [];
}

abbrev write_word : WriteVarRequest
write_word = record { items = record { address = word_of_db; content = hello } ∷ [] }

-- Timer 5 comes back as byte 0, bit 5.
abbrev timer_five : AddressItem
timer_five = record {
  area = Area.timer;
  db_number = 0;
  start = 5;
  bit_offset = 0;
  length = 1;
  transport = TransportSize.timer;
}

abbrev wish : Negotiate
wish = record { max_amq_calling = 1; max_amq_called = 1; pdu_length = 480 }

abbrev new_year : PlcDateTime
new_year = record {
  year = 1999;
  month = 12;
  day = 31;
  hour = 23;
  minute = 59;
  second = 58;
  millisecond = 987;
  weekday = 6;
}
