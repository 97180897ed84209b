-- ===== src/Tests/Plus.antt =====
-- S7CommPlus at concrete frames.
use rs_snap.Prelude.{◌+◌, ◌*◌, ◌≤◌, ◌≡◌, ◌≢◌, refl, arith, [], ◌∷◌, ◌++◌, length, replicate}
use rs_snap.Wire.{Bytes, ok, put_all}
use rs_snap.Plus.Vlq.{encode_vlq, decode_vlq, decode_loop}
use rs_snap.Plus.Vlq.RoundTrip.{decode_vlq-encode_vlq}
use rs_snap.Plus.Frame.{S7PlusFrame, Version, version_code, magic}
use rs_snap.Plus.Frame
use rs_snap.Plus.DataArea.{DataArea, DataArea-decode-encode}
use rs_snap.Plus.DataArea
use rs_snap.Plus.Integrity.{Hmac, append_integrity, verify, verify_from, tail_matches}
use rs_snap.Plus.Integrity.Laws.{Sealed, verify-Sealed, verify-append_integrity}
use rs_snap.Plus.MultiVar.{SetMultiVarRequest, VarResult}
use rs_snap.Io.{done}
use rs_snap.Plus.Client.{PlusConnection, DbVarSpec, db_lid, read_multi_vars, db_read}
use rs_snap.Plus.Client.Asked.{AsksFor, prefixes}
use rs_snap.Plus.Client.Served.{plus_frame, read_multi_vars-served}
use rs_snap.Plus.Client.Addresses.{db_read-start}

abbrev hello : Bytes
hello = 0x68 ∷ 0x69 ∷ []

decode_vlq-encode_vlq_example :
    (wire : Bytes) × (encode_vlq 300 ≡ ok wire)
    × (decode_vlq (wire ++ hello) ≡ ok (300, hello))
    × (1 ≤ length wire)
    × (length wire ≤ 5)
decode_vlq-encode_vlq_example = decode_vlq-encode_vlq 300 hello (omega arith)

abbrev greeting : S7PlusFrame
greeting = record { version = Version.v1; content = hello }

abbrev greeting_wire : Bytes
greeting_wire = 0x72 ∷ 1 ∷ 0 ∷ 2 ∷ 0x68 ∷ 0x69 ∷ 0x72 ∷ 1 ∷ 0 ∷ 2 ∷ []

greeting-decodes : Frame.decode greeting_wire ≡ ok (greeting, [])
unfolding Frame.decode Frame.version_of Frame.check_trailer
greeting-decodes = refl

abbrev area : DataArea
area = record {
  opcode = 0x32;
  function_code = 0x54c;
  seqnum = 2;
  session_id = 77;
  transport_flags = 0;
  payload = 0 ∷ 0 ∷ 2 ∷ 0x68 ∷ 0x69 ∷ 9 ∷ [];
}

area-IsValid : DataArea.IsValid area
area-IsValid = record {
  function_code_fits = omega arith;
  seqnum_fits = omega arith;
  session_id_fits = omega arith;
}

abbrev set_one : SetMultiVarRequest
set_one = record {
  seqnum = 3;
  session_id = 77;
  items = record { crc = 0x1234; lid = 5; value = hello } ∷ [];
}

-- A digest that is the length of the data.
abbrev by_length : Hmac
by_length = record {
  mac = λ key content. length content ∷ replicate 31 0;
  length-mac = λ key content. refl;
}

longer :
    (front : Bytes)
    → front ≢ []
    → length front ≤ 4
    → by_length.mac [] (hello ++ front) ≢ by_length.mac [] hello
longer [] h k = absurd (h refl)
longer (x ∷ front) h k = λ e. ground arith

verify-append_integrity_example :
    (frame : Bytes) × (append_integrity by_length hello [] 5 ≡ ok frame)
    × (verify by_length frame [] ≡ ok 5)
verify-append_integrity_example = verify-append_integrity by_length hello [] 5 (omega arith) longer

abbrev sealed_hello : Bytes
sealed_hello = 0x68 ∷ 0x69 ∷ 5 ∷ 0x20 ∷ 2 ∷ replicate 31 0

sealed_hello-verifies : verify by_length sealed_hello [] ≡ ok 5
unfolding verify verify_from tail_matches decode_vlq decode_loop
sealed_hello-verifies = refl

verify-Sealed_example : Sealed by_length sealed_hello [] 5
verify-Sealed_example = verify-Sealed by_length sealed_hello [] 5 sealed_hello-verifies

abbrev session : PlusConnection
session = record { session_id = 77; seqnum = 2; version = Version.v1 }

abbrev asked : DbVarSpec
asked = record { db = 1; offset = 4; length = 2 }

abbrev answered : VarResult
answered = record { return_code = 0; value = hello }

read_multi_vars-served_example :
    (request : Bytes) × AsksFor 2 77 (db_lid 1 4 ∷ []) request
    × ((read_multi_vars (asked ∷ []) session).1 (plus_frame Version.v1 (DataArea.encode area) ++ [])
        ≡ (plus_frame Version.v1 request, done (prefixes (answered ∷ []) (asked ∷ []), [])))
unfolding DataArea.encode put_all
read_multi_vars-served_example =
    read_multi_vars-served asked [] session Version.v1 area (answered ∷ []) (9 ∷ []) []
      (omega arith) (omega arith) (omega arith) area-IsValid (omega arith, tt) refl refl
      (omega arith)

db_read-start_example : db_read 1 (5 + 4096 * 2) 2 session ≡ db_read 1 5 2 session
db_read-start_example = db_read-start 1 5 2 2 session
