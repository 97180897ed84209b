-- ===== src/Client/Connection.antt =====
-- crates/snap7-client/src/connection.rs: `connect`.
pub mod Agreement
pub mod Frames
use rs_snap.Prelude.{
  ℕ, ◌+◌, ◌-◌, ◌*◌, Option, none, some, List, [], ◌∷◌, ◌++◌, ltb, ◌==◌, ◌&&◌, if◌then◌else◌,
}
use rs_snap.Wire.{Bytes}
use rs_snap.Io.{
  Io, negotiation_failed, unexpected_response, plc_error, done, crash, ◌>>=◌, ◌>>◌, return, fail,
  read_exact, try, value, send_cotp, send_cotp_data,
}
use rs_snap.Cotp.{CotpPdu, connect_request, connect_confirm, dt, er}
use rs_snap.Cotp
use rs_snap.S7.Codes.{PduType}
use rs_snap.S7.Header.{S7Header}
use rs_snap.S7.Header
use rs_snap.S7.Negotiate.{Negotiate}
use rs_snap.S7.Negotiate

-- The fields of `ConnectParams` that `connect` reads.
pub record ConnectParams : Type 0 where
  pub rack : ℕ
  pub slot : ℕ
  pub pdu_size : ℕ

-- `total - 4` overflows for a total below 4, where the check of the server is missing.
abbrev pub recv_body : Bytes → Io CotpPdu
recv_body (a ∷ b ∷ c ∷ d ∷ _) =
    if ltb (c * 256 + d) 4
    then (λ input. ([], crash))
    else (do payload ← read_exact (c * 256 + d - 4); try (value (Cotp.decode payload)))
recv_body _ = fail unexpected_response

unfoldable pub recv_cotp : Io CotpPdu
recv_cotp = do header ← read_exact 4; recv_body header

abbrev pub data_payload : CotpPdu → Io Bytes
data_payload (dt nr last payload) = return payload
data_payload (connect_request _ _ _ _) = fail unexpected_response
data_payload (connect_confirm _ _) = fail unexpected_response
data_payload (er _ _ _) = fail unexpected_response

unfoldable pub recv_cotp_data : Io Bytes
unfolding recv_cotp
recv_cotp_data = do pdu ← recv_cotp; data_payload pdu

-- `if !matches!(cc, CotpPdu::ConnectConfirm { .. })`
abbrev pub expect_confirm : CotpPdu → Io (Unit {0})
expect_confirm (connect_confirm _ _) = return tt
expect_confirm (connect_request _ _ _ _) = fail negotiation_failed
expect_confirm (dt _ _ _) = fail negotiation_failed
expect_confirm (er _ _ _) = fail negotiation_failed

abbrev pub expect_ack_data : PduType → Io (Unit {0})
expect_ack_data PduType.ack_data = return tt
expect_ack_data PduType.job = fail negotiation_failed
expect_ack_data PduType.ack = fail negotiation_failed
expect_ack_data PduType.user_data = fail negotiation_failed

-- `if let (Some(ec), Some(ecd)) = …`, with `((ec as u32) << 8) | ecd as u32`.
abbrev pub check_error : Option ℕ → Option ℕ → Io (Unit {0})
check_error (some ec) (some ecd) =
    if ec == 0 && ecd == 0 then return tt else fail (plc_error (ec * 256 + ecd))
check_error _ _ = return tt

abbrev pub negotiate_header : S7Header
negotiate_header = record {
  pdu_type = PduType.job;
  reserved = 0;
  pdu_ref = 1;
  param_len = 8;
  data_len = 0;
  error_class = none;
  error_code = none;
}

abbrev pub negotiate_request : ConnectParams → Negotiate
negotiate_request params = record {
  max_amq_calling = 1;
  max_amq_called = 1;
  pdu_length = params.pdu_size;
}

abbrev pub read_response : Bytes → Io ℕ
read_response payload = do
  header ← try (Header.decode payload)
  expect_ack_data header.0.pdu_type
  check_error header.0.error_class header.0.error_code
  response ← try (value (Negotiate.decode header.1))
  return response.pdu_length

-- The PDU size is all that a `Connection` holds.
unfoldable pub connect : ConnectParams → Io ℕ
connect params = do
  send_cotp (connect_request 0x0000 0x0001 params.rack params.slot)
  cc ← recv_cotp
  expect_confirm cc
  send_cotp_data (Header.encode negotiate_header ++ Negotiate.encode (negotiate_request params))
  payload ← recv_cotp_data
  read_response payload
