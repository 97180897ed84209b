-- ===== src/Client/Blocks/Requests.antt =====
-- The first requests of a deletion and of a full upload (crates/snap7-client/src/client.rs).
use rs_snap.Prelude.{
  ℕ, arith, Option, some, none, ◌≡◌, refl, sym, ap, ◌∙◌, [], ◌++◌, append_assoc, append-nil,
}
use rs_snap.Wire.{Bytes}
use rs_snap.Io.{Outcome, done, failed, crash}
use rs_snap.S7.Codes.{PduType}
use rs_snap.S7.Header.{S7Header}
use rs_snap.Client.Session.{Inner, Run, go_on, ◌>>◌, check_plc_error}
use rs_snap.Client.Connection.{check_error}
use rs_snap.Client.Queries.{request}
use rs_snap.Client.Blocks.{
  block_params, delete_block, full_upload, upload_with, upload_rest, return,
}

-- What follows a step is sent behind what the step sends.
sent-go_on :
    {A B : Type 0} (r : Inner × (Bytes × Outcome (A × Bytes))) (f : A → Run B)
    → (more : Bytes) × ((go_on r f).1.0 ≡ r.1.0 ++ more)
sent-go_on (inner, (sent, done (a, rest))) f = ((f a inner rest).1.0, refl)
sent-go_on (inner, (sent, failed e)) f = ([], sym (append-nil sent))
sent-go_on (inner, (sent, crash)) f = ([], sym (append-nil sent))

-- A check sends nothing.
sent-check_error : (ec ecd : Option ℕ) (rest : Bytes) → (check_error ec ecd rest).0 ≡ []
sent-check_error none ecd rest = refl
sent-check_error (some ec) none rest = refl
sent-check_error (some ec) (some ecd) rest = ground arith

sent-checked :
    (r : Inner × (Bytes × Outcome ((S7Header × Bytes) × Bytes)))
    → (go_on r (λ (received : S7Header × Bytes). check_plc_error received.0)).1.0 ≡ r.1.0
sent-checked (inner, (sent, done ((header, body), rest))) =
    ap (λ x. sent ++ x) (sent-check_error header.error_class header.error_code rest)
    ∙ append-nil sent
sent-checked (inner, (sent, failed e)) = refl
sent-checked (inner, (sent, crash)) = refl

-- With any input, `full_upload` first sends all the bytes that `delete_block` sends for the same
-- block.
pub full_upload-delete_block :
    (block_type block_number : ℕ) (inner : Inner) (input : Bytes)
    → (more : Bytes) × ((full_upload block_type block_number inner input).1.0
        ≡ (delete_block block_type block_number inner input).1.0 ++ more)
unfolding full_upload upload_with delete_block
full_upload-delete_block block_type block_number inner input =
    let first = request (block_params 0x1f block_type block_number) [] PduType.job inner input in
    let checked : (S7Header × Bytes) → Run Bytes =
      λ received. check_plc_error received.0 >> return received.1 in
    let (m1, e1) = sent-go_on first checked in
    let (m2, e2) = sent-go_on (go_on first checked) (upload_rest 0x1f) in
    (
      m1 ++ m2,
      e2
          ∙ ap (λ x. x ++ m2) e1
          ∙ append_assoc first.1.0 m1 m2
          ∙ ap (λ x. x ++ (m1 ++ m2)) (sym (sent-checked first)),
    )
