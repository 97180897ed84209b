-- ===== src/Client/MultiVars/Sent.antt =====
-- One batch of `read_multi_vars` of crates/snap7-client/src/client.rs with any peer.
use rs_snap.Prelude.{
  ℕ, ◌*◌, ◌≤◌, ◌≡◌, refl, arith, Bool, true, false, List, [], ◌∷◌, map, length, leb, append-nil,
  length-append, length-map, Option, none, some,
}
use rs_snap.Wire.{Bytes, Result, ok, err, panic, put_all}
use rs_snap.Io.{Io, Outcome, done, failed, crash, cut_exact, read_exact, try, value}
use rs_snap.Io.Frames.{data_frame}
use rs_snap.S7.Codes.{PduType}
use rs_snap.S7.Address.{AddressItem, put_address}
use rs_snap.S7.Header.{S7Header, encode, decode}
use rs_snap.S7.ReadVar.{ReadVarResponse, DataItem, put_addresses, encode_request, decode_response}
use rs_snap.Client.Connection.{check_error}
use rs_snap.Client.Session.{
  Inner, Run, after_sending, go_on, run_io, reading, next_pdu_ref, body_len, strip_dt, recv_s7,
  check_plc_error, ◌>>=◌,
}
use rs_snap.Client.Session.Frames.{send_s7-framed}
use rs_snap.Client.Areas.{skip_echo}
use rs_snap.Client.Areas.Served.{next_ref, counted}
use rs_snap.Client.Batch.{MultiReadItem}
use rs_snap.Client.MultiVars.{read_address, item_contents, read_batch}
use rs_snap.Client.MultiVars.Served.{batch_payload}

-- A run that sends nothing, and one with a value leaves the state as it was.
unfoldable Quiet : {A : Type 0} → Inner → Inner × (Bytes × Outcome (A × Bytes)) → Type 0
Quiet inner (after, (sent, done a)) = (after ≡ inner) × (sent ≡ [])
Quiet inner (after, (sent, failed e)) = sent ≡ []
Quiet inner (after, (sent, crash)) = sent ≡ []

after-Quiet :
    {A : Type 0} (inner : Inner) (sent : Bytes) (r : Inner × (Bytes × Outcome (A × Bytes)))
    → sent ≡ []
    → Quiet inner r
    → Quiet inner (after_sending sent r)
unfolding Quiet
after-Quiet inner sent (after, (more, done a)) e (q, e') = (q, rw (e, e') refl)
after-Quiet inner sent (after, (more, failed x)) e e' = rw (e, e') refl
after-Quiet inner sent (after, (more, crash)) e e' = rw (e, e') refl

go_on-Quiet :
    {A B : Type 0} (inner : Inner) (r : Inner × (Bytes × Outcome (A × Bytes))) (f : A → Run B)
    → Quiet inner r
    → ((a : A) (rest : Bytes) → Quiet inner (f a inner rest))
    → Quiet inner (go_on r f)
unfolding Quiet
go_on-Quiet inner (after, (sent, done (a, rest))) f (e, e') h =
    after-Quiet inner sent (f a after rest) e' (rw e (h a rest))
go_on-Quiet inner (after, (sent, failed x)) f e h = e
go_on-Quiet inner (after, (sent, crash)) f e h = e

io-Quiet :
    {A : Type 0} (inner : Inner) (r : Bytes × Outcome (A × Bytes))
    → r.0 ≡ []
    → Quiet inner (inner, r)
unfolding Quiet
io-Quiet inner (sent, done a) e = (refl, e)
io-Quiet inner (sent, failed x) e = e
io-Quiet inner (sent, crash) e = e

read_exact-Quiet :
    (n : ℕ) (inner : Inner) (input : Bytes) → Quiet inner (reading (read_exact n) inner input)
unfolding Quiet
read_exact-Quiet n inner input = go (leb n (length input))
  where
    go : (b : Bool) → Quiet inner (reading (cut_exact b n) inner input)
    go true = (refl, refl)
    go false = refl

body_len_silent : (header input : Bytes) → (body_len header input).0 ≡ []
body_len_silent (a ∷ b ∷ c ∷ d ∷ rest) input = ground arith
body_len_silent _ input = refl

strip_dt_silent : (payload input : Bytes) → (strip_dt payload input).0 ≡ []
strip_dt_silent (a ∷ b ∷ c ∷ rest) input = ground arith
strip_dt_silent _ input = refl

try_silent : {A : Type 0} (r : Result A) (input : Bytes) → (try r input).0 ≡ []
try_silent (ok a) input = refl
try_silent (err e) input = refl
try_silent panic input = refl

recv_s7-Quiet : (inner : Inner) (input : Bytes) → Quiet inner (recv_s7 inner input)
unfolding recv_s7
recv_s7-Quiet inner input = go_on-Quiet inner _ _ (read_exact-Quiet 4 inner input) λ header rest.
    go_on-Quiet inner _ _ (io-Quiet inner (body_len header rest) (body_len_silent header rest))
      λ len rest. go_on-Quiet inner _ _ (read_exact-Quiet len inner rest) λ payload rest.
        go_on-Quiet inner _ _
          (io-Quiet inner (strip_dt payload rest) (strip_dt_silent payload rest))
          λ s7 rest. io-Quiet inner (try (decode s7) rest) (try_silent (decode s7) rest)

check_error_silent : (class code : Option ℕ) (input : Bytes) → (check_error class code input).0 ≡ []
check_error_silent (some a) (some b) input = ground arith
check_error_silent (some a) none input = refl
check_error_silent none code input = refl

contents_silent : (items : List DataItem) (input : Bytes) → (item_contents items input).0 ≡ []
contents_silent [] input = refl
contents_silent (item ∷ items) input = ground (arith, contents_silent items input)

-- What follows a response.
checked-Quiet :
    (count : ℕ) (received : S7Header × Bytes) (inner : Inner) (input : Bytes)
    → Quiet inner (
        go_on (check_plc_error received.0 inner input) (λ u.
          run_io (try (value (decode_response count (skip_echo received.1)))) >>= λ resp.
          run_io (item_contents resp.items)))
checked-Quiet count (header, body) inner input =
    let parsed : Io ReadVarResponse = try (value (decode_response count (skip_echo body))) in
    let collect : ReadVarResponse → Run (List Bytes) = λ resp. run_io (item_contents resp.items) in
    let check : Io (Unit {0}) = check_error header.error_class header.error_code in
    let parse : Unit {0} → Run (List Bytes) = λ u. run_io parsed >>= collect in
    go_on-Quiet inner (inner, check input) parse
      (io-Quiet inner (check input) (check_error_silent header.error_class header.error_code input))
      λ u rest.
        go_on-Quiet inner (inner, parsed rest) collect
          (io-Quiet inner (parsed rest)
            (try_silent (value (decode_response count (skip_echo body))) rest))
          λ resp rest.
            io-Quiet inner (item_contents resp.items rest) (contents_silent resp.items rest)

-- The run of one batch: one frame, and with a value the next reference number and nothing else changed.
unfoldable pub SendsOne :
    {A : Type 0} → Inner → Bytes → Inner × (Bytes × Outcome (A × Bytes)) → Type 0
SendsOne inner frame (after, (sent, done a)) = (after ≡ counted inner) × (sent ≡ frame)
SendsOne inner frame (after, (sent, failed e)) = sent ≡ frame
SendsOne inner frame (after, (sent, crash)) = sent ≡ frame

after-SendsOne :
    {A : Type 0} (inner : Inner) (frame : Bytes) (r : Inner × (Bytes × Outcome (A × Bytes)))
    → Quiet (counted inner) r
    → SendsOne inner frame (after_sending [] (after_sending frame r))
unfolding Quiet SendsOne
after-SendsOne inner frame (after, (sent, done a)) (e, e') = (e, rw e' (append-nil frame))
after-SendsOne inner frame (after, (sent, failed x)) e = rw e (append-nil frame)
after-SendsOne inner frame (after, (sent, crash)) e = rw e (append-nil frame)

length-put_addresses : (items : List AddressItem) → length (put_addresses items) ≡ 12 * length items
unfolding put_addresses put_all put_address
length-put_addresses [] = refl
length-put_addresses (item ∷ items) =
    omega
      (arith, length-append (put_address item) (put_addresses items), length-put_addresses items)

length-batch_payload :
    (inner : Inner) (batch : List MultiReadItem)
    → length batch ≤ 20
    → length (batch_payload inner batch) ≤ 65528
unfolding encode encode_request
length-batch_payload inner batch h = omega (
  arith,
  length-put_addresses (map read_address batch),
  length-map read_address batch,
  length-append (put_addresses (map read_address batch)) [],
)

pub read_batch-SendsOne :
    (batch : List MultiReadItem) (inner : Inner) (input : Bytes)
    → length batch ≤ 20
    → SendsOne inner (data_frame (batch_payload inner batch)) (read_batch batch inner input)
unfolding read_batch next_pdu_ref
read_batch-SendsOne batch inner input h =
    rw
      (send_s7-framed (encode_request (record { items = map read_address batch })) []
        (next_ref inner) PduType.job (counted inner) input (length-batch_payload inner batch h))
      (after-SendsOne inner (data_frame (batch_payload inner batch)) _ (
        go_on-Quiet (counted inner) _ _ (recv_s7-Quiet (counted inner) input)
          λ received rest. checked-Quiet (length batch) received (counted inner) rest))
