-- ===== src/Client/MultiVars/Asked.antt =====
-- What `read_multi_vars` of crates/snap7-client/src/client.rs sends to any peer.
use rs_snap.Prelude.{
  ℕ, ◌+◌, ◌-◌, ◌*◌, ◌%◌, ◌≤◌, ◌≡◌, refl, sym, ◌∙◌, ap, arith, ◌⊎◌, inl, inr, List, [], ◌∷◌, ◌++◌,
  length, All, append-nil,
}
use rs_snap.Wire.{Bytes}
use rs_snap.Io.{Io, Outcome, done, failed, crash, cut_exact, read_exact, try, value}
use rs_snap.Io
use rs_snap.Io.Frames.{data_frame}
use rs_snap.Client.Session.{Inner, after_sending, go_on, run_io}
use rs_snap.Client.Areas.Served.{counted}
use rs_snap.Client.Batch.{MultiReadItem, add_read, read_batches}
use rs_snap.Client.Batch.Laws.{concat, tally, ReadFits, read_batches-IsBatch}
use rs_snap.Client.MultiVars.{read_batch, read_each, read_multi_vars}
use rs_snap.Client.MultiVars.Served.{batch_payload}
use rs_snap.Client.MultiVars.Sent.{SendsOne, read_batch-SendsOne}

-- The size of the response to the reads of a batch: a header of four bytes and an even number of bytes each.
pub response_size : List MultiReadItem → ℕ
response_size [] = 0
response_size (item ∷ items) = 4 + item.length + item.length % 2 + response_size items

-- A batch: 1 to 20 reads, and more than one only if their addresses, of 12 bytes each, and the response to
-- them are each within the PDU size less 12.
pub IsReadBatch : ℕ → List MultiReadItem → Type 0
IsReadBatch pdu_size batch =
    (1 ≤ length batch)
    × (length batch ≤ 20)
    × ((length batch ≡ 1)
        ⊎ ((12 * length batch ≤ pdu_size - 12) × (response_size batch ≤ pdu_size - 12)))

tally-add_read :
    (batch : List MultiReadItem) (a r : ℕ)
    → ((tally add_read (a, r) batch).0 ≡ a + 12 * length batch)
      × ((tally add_read (a, r) batch).1 ≡ r + response_size batch)
unfolding response_size
tally-add_read [] a r = (omega arith, omega arith)
tally-add_read (item ∷ batch) a r =
    let (e, e') = tally-add_read batch (a + 12) (r + (4 + item.length + item.length % 2)) in
    (omega (arith, e), omega (arith, e'))

fits-IsReadBatch :
    (pdu_size : ℕ) (batch : List MultiReadItem)
    → (1 ≤ length batch)
      × (length batch ≤ 20)
      × ((length batch ≡ 1) ⊎ ReadFits pdu_size (tally add_read (0, 0) batch))
    → IsReadBatch pdu_size batch
unfolding IsReadBatch
fits-IsReadBatch pdu_size batch (one, few, inl e) = (one, few, inl e)
fits-IsReadBatch pdu_size batch (one, few, inr (p, q)) =
    let (e, e') = tally-add_read batch 0 0 in (one, few, inr (omega (arith, e), omega (arith, e')))

batches_fit :
    (pdu_size : ℕ) (batches : List (List MultiReadItem))
    → All
        (λ b.
          (1 ≤ length b)
          × (length b ≤ 20)
          × ((length b ≡ 1) ⊎ ReadFits pdu_size (tally add_read (0, 0) b)))
        batches
    → All (IsReadBatch pdu_size) batches
batches_fit pdu_size [] h = tt
batches_fit pdu_size (b ∷ batches) (p, h) =
    (fits-IsReadBatch pdu_size b p, batches_fit pdu_size batches h)

-- One frame for each batch, each with the next reference number.
pub batch_frames : Inner → List (List MultiReadItem) → Bytes
batch_frames inner [] = []
batch_frames inner (batch ∷ batches) =
    data_frame (batch_payload inner batch) ++ batch_frames (counted inner) batches

pub IsDone : {A : Type 0} → Outcome A → Type 0
IsDone (done a) = Unit {0}
IsDone (failed e) = ⊥
IsDone crash = ⊥

-- What has been sent of the batches: the frames of the first ones, and of all if the run is done.
pub record Asked (inner : Inner) (batches : List (List MultiReadItem))
    (r : Inner × (Bytes × Outcome (List Bytes × Bytes))) : Type 0 where
  pub asked : List (List MultiReadItem)
  pub left : List (List MultiReadItem)
  pub in_order : batches ≡ asked ++ left
  pub sent : r.1.0 ≡ batch_frames inner asked
  pub all_if_done : IsDone r.1.1 → left ≡ []

-- The batches after the first, and their contents put behind the first's.
later-Asked :
    (inner : Inner) (batch : List MultiReadItem) (batches : List (List MultiReadItem))
    (frame : Bytes) (f : List Bytes → List Bytes)
    (r : Inner × (Bytes × Outcome (List Bytes × Bytes)))
    → frame ≡ data_frame (batch_payload inner batch)
    → Asked (counted inner) batches r
    → Asked inner
        (batch ∷ batches)
        (after_sending frame (go_on r (λ more. run_io (Io.return (f more)))))
unfolding batch_frames IsDone
later-Asked inner batch batches frame f (after, (sent, done (more, rest))) e h = record {
  asked = batch ∷ h.asked;
  left = h.left;
  in_order = ap (λ x. batch ∷ x) h.in_order;
  sent = rw (e, append-nil sent) (ap (λ x. data_frame (batch_payload inner batch) ++ x) h.sent);
  all_if_done = h.all_if_done;
}
later-Asked inner batch batches frame f (after, (sent, failed x)) e h = record {
  asked = batch ∷ h.asked;
  left = h.left;
  in_order = ap (λ x. batch ∷ x) h.in_order;
  sent = rw e (ap (λ x. data_frame (batch_payload inner batch) ++ x) h.sent);
  all_if_done = h.all_if_done;
}
later-Asked inner batch batches frame f (after, (sent, crash)) e h = record {
  asked = batch ∷ h.asked;
  left = h.left;
  in_order = ap (λ x. batch ∷ x) h.in_order;
  sent = rw e (ap (λ x. data_frame (batch_payload inner batch) ++ x) h.sent);
  all_if_done = h.all_if_done;
}

first-Asked :
    (inner : Inner) (batch : List MultiReadItem) (batches : List (List MultiReadItem))
    (r : Inner × (Bytes × Outcome (List Bytes × Bytes)))
    → SendsOne inner (data_frame (batch_payload inner batch)) r
    → ((rest : Bytes) → Asked (counted inner) batches (read_each batches (counted inner) rest))
    → Asked inner (batch ∷ batches) (
        go_on r (λ contents inner rest.
          go_on (read_each batches inner rest) (λ more. run_io (Io.return (contents ++ more)))))
unfolding SendsOne batch_frames IsDone
first-Asked inner batch batches (after, (sent, done (contents, rest))) (e, e') h =
    later-Asked inner batch batches sent (λ more. contents ++ more) (read_each batches after rest)
      e' (rw e (h rest))
first-Asked inner batch batches (after, (sent, failed x)) e h = record {
  asked = batch ∷ [];
  left = batches;
  in_order = refl;
  sent = e ∙ sym (append-nil (data_frame (batch_payload inner batch)));
  all_if_done = λ d. absurd d;
}
first-Asked inner batch batches (after, (sent, crash)) e h = record {
  asked = batch ∷ [];
  left = batches;
  in_order = refl;
  sent = e ∙ sym (append-nil (data_frame (batch_payload inner batch)));
  all_if_done = λ d. absurd d;
}

read_each-Asked :
    (pdu_size : ℕ) (batches : List (List MultiReadItem)) (inner : Inner) (input : Bytes)
    → All (IsReadBatch pdu_size) batches
    → Asked inner batches (read_each batches inner input)
unfolding read_each IsReadBatch batch_frames
read_each-Asked pdu_size [] inner input h = record {
  asked = [];
  left = [];
  in_order = refl;
  sent = refl;
  all_if_done = λ d. refl;
}
read_each-Asked pdu_size (batch ∷ batches) inner input ((one, few, fits), h) =
    first-Asked inner batch batches (read_batch batch inner input)
      (read_batch-SendsOne batch inner input few)
      λ rest. read_each-Asked pdu_size batches (counted inner) rest h

-- With any peer, `read_multi_vars` cuts its items, in order and each once, into batches of 1 to 20, in which
-- more than one item are together only if their addresses and the response to them are each within the PDU
-- size less 12. It sends the read requests of the first batches, one frame each with the next reference
-- number, and nothing else; if it returns contents, it has sent those of all batches.
pub read_multi_vars-Asked :
    (items : List MultiReadItem) (inner : Inner) (input : Bytes)
    → (batches : List (List MultiReadItem)) × (concat batches ≡ items)
      × All (IsReadBatch inner.pdu_size) batches
      × Asked inner batches (read_multi_vars items inner input)
unfolding read_multi_vars
read_multi_vars-Asked items inner input =
    let (whole, each) = read_batches-IsBatch inner.pdu_size items in
    let batches = read_batches inner.pdu_size items in
    let sized = batches_fit inner.pdu_size batches each in
    (batches, whole, sized, read_each-Asked inner.pdu_size batches inner input sized)
