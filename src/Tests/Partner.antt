-- ===== src/Tests/Partner.antt =====
-- Runs of the two partners and of their theorems.
use rs_snap.Prelude.{◌≡◌, refl, arith, [], ◌∷◌}
use rs_snap.Partner.Runs.{S7Partner, crash}
use rs_snap.Partner.Transport.{active_handshake}
use rs_snap.Partner.{new_unconnected, attach, bsend}
use rs_snap.Partner.Receiver.{brecv}
use rs_snap.Partner.Agreement.{Delivered, Session, bsend-brecv, connect-bsend}
use rs_snap.Partner.Ends.{Ends}
use rs_snap.Partner.Total.{brecv-Ends, bsend-Ends}

abbrev linked : S7Partner
linked = attach 480 new_unconnected

-- With a PDU size of 38, a slice has two bytes.
abbrev narrow : S7Partner
narrow = attach 38 new_unconnected

bsend-brecv_example : Delivered 3735928559 (1 ∷ 2 ∷ 3 ∷ 4 ∷ 5 ∷ []) narrow linked (9 ∷ []) []
bsend-brecv_example =
    bsend-brecv 3735928559 1 (2 ∷ 3 ∷ 4 ∷ 5 ∷ []) 38 480 narrow linked (9 ∷ []) [] (omega arith)
      (omega arith) refl refl (omega arith)

connect-bsend_example : Session 7 (1 ∷ 2 ∷ 3 ∷ []) [] []
connect-bsend_example = connect-bsend 7 1 (2 ∷ 3 ∷ []) [] [] (omega arith) (omega arith)

brecv-Ends_example : Ends 5 (brecv linked (3 ∷ 0 ∷ 0 ∷ 3 ∷ []))
brecv-Ends_example = brecv-Ends linked (3 ∷ 0 ∷ 0 ∷ 3 ∷ [])

bsend-Ends_example : Ends 3 (bsend 1 (1 ∷ 2 ∷ []) linked (3 ∷ 0 ∷ []))
bsend-Ends_example = bsend-Ends 1 (1 ∷ 2 ∷ []) linked (3 ∷ 0 ∷ [])

-- A block of no bytes is not sent, and the call succeeds.
nothing_sent : (bsend 1 [] linked []).0 ≡ []
unfolding bsend rs_snap.Partner.send_slices rs_snap.Partner.max_slice
nothing_sent = refl

-- A reply with a length below 4 stops the handshake with a panic.
short_reply : (active_handshake linked (3 ∷ 0 ∷ 0 ∷ 3 ∷ [])).1.1 ≡ crash
unfolding active_handshake
short_reply = refl
