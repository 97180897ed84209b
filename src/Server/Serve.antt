-- ===== src/Server/Serve.antt =====
-- crates/snap7-server/src/dispatch.rs: the loop of `dispatch_loop` over what a client sends, on fuel.
pub mod Exchange
pub mod Total
use rs_snap.Prelude.{ℕ, zero, suc, Option, none, some, List, [], ◌∷◌, ◌++◌, length}
use rs_snap.Wire.{Bytes, Result, ok, err, panic}
use rs_snap.Io.{Outcome, proto, done, failed, crash, after_sending, send_cotp_data}
use rs_snap.Server.Store.{Store, Callbacks}
use rs_snap.Server.Dispatch.{respond}
use rs_snap.Server.Handshake.{recv_cotp_data}

-- What a connection sent, and the store that it leaves; `none` where the fuel was not enough.
abbrev pub Served : Type 0
Served = Option (Bytes × Outcome Store)

abbrev pub prepend : Bytes → Served → Served
prepend sent none = none
prepend sent (some run) = some (after_sending sent run)

module _ (calls : Callbacks) where
  -- What the send of a reply leads to; `next` is the loop after it.
  abbrev pub sent_reply : Bytes × Outcome (Unit {0} × Bytes) → Served → Served
  sent_reply (sent, done _) next = prepend sent next
  sent_reply (sent, failed e) next = some (sent, failed e)
  sent_reply (sent, crash) next = some (sent, crash)

  abbrev pub replied : (Store → Bytes → Served) → Result (Bytes × Store) → Bytes → Served
  replied next (ok (reply, after)) rest = sent_reply (send_cotp_data reply rest) (next after rest)
  replied next (err e) rest = some ([], failed (proto e))
  replied next panic rest = some ([], crash)

  -- `match recv_cotp_data(&mut transport).await { Ok(p) => p, Err(_) => return Ok(()) }`
  abbrev pub received : (Store → Bytes → Served) → Store → Outcome (Bytes × Bytes) → Served
  received next s (done (payload, rest)) = replied next (respond calls payload s) rest
  received next s (failed e) = some ([], done s)
  received next s crash = some ([], crash)

  unfoldable pub serve : ℕ → Store → Bytes → Served
  serve zero s input = none
  serve (suc fuel) s input = received (serve fuel) s (recv_cotp_data input).1
