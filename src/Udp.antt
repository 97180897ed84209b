-- ===== src/Udp.antt =====
-- crates/snap7-client/src/udp.rs: the datagrams of a socket read as a stream of bytes. A socket is the
-- list of what it answers to a `poll_recv`, one after the other; behind the list nothing arrives.
pub mod Stream
use rs_snap.Prelude.{ℕ, min, List, [], ◌∷◌, ◌++◌, length, take, drop}
use rs_snap.Wire.{Bytes}

pub data Received : Type 0 where
  datagram : Bytes → Received
  recv_error : Received
  nothing_yet : Received

pub record UdpTransport : Type 0 where
  pub read_buf : Bytes

pub data Polled : Type 0 where
  ready : Bytes → Polled
  poll_error : Polled
  pending : Polled

abbrev pub connected : UdpTransport
connected = record { read_buf = [] }

-- The size of the area for a datagram; of a larger one the rest is lost.
abbrev pub scratch_len : ℕ
scratch_len = 65535

-- What a caller with room for `remaining` bytes gets of those that are there, and what is kept.
abbrev pub hand_over : (remaining : ℕ) → Bytes → Polled × UdpTransport
hand_over remaining bytes =
    let n = min (length bytes) remaining in
    (ready (take n bytes), record { read_buf = drop n bytes })

-- `poll_recv` when the buffer is empty.
unfoldable pub poll_socket :
    (remaining : ℕ) → List Received → (Polled × UdpTransport) × List Received
poll_socket remaining [] = ((pending, connected), [])
poll_socket remaining (datagram bytes ∷ socket) =
    (hand_over remaining (take scratch_len bytes), socket)
poll_socket remaining (recv_error ∷ socket) = ((poll_error, connected), socket)
poll_socket remaining (nothing_yet ∷ socket) = ((pending, connected), socket)

unfoldable pub poll_bytes :
    (remaining : ℕ) → Bytes → List Received → (Polled × UdpTransport) × List Received
unfolding poll_socket
poll_bytes remaining [] socket = poll_socket remaining socket
poll_bytes remaining (b ∷ bytes) socket = (hand_over remaining (b ∷ bytes), socket)

unfoldable pub poll_read :
    (remaining : ℕ) → UdpTransport → List Received → (Polled × UdpTransport) × List Received
unfolding poll_bytes
poll_read remaining t socket = poll_bytes remaining t.read_buf socket
