-- ===== src/Udp/Stream.antt =====
-- That the reads of crates/snap7-client/src/udp.rs lose and reorder no byte.
use rs_snap.Prelude.{
  ℕ, min, ◌≡◌, refl, sym, ap, ◌∙◌, List, [], ◌∷◌, ◌++◌, length, take, drop, append_assoc,
  take-append-drop,
}
use rs_snap.Wire.{Bytes}
use rs_snap.Udp.{
  Received, datagram, recv_error, nothing_yet, UdpTransport, Polled, ready, poll_error, pending,
  scratch_len, hand_over, poll_socket, poll_bytes, poll_read,
}

-- The bytes of the datagrams, each up to the size of the area that it is received in.
unfoldable pub stream : List Received → Bytes
stream [] = []
stream (datagram bytes ∷ socket) = take scratch_len bytes ++ stream socket
stream (recv_error ∷ socket) = stream socket
stream (nothing_yet ∷ socket) = stream socket

abbrev pub bytes_of : Polled → Bytes
bytes_of (ready bytes) = bytes
bytes_of poll_error = []
bytes_of pending = []

-- Reads with the rooms of a list, one after the other: the bytes that they return, and what is left.
unfoldable pub poll_all :
    List ℕ → UdpTransport → List Received → Bytes × (UdpTransport × List Received)
poll_all [] t socket = ([], (t, socket))
poll_all (remaining ∷ rooms) t socket =
    let first = poll_read remaining t socket in
    let rest = poll_all rooms first.0.1 first.1 in (bytes_of first.0.0 ++ rest.0, rest.1)

hand_over-stream :
    (remaining : ℕ) (bytes : Bytes) (socket : List Received)
    → bytes_of (hand_over remaining bytes).0
        ++ ((hand_over remaining bytes).1.read_buf ++ stream socket)
      ≡ bytes ++ stream socket
hand_over-stream remaining bytes socket =
    let n = min (length bytes) remaining in
    sym (append_assoc (take n bytes) (drop n bytes) (stream socket))
    ∙ ap (λ x. x ++ stream socket) (take-append-drop n bytes)

poll_socket-stream :
    (remaining : ℕ) (socket : List Received)
    → bytes_of (poll_socket remaining socket).0.0
        ++ ((poll_socket remaining socket).0.1.read_buf ++ stream (poll_socket remaining socket).1)
      ≡ stream socket
unfolding poll_socket stream
poll_socket-stream remaining [] = refl
poll_socket-stream remaining (datagram bytes ∷ socket) =
    hand_over-stream remaining (take scratch_len bytes) socket
poll_socket-stream remaining (recv_error ∷ socket) = refl
poll_socket-stream remaining (nothing_yet ∷ socket) = refl

poll_bytes-stream :
    (remaining : ℕ) (bytes : Bytes) (socket : List Received)
    → bytes_of (poll_bytes remaining bytes socket).0.0
        ++ ((poll_bytes remaining bytes socket).0.1.read_buf
            ++ stream (poll_bytes remaining bytes socket).1)
      ≡ bytes ++ stream socket
unfolding poll_bytes
poll_bytes-stream remaining [] socket = poll_socket-stream remaining socket
poll_bytes-stream remaining (b ∷ bytes) socket = hand_over-stream remaining (b ∷ bytes) socket

-- For any sequence of reads with any rooms, also through errors and reads that find nothing, the bytes
-- that they return, then those that are kept, then those of the datagrams that are still to come are
-- the bytes that were kept at the start and those of all the datagrams, in their order.
pub poll_all-stream :
    (rooms : List ℕ) (t : UdpTransport) (socket : List Received)
    → (poll_all rooms t socket).0
        ++ ((poll_all rooms t socket).1.0.read_buf ++ stream (poll_all rooms t socket).1.1)
      ≡ t.read_buf ++ stream socket
unfolding poll_all poll_read
poll_all-stream [] t socket = refl
poll_all-stream (remaining ∷ rooms) t socket =
    let first = poll_read remaining t socket in
    let rest = poll_all rooms first.0.1 first.1 in
    append_assoc (bytes_of first.0.0) rest.0 (rest.1.0.read_buf ++ stream rest.1.1)
    ∙ ap (λ x. bytes_of first.0.0 ++ x) (poll_all-stream rooms first.0.1 first.1)
    ∙ poll_bytes-stream remaining t.read_buf socket
