-- ===== src/Lib.antt =====
-- A library of theorems about rs-snap7, a client and a server for the S7 protocol of Siemens PLCs. A
-- client opens a TCP connection, sets it up (COTP, then the negotiation of the PDU size), and sends
-- requests; the server answers each from its store. A request is an S7 header with parameters and
-- data, inside a COTP data PDU, inside a TPKT frame. S7CommPlus is a second protocol of the client,
-- with frames, data areas and a digest of its own. A partner exchanges whole blocks of data with
-- another one; a pool shares client connections, and a gateway shows tags of a PLC as OPC UA
-- variables.
--
-- The parts, with the code they are about:
--   Wire      the `bytes` crate as the codecs use it, and ProtoError
--             (crates/snap7-client/src/proto/error.rs). A buffer is the list of its bytes; a reader
--             returns a value and the bytes left, an error, or a panic.
--   Tpkt      TpktFrame::encode, decode (crates/snap7-client/src/proto/tpkt.rs)
--   Cotp      CotpPdu::encode, decode (crates/snap7-client/src/proto/cotp.rs)
--   S7        the headers, requests and responses of crates/snap7-client/src/proto/s7: Codes and
--             Header (header.rs), Address and Sized (the address items and the data that read_var.rs
--             and write_var.rs share), ReadVar, WriteVar, Negotiate, Clock, Szl
--   Plus      crates/snap7-client/src/proto/s7commplus: Vlq, Frame, DataArea (data.rs), Session,
--             MultiVar, Integrity, and Client (plus_client.rs and plus_connection.rs)
--   Decoders  all the decoders together
--   Io        code that reads and writes a transport: a run takes the bytes of the peer and gives the
--             bytes sent and an outcome
--   Server    crates/snap7-server/src: Memory and Store (store.rs: StoreInner as the record Store, a
--             function for each method), Replies and Dispatch (dispatch.rs: the handlers as functions
--             from a payload and a store to a reply and a store), Serve (the loop of dispatch_loop),
--             Handshake (handshake.rs), Reads (indexing and slicing)
--   Client    crates/snap7-client/src: Connection (connect of connection.rs), Session (Inner, send_s7
--             and recv_s7 of client.rs), Areas (read_area, write_area, db_read, db_write), Batch and
--             MultiVars (read_multi_vars, write_multi_vars), Wrappers (the areas by name and the force
--             commands), Queries (system status lists, clock, control commands), Calendar
--             (set_clock_to_now, with the Gregorian calendar apart from the code), Blocks (upload, download, deletion, lists), BlockInfo (block
--             information, password, protection), BlockData (types.rs: blocks, attributes, checksum)
--   Str       the functions of `str` that the parser of tags uses
--   Tag       parse_tag (crates/snap7-client/src/tag.rs)
--   Pool      acquire, and the drop of a connection, as steps of tasks on a pool
--             (crates/snap7-client/src/pool.rs)
--   Udp       poll_read (crates/snap7-client/src/udp.rs)
--   Partner   crates/snap7-partner/src: Proto (proto.rs), Transport (transport.rs), Runs (error.rs, the
--             state), Receiver (brecv), and bsend, connect and accept of partner.rs
--   Gateway   crates/snap7-opcua-gateway/src: registry.rs, and the values, write commands and polls of
--             poller.rs, with the OPC UA library as a parameter
--   Tests     the theorems at concrete inputs
--
-- Numbers are natural numbers. A conversion to a narrower type is written as a remainder; `start * 8`
-- wraps at 32 bits as it does in a release build. Bytes are not bounded by their type: where a theorem
-- needs that a number fits its width, it says so. Shifts are products and quotients by powers of two.
--
-- An index or a slice past the end of the bytes is an outcome of its own, a panic or `crash`, in the decoders,
-- in the handlers of the server and in the partner's reads, as is a vector of a negative length.
--
-- Loops: those over a list are recursion on it, and `for _ in 0..count` is recursion on the count. The
-- parameters of a ConnectRequest have one unit of fuel more than the buffer has bytes, of which a round
-- takes two at least. `encode_vlq` has the five slots of its array. The batches of a client have as much
-- fuel as there are items, of which a batch takes one at least. The loop of the server has fuel given
-- from outside; a turn takes four bytes of the input at least. A partner that sends has as much fuel as the
-- block has bytes, and one that receives has one more than its input has bytes. So have the rounds of an
-- upload, a download and a list of blocks, each of which takes a response off the input. The loop over the
-- years has one unit more than the days hold years of 365.
--
-- The store is guarded by a mutex that no method holds during a callback, so a method is a function on
-- its state. What the callbacks do is a parameter; where a theorem needs callbacks that leave the bytes
-- and the locks alone, it says so. Connections that run at the same time are not modelled beyond this:
-- each theorem about a conversation is about one client. The tasks of a pool interleave in any order; a
-- poisoned mutex and a cancelled `acquire` are not modelled. Writes to a transport succeed. The texts of
-- tags and blocks are lists of ASCII codes.
--
-- Not modelled: sockets, TLS, the command line, benchmarks and demo programs, which only call libraries;
-- HMAC-SHA256, which is a parameter; the texts of error messages; times and timeouts, where a silent
-- peer is one whose input has ended; of client.rs the settings, the order code, the CPU information,
-- which search for strings, and the comparison and filling of blocks; of the gateway the loop of a
-- poller, the configuration and the OPC UA server.
pub mod Prelude
pub mod Wire
pub mod Io
pub mod Udp
pub mod Tpkt
pub mod Cotp
pub mod S7
pub mod Plus
pub mod Decoders
pub mod Client
pub mod Server
pub mod Str
pub mod Pool
pub mod Tag
pub mod Partner
pub mod Gateway
pub mod Tests
