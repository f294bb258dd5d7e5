-- ===== src/Ouch/Session/Receive.antt =====
-- Reading from the socket and cutting the stream into packets.
pub mod Prefix
pub mod Kept
pub mod Bounds
pub mod Deliver
pub mod Framing
pub mod Drained
use ouchservice.Prelude.{
  ℕ, zero, suc, ◌+◌, ◌-◌, ◌%◌, ◌^◌, List, [], ◌∷◌, ◌++◌, if◌then◌else◌, ltb, take, drop, length,
}
use ouchservice.Core.Types.{Error, ErrorCategory, make_error}
use ouchservice.Core.Codec.{Codec}
use ouchservice.Net.Soup.{Header, header_codec}
use ouchservice.Ouch.Session.State.{
  Session, SessionState, RecvReply, gives, would_block, peer_closed, recv_fails, Outcome, returns,
  fails, out_of_bounds, Callback, call, set_state, first_or_zero, rest_of,
}
use ouchservice.Ouch.Session.Dispatch.{dispatch_packet}

-- The loop of `read_some`; each round uses one answer of the kernel.
unfoldable pub read_loop : List RecvReply → Session → Outcome × Session
read_loop [] s = (returns, record s { recvs = [] })
read_loop (would_block ∷ replies) s = (returns, record s { recvs = replies })
read_loop (recv_fails ∷ replies) s =
    (fails (make_error ErrorCategory.io "recv: "), record s { recvs = replies })
read_loop (peer_closed ∷ replies) s = (
  fails (make_error ErrorCategory.io "eof"),
  set_state SessionState.disconnected "peer closed" [] (record s { recvs = replies }),
)
read_loop (gives bytes ∷ replies) s = read_loop replies (record s {
  in_buffer = s.in_buffer ++ bytes;
  last_recv_ns = first_or_zero s.clock;
  clock = rest_of s.clock;
})

unfoldable pub read_some : Session → Outcome × Session
unfolding read_loop
read_some s =
    if s.is_open
    then read_loop s.recvs s
    else (fails (make_error ErrorCategory.io "read on closed socket"), s)

-- The size that a header claims, and the length of its payload: a subtraction in size_t.
abbrev pub packet_size : List ℕ → ℕ
packet_size buf = (header_codec.read buf).length + 2

abbrev pub claimed_len : List ℕ → ℕ
claimed_len buf = (packet_size buf + 2 ^ 64 - 3) % 2 ^ 64

-- One round of `parse_pending` on a buffer that holds the packet: it is audited and dispatched.
unfoldable pub dispatch_first : List ℕ → Session → Outcome × Session
dispatch_first buf s =
    dispatch_packet (header_codec.read buf).packet_type (drop 3 buf) (claimed_len buf)
      (call (Callback.on_audit_recv (take (packet_size buf) buf)) s)

-- The packet is dropped whatever came of it; the loop goes on after a success.
abbrev pub after_dispatch :
    (List ℕ → Session → Outcome × List ℕ × Session)
    → List ℕ
    → Outcome × Session
    → Outcome × List ℕ × Session
after_dispatch go rest (returns, s) = go rest s
after_dispatch go rest (fails e, s) = (fails e, rest, s)
after_dispatch go rest (out_of_bounds, s) = (out_of_bounds, rest, s)

-- The loop of `parse_pending`, over the buffer: it returns what it has not consumed. Each round
-- drops at least the two bytes of a length, so the length of the buffer is enough fuel.
unfoldable pub parse_loop : ℕ → List ℕ → Session → Outcome × List ℕ × Session
parse_loop zero buf s = (returns, buf, s)
parse_loop (suc fuel) buf s =
    if ltb (length buf) 3
    then (returns, buf, s)
    else if ltb (length buf) (packet_size buf)
    then (returns, buf, s)
    else after_dispatch (parse_loop fuel) (drop (packet_size buf) buf) (dispatch_first buf s)

-- The buffer is passed to the loop apart from the other fields.
unfoldable pub parse_pending : Session → Outcome × Session
unfolding parse_loop
parse_pending s =
    let (o, rest, s') = parse_loop (length s.in_buffer) s.in_buffer (record s { in_buffer = [] }) in
    (o, record s' { in_buffer = rest })
