-- ===== src/Ouch/Session/Timers.antt =====
-- Heartbeats, the watchdog, and the reactor's entry point `poll_io`.
pub mod Flush
pub mod Watchdog
use ouchservice.Prelude.{
  ℕ, ◌+◌, ◌-◌, ◌%◌, ◌^◌, List, [], ◌∷◌, ◌++◌, if◌then◌else◌, ◌==◌, ◌&&◌, not, leb, take, drop,
  length, min,
}
use ouchservice.Core.Types.{ErrorCategory, make_error}
use ouchservice.Net.Soup.{header_codec, make_header, client_heartbeat}
use ouchservice.Ouch.Session.State.{
  Session, SessionState, SendReply, takes, send_fails, Outcome, returns, fails, set_state,
  first_or_zero, rest_of,
}
use ouchservice.Ouch.Session.Send.{write_bytes, is_active, and_then}
use ouchservice.Ouch.Session.Receive.{read_some, parse_pending}

-- The loop of `flush_pending` over what is kept; an error of the socket ends it silently.
unfoldable pub flush_loop : List SendReply → List ℕ → Session → Session
flush_loop replies [] s = record s { sends = replies; out_pending = [] }
flush_loop [] (b ∷ bs) s = record s { sends = []; out_pending = b ∷ bs }
flush_loop (send_fails ∷ replies) (b ∷ bs) s = record s { sends = replies; out_pending = b ∷ bs }
flush_loop (takes k ∷ replies) (b ∷ bs) s =
    let n = min k (length (b ∷ bs)) in
    let next =
      flush_loop replies (drop n (b ∷ bs)) (record s { wire = s.wire ++ take n (b ∷ bs) }) in
    if n == 0 then record s { sends = replies; out_pending = b ∷ bs } else next

unfoldable pub flush_pending : Session → Session
unfolding flush_loop
flush_pending s = if s.is_open then flush_loop s.sends s.out_pending s else s

-- `now - then` on uint64_t.
abbrev pub since : ℕ → ℕ → ℕ
since now before = (now + 2 ^ 64 - before) % 2 ^ 64

unfoldable pub heartbeat_if_quiet : ℕ → Session → Outcome × Session
heartbeat_if_quiet now s =
    if leb s.heartbeat_send_ns (since now s.last_send_ns)
    then write_bytes (header_codec.write (make_header client_heartbeat 0)) s
    else (returns, s)

unfoldable pub watchdog : ℕ → Session → Outcome × Session
watchdog now s =
    if not (s.last_recv_ns == 0) && leb s.heartbeat_timeout_ns (since now s.last_recv_ns)
    then (
      fails (make_error ErrorCategory.timeout "heartbeat watchdog tripped"),
      set_state SessionState.failed "peer heartbeat timeout" [] s,
    )
    else (returns, s)

unfoldable pub tick_timers : Session → Outcome × Session
unfolding flush_pending heartbeat_if_quiet watchdog
tick_timers s0 =
    let s = flush_pending s0 in
    let now = first_or_zero s.clock in
    if is_active s.state
    then and_then (heartbeat_if_quiet now (record s { clock = rest_of s.clock })) (watchdog now)
    else (returns, s)

unfoldable pub poll_io : Session → Outcome × Session
unfolding tick_timers
poll_io s = and_then (and_then (read_some s) parse_pending) tick_timers
