-- ===== src/Ouch/Session/Send.antt =====
-- The write side: framing, partial writes and the bytes kept for later.
pub mod Stream
pub mod Frame
pub mod Login
use ouchservice.Prelude.{
  ℕ, ◌+◌, ◌-◌, ◌%◌, ◌^◌, Bool, List, [], ◌∷◌, ◌++◌, if◌then◌else◌, ◌==◌, take, drop, length, min,
}
use ouchservice.Prelude.Decimal.{print_padded}
use ouchservice.Core.Types.{Error, ErrorCategory, make_error}
use ouchservice.Core.Alpha.{alpha_set}
use ouchservice.Core.Codec.{Codec}
use ouchservice.Net.Soup.{
  Header, LoginRequest, header_codec, login_request_codec, make_header, login_request,
  logout_request, unsequenced_data, username_len, password_len, session_len, sequence_len,
}
use ouchservice.Ouch.Messages.Inbound.{
  EnterOrder, ReplaceOrder, CancelOrder, CancelByOrderId, enter_order_codec, replace_order_codec,
  cancel_order_codec, cancel_by_order_id_codec,
}
use ouchservice.Ouch.Session.State.{
  Session, SessionState, SendReply, takes, send_fails, Outcome, returns, fails, out_of_bounds,
  Callback, call, set_state, first_or_zero, rest_of,
}

-- The end of `write_bytes`, when all is written.
unfoldable pub written : List SendReply → List ℕ → Session → Outcome × Session
written replies buf s = (
  returns,
  call (Callback.on_audit_sent buf) (record s {
    sends = replies;
    last_send_ns = first_or_zero s.clock;
    clock = rest_of s.clock;
    msgs_sent = (s.msgs_sent + 1) % 2 ^ 64;
  }),
)

-- EAGAIN: the remainder is kept, and the call succeeds.
unfoldable pub stashed : List SendReply → List ℕ → Session → Outcome × Session
stashed replies rest s =
    (returns, record s { sends = replies; out_pending = s.out_pending ++ rest })

-- The loop of `write_bytes`: `buf` is the whole buffer, `rest` what is not yet written. Each round
-- uses one answer of the kernel, and a kernel with no answer left would block.
unfoldable pub write_loop : List SendReply → List ℕ → List ℕ → Session → Outcome × Session
unfolding written stashed
write_loop replies buf [] s = written replies buf s
write_loop [] buf (b ∷ bs) s = stashed [] (b ∷ bs) s
write_loop (send_fails ∷ replies) buf (b ∷ bs) s =
    (fails (make_error ErrorCategory.io "send: "), record s { sends = replies })
write_loop (takes k ∷ replies) buf (b ∷ bs) s =
    let n = min k (length (b ∷ bs)) in
    let next =
      write_loop replies buf (drop n (b ∷ bs)) (record s { wire = s.wire ++ take n (b ∷ bs) }) in
    if n == 0 then stashed replies (b ∷ bs) s else next

-- `TcpSocket::send` fails at once on a closed socket.
unfoldable pub write_bytes : List ℕ → Session → Outcome × Session
unfolding write_loop
write_bytes [] s = written s.sends [] s
write_bytes (b ∷ bs) s =
    if s.is_open
    then write_loop s.sends (b ∷ bs) (b ∷ bs) s
    else (fails (make_error ErrorCategory.io "send on closed socket"), s)

unfoldable pub is_active : SessionState → Bool
is_active SessionState.active = Bool.true
is_active _ = Bool.false

abbrev pub and_then : Outcome × Session → (Session → Outcome × Session) → Outcome × Session
and_then (returns, s) next = next s
and_then (fails e, s) next = (fails e, s)
and_then (out_of_bounds, s) next = (out_of_bounds, s)

unfoldable pub send_unsequenced : List ℕ → Session → Outcome × Session
unfolding is_active
send_unsequenced payload s =
    if is_active s.state
    then and_then
        (write_bytes (header_codec.write (make_header unsequenced_data (length payload))) s)
        (write_bytes payload)
    else (fails (make_error ErrorCategory.state_mismatch "session not Active"), s)

unfoldable pub send_enter_order : EnterOrder → Session → Outcome × Session
send_enter_order m = send_unsequenced (enter_order_codec.write m)

unfoldable pub send_replace_order : ReplaceOrder → Session → Outcome × Session
send_replace_order m = send_unsequenced (replace_order_codec.write m)

unfoldable pub send_cancel : CancelOrder → Session → Outcome × Session
send_cancel m = send_unsequenced (cancel_order_codec.write m)

unfoldable pub send_cancel_by_id : CancelByOrderId → Session → Outcome × Session
send_cancel_by_id m = send_unsequenced (cancel_by_order_id_codec.write m)

unfoldable pub send_mass_quote : List ℕ → Session → Outcome × Session
send_mass_quote blob = send_unsequenced blob

-- `snprintf` into 20 bytes leaves room for 19 digits and the NUL.
unfoldable pub sequence_field : ℕ → List ℕ
sequence_field n = take (sequence_len - 1) (print_padded sequence_len n) ++ (0 ∷ [])

unfoldable pub login_packet : Session → LoginRequest
unfolding sequence_field
login_packet s = record {
  header = make_header login_request (49 - 3);
  username = alpha_set username_len s.login.username;
  password = alpha_set password_len s.login.password;
  requested_session = alpha_set session_len s.login.requested_session;
  requested_sequence_number = sequence_field s.login.requested_sequence;
}

unfoldable pub begin_login : Session → Outcome × Session
unfolding login_packet
begin_login s =
    if s.is_open
    then (let s' = set_state SessionState.logging_in "sending LoginRequest" [] s in
        write_bytes (login_request_codec.write (login_packet s')) s')
    else (fails (make_error ErrorCategory.io "socket not connected"), s)

unfoldable pub request_logout : Session → Outcome × Session
request_logout s =
    let s' = set_state SessionState.disconnecting "sending LogoutRequest" [] s in
    write_bytes (header_codec.write (make_header logout_request 0)) s'
