-- ===== src/Ouch/Session/Dispatch.antt =====
-- The read side: what one packet does. The payload is the memory behind the packet's header, up to
-- the end of the input buffer; `payload_len` is the length that the header claims.
use ouchservice.Prelude.{
  ℕ, ◌+◌, ◌%◌, ◌^◌, List, [], ◌∷◌, if◌then◌else◌, ◌==◌, ltb, take, drop, length, get_or, codes,
}
use ouchservice.Prelude.Decimal.{strtoull}
use ouchservice.Core.Types.{ErrorCategory, make_error}
use ouchservice.Core.Codec.{Codec}
use ouchservice.Net.Soup.{
  login_accepted, login_rejected, server_heartbeat, end_of_session, sequenced_data, debug,
  session_len, sequence_len,
}
use ouchservice.Ouch.Messages.Outbound.{
  order_accepted_codec, order_rejected_codec, order_replaced_codec, order_canceled_codec,
  order_executed_codec, mass_quote_ack_codec, mass_quote_rejection_codec,
}
use ouchservice.Ouch.Session.State.{
  Session, SessionState, Outcome, returns, fails, out_of_bounds, Callback, call, set_state,
}

-- One `case` of `dispatch_ouch`: the size check, the copy and the callback.
unfoldable pub deliver :
    {A : Type 0} → Codec A → (A → Callback) → List ℕ → ℕ → Session → Outcome × Session
deliver c handler payload payload_len s =
    if payload_len == c.size
    then (if ltb (length payload) c.size
        then (out_of_bounds, s)
        else (returns, call (handler (c.read payload)) s))
    else (
      fails (record {
        category = ErrorCategory.protocol;
        detail = "OUCH ";
        appended = get_or payload 0 0 ∷ codes " size mismatch";
      }),
      s,
    )

-- The `switch` on the OUCH message type.
unfoldable pub dispatch_type : ℕ → List ℕ → ℕ → Session → Outcome × Session
dispatch_type type payload n s =
    if type == b'A'
    then deliver order_accepted_codec Callback.on_accepted payload n s
    else if type == b'J'
    then deliver order_rejected_codec Callback.on_rejected payload n s
    else if type == b'U'
    then deliver order_replaced_codec Callback.on_replaced payload n s
    else if type == b'C'
    then deliver order_canceled_codec Callback.on_canceled payload n s
    else if type == b'E'
    then deliver order_executed_codec Callback.on_executed payload n s
    else if type == b'K'
    then deliver mass_quote_ack_codec Callback.on_mass_quote_ack payload n s
    else if type == b'R'
    then deliver mass_quote_rejection_codec Callback.on_mass_quote_reject payload n s
    else (
      fails (record {
        category = ErrorCategory.protocol;
        detail = "unknown OUCH type: ";
        appended = type ∷ [];
      }),
      s,
    )

unfoldable pub dispatch_ouch : List ℕ → ℕ → Session → Outcome × Session
dispatch_ouch payload payload_len s =
    if payload_len == 0
    then (fails (make_error ErrorCategory.protocol "empty OUCH payload"), s)
    else if length payload == 0
    then (out_of_bounds, s)
    else dispatch_type (get_or payload 0 0) payload payload_len s

unfoldable pub dispatch_login_accepted : List ℕ → ℕ → Session → Outcome × Session
dispatch_login_accepted payload payload_len s =
    if ltb payload_len (session_len + sequence_len)
    then (fails (make_error ErrorCategory.protocol "short LoginAccepted"), s)
    else if ltb (length payload) (session_len + sequence_len)
    then (out_of_bounds, s)
    else (
      returns,
      set_state SessionState.active "LoginAccepted" [] (record s {
        assigned_session = take session_len payload;
        next_inbound_seq = strtoull (take sequence_len (drop session_len payload));
        last_login_reject_reason = 0;
      }),
    )

unfoldable pub dispatch_login_rejected : List ℕ → ℕ → Session → Outcome × Session
dispatch_login_rejected payload payload_len s =
    if ltb payload_len 1
    then (
      returns,
      set_state SessionState.failed "LoginRejected" [] (record s { last_login_reject_reason = 0 }),
    )
    else if length payload == 0
    then (out_of_bounds, s)
    else (
      returns,
      set_state SessionState.failed "LoginRejected(reason='" (get_or payload 0 0 ∷ codes "')")
          (record s { last_login_reject_reason = get_or payload 0 0 }),
    )

-- The `switch` on the SoupBinTCP packet type.
unfoldable pub dispatch_packet : ℕ → List ℕ → ℕ → Session → Outcome × Session
dispatch_packet type payload payload_len s =
    let counted = record s { msgs_recv = (s.msgs_recv + 1) % 2 ^ 64 } in
    if type == login_accepted
    then dispatch_login_accepted payload payload_len counted
    else if type == login_rejected
    then dispatch_login_rejected payload payload_len counted
    else if type == server_heartbeat
    then (returns, counted)
    else if type == end_of_session
    then (returns, set_state SessionState.disconnected "EndOfSession" [] counted)
    else if type == sequenced_data
    then dispatch_ouch payload payload_len
        (record counted { next_inbound_seq = (counted.next_inbound_seq + 1) % 2 ^ 64 })
    else if type == debug
    then (returns, counted)
    else (
      fails (record {
        category = ErrorCategory.protocol;
        detail = "unknown SoupBinTCP type: ";
        appended = type ∷ [];
      }),
      counted,
    )
