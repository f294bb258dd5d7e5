-- ===== src/Ouch/Session/Receive/Kept.antt =====
-- The input buffer during a dispatch.
use ouchservice.Prelude.{ℕ, zero, suc, ◌+◌, ◌%◌, ◌^◌, ◌≡◌, ◌∙◌, List, arith, take, drop, get_or}
use ouchservice.Core.Codec.{Codec}
use ouchservice.Net.Soup.{header_codec}
use ouchservice.Ouch.Messages.Outbound.{
  order_accepted_codec, order_rejected_codec, order_replaced_codec, order_canceled_codec,
  order_executed_codec, mass_quote_ack_codec, mass_quote_rejection_codec,
}
use ouchservice.Ouch.Session.State.{
  Session, Outcome, returns, fails, out_of_bounds, Callback, call, set_state,
}
use ouchservice.Ouch.Session.Dispatch.{
  deliver, dispatch_type, dispatch_ouch, dispatch_login_accepted, dispatch_login_rejected,
  dispatch_packet,
}
use ouchservice.Ouch.Session.Receive.{
  packet_size, claimed_len, dispatch_first, after_dispatch, parse_loop,
}

deliver-in_buffer :
    {A : Type 0} (c : Codec A) (h : A → Callback) (payload : List ℕ) (n : ℕ) (s : Session)
    → (deliver c h payload n s).1.in_buffer ≡ s.in_buffer
unfolding deliver
deliver-in_buffer c h payload n s = ground arith

dispatch_type-in_buffer :
    (t : ℕ) (payload : List ℕ) (n : ℕ) (s : Session)
    → (dispatch_type t payload n s).1.in_buffer ≡ s.in_buffer
unfolding dispatch_type
dispatch_type-in_buffer t payload n s = ground (
  arith,
  deliver-in_buffer order_accepted_codec Callback.on_accepted payload n s,
  deliver-in_buffer order_rejected_codec Callback.on_rejected payload n s,
  deliver-in_buffer order_replaced_codec Callback.on_replaced payload n s,
  deliver-in_buffer order_canceled_codec Callback.on_canceled payload n s,
  deliver-in_buffer order_executed_codec Callback.on_executed payload n s,
  deliver-in_buffer mass_quote_ack_codec Callback.on_mass_quote_ack payload n s,
  deliver-in_buffer mass_quote_rejection_codec Callback.on_mass_quote_reject payload n s,
)

dispatch_ouch-in_buffer :
    (payload : List ℕ) (n : ℕ) (s : Session) → (dispatch_ouch payload n s).1.in_buffer ≡ s.in_buffer
unfolding dispatch_ouch
dispatch_ouch-in_buffer payload n s =
    ground (arith, dispatch_type-in_buffer (get_or payload 0 0) payload n s)

dispatch_packet-in_buffer :
    (t : ℕ) (payload : List ℕ) (n : ℕ) (s : Session)
    → (dispatch_packet t payload n s).1.in_buffer ≡ s.in_buffer
unfolding dispatch_packet dispatch_login_accepted dispatch_login_rejected set_state
dispatch_packet-in_buffer t payload n s = ground (
  arith,
  dispatch_ouch-in_buffer payload n (record s {
    msgs_recv = (s.msgs_recv + 1) % 2 ^ 64;
    next_inbound_seq = (s.next_inbound_seq + 1) % 2 ^ 64;
  }),
)

dispatch_first-in_buffer :
    (buf : List ℕ) (s : Session) → (dispatch_first buf s).1.in_buffer ≡ s.in_buffer
unfolding dispatch_first
dispatch_first-in_buffer buf s =
    dispatch_packet-in_buffer (header_codec.read buf).packet_type (drop 3 buf) (claimed_len buf)
      (call (Callback.on_audit_recv (take (packet_size buf) buf)) s)

after_dispatch-in_buffer :
    (go : List ℕ → Session → Outcome × List ℕ × Session) (rest kept : List ℕ)
    (r : Outcome × Session)
    → ((s : Session) → s.in_buffer ≡ kept → (go rest s).2.in_buffer ≡ kept)
    → r.1.in_buffer ≡ kept
    → (after_dispatch go rest r).2.in_buffer ≡ kept
after_dispatch-in_buffer go rest kept (returns, s) h e = h s e
after_dispatch-in_buffer go rest kept (fails x, s) h e = e
after_dispatch-in_buffer go rest kept (out_of_bounds, s) h e = e

pub parse_loop-in_buffer :
    (fuel : ℕ) (buf kept : List ℕ) (s : Session)
    → s.in_buffer ≡ kept
    → (parse_loop fuel buf s).2.in_buffer ≡ kept
unfolding parse_loop
parse_loop-in_buffer zero buf kept s e = e
parse_loop-in_buffer (suc fuel) buf kept s e = ground (
  arith,
  after_dispatch-in_buffer (parse_loop fuel) (drop (packet_size buf) buf) kept
      (dispatch_first buf s) (parse_loop-in_buffer fuel (drop (packet_size buf) buf) kept)
      (dispatch_first-in_buffer buf s ∙ e),
)
