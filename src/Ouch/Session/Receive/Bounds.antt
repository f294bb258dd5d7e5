-- ===== src/Ouch/Session/Receive/Bounds.antt =====
-- Which packets are read within the input buffer.
use ouchservice.Prelude.{
  ℕ, ◌+◌, ◌%◌, ◌^◌, ◌≤◌, ◌<◌, ◌≡◌, ◌≢◌, List, arith, take, drop, length, get_or, length-drop,
}
use ouchservice.Core.Codec.{Codec}
use ouchservice.Net.Soup.{header_codec}
use ouchservice.Ouch.Messages.Outbound.{
  order_accepted_codec, order_rejected_codec, order_replaced_codec, order_canceled_codec,
  order_executed_codec, mass_quote_ack_codec, mass_quote_rejection_codec,
}
use ouchservice.Ouch.Session.State.{Session, out_of_bounds, Callback, call}
use ouchservice.Ouch.Session.Dispatch.{
  deliver, dispatch_type, dispatch_ouch, dispatch_login_accepted, dispatch_login_rejected,
  dispatch_packet,
}
use ouchservice.Ouch.Session.Receive.{packet_size, claimed_len, dispatch_first}

-- A dispatch stays in bounds if the memory holds the length that is claimed.
deliver-in_bounds :
    {A : Type 0} (c : Codec A) (h : A → Callback) (payload : List ℕ) (n : ℕ) (s : Session)
    → n ≤ length payload
    → (deliver c h payload n s).0 ≢ out_of_bounds
unfolding deliver
deliver-in_bounds c h payload n s le = ground arith

dispatch_type-in_bounds :
    (t : ℕ) (payload : List ℕ) (n : ℕ) (s : Session)
    → n ≤ length payload
    → (dispatch_type t payload n s).0 ≢ out_of_bounds
unfolding dispatch_type
dispatch_type-in_bounds t payload n s le = ground (
  arith,
  deliver-in_bounds order_accepted_codec Callback.on_accepted payload n s,
  deliver-in_bounds order_rejected_codec Callback.on_rejected payload n s,
  deliver-in_bounds order_replaced_codec Callback.on_replaced payload n s,
  deliver-in_bounds order_canceled_codec Callback.on_canceled payload n s,
  deliver-in_bounds order_executed_codec Callback.on_executed payload n s,
  deliver-in_bounds mass_quote_ack_codec Callback.on_mass_quote_ack payload n s,
  deliver-in_bounds mass_quote_rejection_codec Callback.on_mass_quote_reject payload n s,
)

dispatch_ouch-in_bounds :
    (payload : List ℕ) (n : ℕ) (s : Session)
    → n ≤ length payload
    → (dispatch_ouch payload n s).0 ≢ out_of_bounds
unfolding dispatch_ouch
dispatch_ouch-in_bounds payload n s le =
    ground (arith, dispatch_type-in_bounds (get_or payload 0 0) payload n s le)

dispatch_packet-in_bounds :
    (t : ℕ) (payload : List ℕ) (n : ℕ) (s : Session)
    → n ≤ length payload
    → (dispatch_packet t payload n s).0 ≢ out_of_bounds
unfolding dispatch_packet dispatch_login_accepted dispatch_login_rejected
dispatch_packet-in_bounds t payload n s le = ground (
  arith,
  dispatch_ouch-in_bounds payload n (record s {
    msgs_recv = (s.msgs_recv + 1) % 2 ^ 64;
    next_inbound_seq = (s.next_inbound_seq + 1) % 2 ^ 64;
  }),
)

-- A packet that is whole in the buffer and whose header has a length of at least 1 is dispatched
-- without reading behind the end of the buffer.
pub dispatch_first-in_bounds :
    (buf : List ℕ) (s : Session)
    → 3 ≤ packet_size buf
    → packet_size buf ≤ length buf
    → packet_size buf < 2 ^ 64
    → (dispatch_first buf s).0 ≢ out_of_bounds
unfolding dispatch_first
dispatch_first-in_bounds buf s le size fits =
    dispatch_packet-in_bounds (header_codec.read buf).packet_type (drop 3 buf) (claimed_len buf)
      (call (Callback.on_audit_recv (take (packet_size buf) buf)) s)
      (omega (arith, length-drop 3 buf))

-- A login packet with a length of 0 passes the check for a short packet, and the session and
-- sequence fields are read behind the end of the buffer, whenever that holds less than 33 bytes.
pub dispatch_first-zero_length :
    (buf : List ℕ) (s : Session)
    → (header_codec.read buf).length ≡ 0
    → (header_codec.read buf).packet_type ≡ b'A'
    → length buf < 33
    → (dispatch_first buf s).0 ≡ out_of_bounds
unfolding dispatch_first dispatch_packet dispatch_login_accepted
dispatch_first-zero_length buf s len type short = ground (arith, length-drop 3 buf)
