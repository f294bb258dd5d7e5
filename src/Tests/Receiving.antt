-- ===== src/Tests/Receiving.antt =====
-- A stream in two pieces, a message from the host, and a login packet with a length of 0.
use ouchservice.Prelude.{ℕ, ◌≡◌, ◌≢◌, refl, List, [], ◌∷◌, ◌++◌, arith, codes, length}
use ouchservice.Prelude.Int.{negsuc}
use ouchservice.Core.Endian.{be_get, be_get_from}
use ouchservice.Net.Soup.{header_codec}
use ouchservice.Ouch.Messages.Outbound.{OrderRejected, order_rejected_codec}
use ouchservice.Ouch.Session.State.{Session, returns, out_of_bounds, call}
use ouchservice.Ouch.Session.Dispatch.{dispatch_ouch, dispatch_packet}
use ouchservice.Ouch.Session.Receive.{parse_pending, parse_loop, dispatch_first}
use ouchservice.Ouch.Session.Receive.Framing.{parse_pending-append}
use ouchservice.Ouch.Session.Receive.Drained.{IsParsed, parse_pending-IsParsed}
use ouchservice.Ouch.Session.Receive.Bounds.{dispatch_first-in_bounds}
use ouchservice.Ouch.Session.Receive.Deliver.{
  rejected, reply_bytes, callback_of, dispatch_ouch-reply_bytes,
}
use ouchservice.Tests.Sending.Data.{session_with}

-- A heartbeat, and the first byte of the next one.
abbrev first_piece : Session
first_piece = record (session_with []) { in_buffer = 0 ∷ 1 ∷ b'H' ∷ 0 ∷ [] }

abbrev second_piece : List ℕ
second_piece = 1 ∷ b'H' ∷ []

parse_pending-append_example :
    parse_pending (record first_piece { in_buffer = first_piece.in_buffer ++ second_piece })
    ≡ parse_pending (record ((parse_pending first_piece).1) {
      in_buffer = (parse_pending first_piece).1.in_buffer ++ second_piece;
    })
parse_pending-append_example =
    parse_pending-append first_piece (parse_pending first_piece).1 second_piece (
      unfold parse_pending parse_loop dispatch_first dispatch_packet header_codec be_get
        be_get_from in
      refl)

parse_pending-IsParsed_example : IsParsed first_piece
parse_pending-IsParsed_example = parse_pending-IsParsed first_piece (
    unfold parse_pending parse_loop dispatch_first dispatch_packet header_codec be_get
      be_get_from in
    refl)

abbrev rejection : OrderRejected
rejection = record {
  message_type = b'J';
  timestamp_ns = 1;
  order_token = codes "00000000000030";
  reject_code = negsuc 800_001;
}

dispatch_ouch-reply_bytes_example :
    dispatch_ouch
      (reply_bytes (rejected rejection))
      (length (reply_bytes (rejected rejection)))
      (session_with [])
    ≡ (returns, call (callback_of (rejected rejection)) (session_with []))
dispatch_ouch-reply_bytes_example =
    dispatch_ouch-reply_bytes (rejected rejection) (session_with [])
      (refl, unfold order_rejected_codec in (omega arith, (omega arith, (refl, omega arith))))

abbrev heartbeat : List ℕ
heartbeat = 0 ∷ 1 ∷ b'H' ∷ []

dispatch_first-in_bounds_example : (dispatch_first heartbeat (session_with [])).0 ≢ out_of_bounds
unfolding header_codec be_get be_get_from
dispatch_first-in_bounds_example =
    dispatch_first-in_bounds heartbeat (session_with []) (omega arith) (omega arith) (omega arith)

abbrev empty_login : List ℕ
empty_login = 0 ∷ 0 ∷ b'A' ∷ []
