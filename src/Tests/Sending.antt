-- ===== src/Tests/Sending.antt =====
-- Messages on a socket that takes them, and on one that refuses the first write.
pub mod Data
use ouchservice.Prelude.{
  ℕ, ◌≡◌, ◌≢◌, refl, List, [], ◌∷◌, ◌++◌, arith, codes, ◌/◌, ◌<◌, length, take,
}
use ouchservice.Prelude.Decimal.{strtoull}
use ouchservice.Ouch.Session.State.{Session, SendReply, takes, returns}
use ouchservice.Ouch.Session.Send.{
  write_bytes, write_loop, written, stashed, send_unsequenced, is_active, sequence_field,
}
use ouchservice.Ouch.Session.Send.Stream.{stream, write_bytes-stream}
use ouchservice.Ouch.Session.Send.Frame.{
  header_bytes, send_unsequenced-frame, send_unsequenced-reorders,
}
use ouchservice.Ouch.Session.Send.Login.{strtoull-sequence_field}
use ouchservice.Core.Endian.{be_set}
use ouchservice.Net.Soup.{header_codec, make_header}
use ouchservice.Ouch.Session.Timers.{flush_pending, tick_timers}
use ouchservice.Ouch.Session.Timers.Flush.{flush_pending-stream}
use ouchservice.Ouch.Session.Timers.Watchdog.{tick_timers-late}
use Data.{session_with}

abbrev payload : List ℕ
payload = codes "XAB"

-- The socket takes one byte, then blocks.
abbrev slow : Session
slow = session_with (takes 1 ∷ takes 0 ∷ [])

write_bytes-stream_example : stream (write_bytes payload slow).1 ≡ slow.wire ++ payload
write_bytes-stream_example =
    write_bytes-stream payload slow refl (unfold write_bytes write_loop stashed in refl)

abbrev fast : Session
fast = session_with (takes 100 ∷ takes 100 ∷ [])

send_unsequenced-frame_example :
    (send_unsequenced payload fast).1.wire ≡ fast.wire ++ (header_bytes payload ++ payload)
send_unsequenced-frame_example =
    send_unsequenced-frame payload fast refl refl
      (unfold send_unsequenced is_active write_bytes write_loop written header_codec be_set in refl)
      (unfold send_unsequenced is_active write_bytes write_loop written header_codec be_set in refl)

abbrev blocked : Session
blocked = session_with (takes 0 ∷ takes 100 ∷ [])

send_unsequenced-reorders_example :
    ((send_unsequenced payload blocked).0 ≡ returns)
    × ((send_unsequenced payload blocked).1.wire ≡ blocked.wire ++ payload)
    × ((send_unsequenced payload blocked).1.out_pending
        ≡ blocked.out_pending ++ header_bytes payload)
send_unsequenced-reorders_example =
    send_unsequenced-reorders payload 100 [] blocked refl refl refl (omega arith) (omega arith)

strtoull-sequence_field_example : strtoull (sequence_field 1234) ≡ 1234 / 10
strtoull-sequence_field_example = strtoull-sequence_field 1234 (omega arith)

-- Kept bytes, and a socket that takes two of them.
abbrev behind : Session
behind = record (session_with (takes 2 ∷ [])) { out_pending = payload }

-- The peer was heard three seconds ago.
abbrev quiet : Session
quiet = record (session_with (takes 100 ∷ [])) {
  last_recv_ns = 1;
  clock = 3_000_000_001 ∷ 3_000_000_002 ∷ [];
}

tick_timers-late_example : (tick_timers quiet).0 ≢ returns
tick_timers-late_example =
    tick_timers-late quiet refl (omega arith) (omega arith) (omega arith) (omega arith)
