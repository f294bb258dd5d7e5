-- ===== src/Tests/Sending/Data.antt =====
-- An active session.
use ouchservice.Prelude.{List, [], true, codes}
use ouchservice.Ouch.Session.State.{Session, SessionState, SendReply}

abbrev pub session_with : List SendReply → Session
session_with replies = record {
  is_open = true;
  sends = replies;
  recvs = [];
  clock = [];
  wire = codes "#";
  login = record {
    username = codes "OUCH01";
    password = codes "123456";
    requested_session = [];
    requested_sequence = 0;
  };
  heartbeat_send_ns = 800_000_000;
  heartbeat_timeout_ns = 2_500_000_000;
  state = SessionState.active;
  in_buffer = [];
  out_pending = [];
  last_send_ns = 0;
  last_recv_ns = 0;
  assigned_session = [];
  next_inbound_seq = 1;
  last_login_reject_reason = 0;
  msgs_sent = 0;
  msgs_recv = 0;
  callbacks = [];
}
