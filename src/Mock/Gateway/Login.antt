-- ===== src/Mock/Gateway/Login.antt =====
-- The login handshake of the gateway.
use ouchservice.Prelude.{
  ℕ, ◌+◌, true, false, List, [], ◌∷◌, ◌++◌, if◌then◌else◌, ltb, codes, take, drop, length,
  replicate, bytes_eq,
}
use ouchservice.Core.Alpha.{alpha_get}
use ouchservice.Net.Soup.{
  LoginAccepted, login_accepted_codec, login_rejected_codec, make_header, login_accepted,
  login_rejected, username_len, password_len, session_len, sequence_len,
}
use ouchservice.Mock.Gateway.State.{Gateway, write_all}

unfoldable pub accepted_packet : LoginAccepted
accepted_packet = record {
  header = make_header login_accepted (session_len + sequence_len);
  session = codes "MOCKSESS01";
  sequence_number = replicate 19 b'0' ++ (b'1' ∷ []);
}

unfoldable pub send_login_accepted : Gateway → Gateway
send_login_accepted g = write_all (login_accepted_codec.write accepted_packet) g

unfoldable pub send_login_rejected : ℕ → Gateway → Gateway
send_login_rejected reason g =
    write_all
      (login_rejected_codec.write
        (record { header = make_header login_rejected 1; reject_reason_code = reason }))
      g

unfoldable pub handle_login : List ℕ → Gateway → Gateway
unfolding send_login_accepted send_login_rejected
handle_login payload g =
    if ltb (length payload) (username_len + password_len)
    then send_login_rejected b'A' g
    else if g.arm_duplicate_reject
    then send_login_rejected b'S' (record g { arm_duplicate_reject = false })
    else if bytes_eq (alpha_get password_len (take password_len (drop username_len payload)))
        g.accepted_password
    then send_login_accepted g
    else send_login_rejected b'A' g

unfoldable pub set_accepted_password : List ℕ → Gateway → Gateway
set_accepted_password pw g = record g { accepted_password = pw }

unfoldable pub arm_duplicate_login_reject : Gateway → Gateway
arm_duplicate_login_reject g = record g { arm_duplicate_reject = true }
