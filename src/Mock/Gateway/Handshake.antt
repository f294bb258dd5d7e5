-- ===== src/Mock/Gateway/Handshake.antt =====
-- A login of the client at the gateway, both ways.
use ouchservice.Prelude.{
  ℕ, ◌≤◌, ◌≡◌, refl, ap, ◌∙◌, List, [], ◌++◌, arith, if◌then◌else◌, codes, take, drop, length,
  drop-append, take-append, length-append, bytes_eq, false,
}
use ouchservice.Prelude.Decimal.{strtoull, read_digits, skip_spaces}
use ouchservice.Core.Endian.{be_set, be_get, be_get_from}
use ouchservice.Core.Alpha.{alpha_set, alpha_get}
use ouchservice.Core.Alpha.Trim.{trim_right, alpha_get-alpha_set, length-alpha_set}
use ouchservice.Net.Soup.{header_codec, login_request_codec, login_accepted_codec, make_header}
use ouchservice.Ouch.Session.State.{Session, SessionState, returns, set_state}
use ouchservice.Ouch.Session.Send.{login_packet}
use ouchservice.Ouch.Session.Dispatch.{dispatch_packet, dispatch_login_accepted}
use ouchservice.Ouch.Session.Receive.{parse_pending, parse_loop, dispatch_first}
use ouchservice.Mock.Gateway.State.{Gateway}
use ouchservice.Mock.Gateway.Login.{
  handle_login, accepted_packet, send_login_accepted, send_login_rejected,
}

-- The payload of the client's login request.
abbrev pub login_payload : Session → List ℕ
login_payload s = drop 3 (login_request_codec.write (login_packet s))

-- The bytes behind the user name and the password.
abbrev behind_password : Session → List ℕ
behind_password s = (login_packet s).requested_session ++ (login_packet s).requested_sequence_number

login_payload-fields :
    (s : Session)
    → login_payload s
      ≡ alpha_set 6 s.login.username ++ (alpha_set 10 s.login.password ++ behind_password s)
unfolding login_request_codec login_packet header_codec be_set
login_payload-fields s = refl

-- The gateway accepts a login exactly if its password, cut to ten bytes and without the spaces at its
-- end, is the one that the gateway was given, unless it was told to refuse the next login; that it
-- does once.
pub handle_login-login_payload :
    (s : Session) (g : Gateway)
    → handle_login (login_payload s) g ≡ (
        if g.arm_duplicate_reject
        then send_login_rejected b'S' (record g { arm_duplicate_reject = false })
        else if bytes_eq (trim_right (take 10 s.login.password)) g.accepted_password
        then send_login_accepted g
        else send_login_rejected b'A' g)
unfolding handle_login
handle_login-login_payload s g = rw (login_payload-fields s) (ground (arith, long, password))
  where
    user : List ℕ
    user = alpha_set 6 s.login.username

    pass : List ℕ
    pass = alpha_set 10 s.login.password

    rest : List ℕ
    rest = behind_password s

    long : 16 ≤ length (user ++ (pass ++ rest))
    long = omega (
      arith,
      length-append user (pass ++ rest),
      length-append pass rest,
      length-alpha_set 6 s.login.username,
      length-alpha_set 10 s.login.password,
    )

    password :
        alpha_get 10 (take 10 (drop 6 (user ++ (pass ++ rest))))
        ≡ trim_right (take 10 s.login.password)
    password =
        ap (λ t. alpha_get 10 (take 10 t))
          (drop-append 6 user (pass ++ rest) (length-alpha_set 6 s.login.username))
        ∙ ap (alpha_get 10) (take-append 10 pass rest (length-alpha_set 10 s.login.password))
        ∙ alpha_get-alpha_set 10 s.login.password

-- The gateway's answer makes the session active, from the first message on.
pub parse_pending-accepted_packet :
    (s : Session)
    → let (o, s') =
        parse_pending (record s { in_buffer = login_accepted_codec.write accepted_packet }) in
      (o ≡ returns)
      × (s'.state ≡ SessionState.active)
      × (s'.assigned_session ≡ codes "MOCKSESS01")
      × (s'.next_inbound_seq ≡ 1)
      × (s'.in_buffer ≡ [])
unfolding parse_pending parse_loop dispatch_first dispatch_packet dispatch_login_accepted set_state
    strtoull read_digits skip_spaces login_accepted_codec header_codec accepted_packet make_header
    be_set be_get be_get_from
parse_pending-accepted_packet s = (refl, refl, refl, refl, refl)
