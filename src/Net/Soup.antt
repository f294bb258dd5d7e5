-- ===== src/Net/Soup.antt =====
-- include/bist/net/soupbintcp.hpp: packet types, headers and the handshake structs. The packets
-- with no payload (logout, heartbeats, end of session) are a `Header` alone.
use ouchservice.Prelude.{ℕ, ◌+◌, ◌%◌, ◌^◌, List, ◌≡◌, refl}
use ouchservice.Core.Codec.{Codec, byte, chars, unsigned, ◌⊗◌, via}

-- namespace pkt
abbrev pub client_heartbeat : ℕ
client_heartbeat = b'R'

abbrev pub server_heartbeat : ℕ
server_heartbeat = b'H'

abbrev pub login_request : ℕ
login_request = b'L'

abbrev pub login_accepted : ℕ
login_accepted = b'A'

abbrev pub login_rejected : ℕ
login_rejected = b'J'

abbrev pub sequenced_data : ℕ
sequenced_data = b'S'

abbrev pub unsequenced_data : ℕ
unsequenced_data = b'U'

abbrev pub logout_request : ℕ
logout_request = b'O'

abbrev pub end_of_session : ℕ
end_of_session = b'Z'

abbrev pub debug : ℕ
debug = b'+'

abbrev pub username_len : ℕ
username_len = 6

abbrev pub password_len : ℕ
password_len = 10

abbrev pub session_len : ℕ
session_len = 10

abbrev pub sequence_len : ℕ
sequence_len = 20

abbrev pub heartbeat_send_ns : ℕ
heartbeat_send_ns = 800000000

abbrev pub heartbeat_timeout_ns : ℕ
heartbeat_timeout_ns = 2500000000

-- The common header; `length` counts the type byte and the payload.
pub record Header : Type 0 where
  pub length : ℕ
  pub packet_type : ℕ

unfoldable pub header_codec : Codec Header
header_codec =
    via (unsigned 2 ⊗ byte) (λ m. (m.length, m.packet_type))
      (λ p. record { length = p.0; packet_type = p.1 }) (λ m. refl)

pub size-header_codec : header_codec.size ≡ 3
unfolding header_codec
size-header_codec = refl

-- Login Request (C -> S)
pub record LoginRequest : Type 0 where
  pub header : Header
  pub username : List ℕ
  pub password : List ℕ
  pub requested_session : List ℕ
  pub requested_sequence_number : List ℕ

unfoldable pub login_request_codec : Codec LoginRequest
login_request_codec =
    via (header_codec ⊗ chars 6 ⊗ chars 10 ⊗ chars 10 ⊗ chars 20)
      (λ m.
        (m.header, (m.username, (m.password, (m.requested_session, m.requested_sequence_number)))))
      (λ p. record {
        header = p.0;
        username = p.1.0;
        password = p.1.1.0;
        requested_session = p.1.1.1.0;
        requested_sequence_number = p.1.1.1.1;
      })
      (λ m. refl)

pub size-login_request_codec : login_request_codec.size ≡ 49
unfolding login_request_codec header_codec
size-login_request_codec = refl

-- Login Accepted (S -> C)
pub record LoginAccepted : Type 0 where
  pub header : Header
  pub session : List ℕ
  pub sequence_number : List ℕ

unfoldable pub login_accepted_codec : Codec LoginAccepted
login_accepted_codec =
    via (header_codec ⊗ chars 10 ⊗ chars 20) (λ m. (m.header, (m.session, m.sequence_number)))
      (λ p. record { header = p.0; session = p.1.0; sequence_number = p.1.1 }) (λ m. refl)

pub size-login_accepted_codec : login_accepted_codec.size ≡ 33
unfolding login_accepted_codec header_codec
size-login_accepted_codec = refl

-- Login Rejected (S -> C)
pub record LoginRejected : Type 0 where
  pub header : Header
  pub reject_reason_code : ℕ

unfoldable pub login_rejected_codec : Codec LoginRejected
login_rejected_codec =
    via (header_codec ⊗ byte) (λ m. (m.header, m.reject_reason_code))
      (λ p. record { header = p.0; reject_reason_code = p.1 }) (λ m. refl)

pub size-login_rejected_codec : login_rejected_codec.size ≡ 4
unfolding login_rejected_codec header_codec
size-login_rejected_codec = refl

-- `inner_len` is converted to uint16_t at the call, and so is the sum.
unfoldable pub make_header : ℕ → ℕ → Header
make_header packet_type inner_len = record {
  length = (inner_len % 2 ^ 16 + 1) % 2 ^ 16;
  packet_type = packet_type;
}

unfoldable pub total_packet_size : Header → ℕ
total_packet_size h = (h.length + 2) % 2 ^ 16
