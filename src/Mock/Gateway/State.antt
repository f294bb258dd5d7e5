-- ===== src/Mock/Gateway/State.antt =====
-- The fields of `OuchMockGateway` and its write side.
use ouchservice.Prelude.{ℕ, Bool, true, false, List, [], ◌∷◌, ◌++◌, codes, take, drop, length, min}
use ouchservice.Net.Soup.{header_codec, make_header, sequenced_data, server_heartbeat}
use ouchservice.Ouch.Session.State.{SendReply, takes, send_fails, first_or_zero, rest_of}

pub record RestingOrder : Type 0 where
  pub order_book_id : ℕ
  pub side : ℕ
  pub order_id : ℕ

-- The environment is part of the state, as in the session: the kernel's answers to `send`, the
-- readings of `wall_ns()`, and the bytes that the kernel has taken. `resting` and `quote_active` are
-- maps; the order in which the former is walked is that of the list.
pub record Gateway : Type 0 where
  pub sends : List SendReply
  pub clock : List ℕ
  pub wire : List ℕ
  pub is_connected : Bool
  pub order_id_seq : ℕ
  pub accepted_password : List ℕ
  pub arm_duplicate_reject : Bool
  pub seen_tokens : List (List ℕ)
  pub resting : List (List ℕ × RestingOrder)
  pub quote_active : List (List ℕ × Bool)

-- A new gateway, with a client connected.
unfoldable pub gateway : List SendReply → List ℕ → Gateway
gateway sends clock = record {
  sends = sends;
  clock = clock;
  wire = [];
  is_connected = true;
  order_id_seq = 1;
  accepted_password = codes "123456";
  arm_duplicate_reject = false;
  seen_tokens = [];
  resting = [];
  quote_active = [];
}

-- The loop of `write_all`: an answer of 0 is EAGAIN or EINTR, and it tries again.
unfoldable pub write_all_loop : List SendReply → List ℕ → Gateway → Gateway
write_all_loop replies [] g = record g { sends = replies }
write_all_loop [] (b ∷ bs) g = record g { sends = [] }
write_all_loop (send_fails ∷ replies) (b ∷ bs) g = record g { sends = replies }
write_all_loop (takes k ∷ replies) (b ∷ bs) g =
    let n = min k (length (b ∷ bs)) in
    write_all_loop replies (drop n (b ∷ bs)) (record g { wire = g.wire ++ take n (b ∷ bs) })

unfoldable pub write_all : List ℕ → Gateway → Gateway
unfolding write_all_loop
write_all buf g = write_all_loop g.sends buf g

unfoldable pub send_sequenced : List ℕ → Gateway → Gateway
unfolding write_all
send_sequenced msg g =
    write_all msg (write_all (header_codec.write (make_header sequenced_data (length msg))) g)

unfoldable pub send_heartbeat : Gateway → Gateway
unfolding write_all
send_heartbeat g = write_all (header_codec.write (make_header server_heartbeat 0)) g

-- `wall_ns()`: the reading, and the state without it.
abbrev pub wall_ns : Gateway → ℕ
wall_ns g = first_or_zero g.clock

abbrev pub clock_read : Gateway → Gateway
clock_read g = record g { clock = rest_of g.clock }
