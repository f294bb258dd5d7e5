-- ===== src/Tests/Exchange.antt =====
-- A client at the mock gateway: a login, an order, the same token again, and the end of the day.
use ouchservice.Prelude.{
  ℕ, ◌+◌, ◌*◌, ◌≡◌, refl, true, false, List, [], ◌∷◌, ◌++◌, arith, codes, replicate, length, take,
  bytes_eq, bytes_eq_instance, if◌then◌else◌, leb,
}
use ouchservice.Prelude.Int.{pos}
use ouchservice.Core.Alpha.Trim.{trim_right}
use ouchservice.Ouch.Messages.Inbound.{
  EnterOrder, CancelOrder, cancel_order_codec, mass_quote_header_codec,
}
use ouchservice.Ouch.Session.State.{Session, returns, out_of_bounds, takes}
use ouchservice.Mock.Gateway.State.{Gateway, gateway}
use ouchservice.Mock.Gateway.Login.{handle_login, send_login_accepted, send_login_rejected}
use ouchservice.Mock.Gateway.Orders.{enter_order, reject, token_not_unique}
use ouchservice.Mock.Gateway.Quotes.{mass_quote}
use ouchservice.Mock.Gateway.Handle.{handle_unsequenced_payload}
use ouchservice.Mock.Gateway.Handshake.{login_payload, handle_login-login_payload}
use ouchservice.Mock.Gateway.Replies.{
  Message, message_bytes, apply, handle_unsequenced_payload-message_bytes,
}
use ouchservice.Mock.Gateway.Tokens.{enter_order-enter_order}
use ouchservice.Mock.Gateway.Entries.{mass_quote-outcome}
use ouchservice.Tests.Sending.Data.{session_with}

abbrev client : Session
client = session_with []

abbrev exchange : Gateway
exchange = record {
  sends = takes 1000 ∷ takes 1000 ∷ [];
  clock = 1 ∷ 2 ∷ [];
  wire = [];
  is_connected = true;
  order_id_seq = 1;
  accepted_password = codes "123456";
  arm_duplicate_reject = false;
  seen_tokens = [];
  resting = [];
  quote_active = [];
}

gateway-exchange : gateway (takes 1000 ∷ takes 1000 ∷ []) (1 ∷ 2 ∷ []) ≡ exchange
unfolding gateway
gateway-exchange = refl

handle_login-login_payload_example : handle_login (login_payload client) exchange ≡ (
    if exchange.arm_duplicate_reject
    then send_login_rejected b'S' (record exchange { arm_duplicate_reject = false })
    else if bytes_eq (trim_right (take 10 client.login.password)) exchange.accepted_password
    then send_login_accepted exchange
    else send_login_rejected b'A' exchange)
handle_login-login_payload_example = handle_login-login_payload client exchange

abbrev cancel : CancelOrder
cancel = record { message_type = b'X'; order_token = codes "00000000000030" }

handle_unsequenced_payload-message_bytes_example :
    handle_unsequenced_payload (message_bytes (Message.cancel cancel)) exchange
    ≡ (returns, apply (Message.cancel cancel) exchange)
handle_unsequenced_payload-message_bytes_example =
    handle_unsequenced_payload-message_bytes (Message.cancel cancel) exchange
      (refl, unfold cancel_order_codec in (omega arith, refl))

abbrev order : EnterOrder
order = record {
  message_type = b'O';
  order_token = codes "00000000000030";
  order_book_id = 70616;
  side = b'B';
  quantity = 100;
  price = pos 6000;
  time_in_force = 0;
  open_close = 0;
  client_account = replicate 16 b' ';
  customer_info = replicate 15 b' ';
  exchange_info = replicate 32 b' ';
  display_quantity = 0;
  client_category = 1;
  off_hours = 0;
  smp_level = 0;
  smp_method = 0;
  smp_id = replicate 3 0;
  reserved = replicate 2 0;
}

-- The second order asks too much.
abbrev dear_order : EnterOrder
dear_order = record order { price = pos 10_000 }

enter_order-enter_order_example :
    enter_order order (enter_order dear_order exchange)
    ≡ reject token_not_unique order (enter_order dear_order exchange)
enter_order-enter_order_example = enter_order-enter_order dear_order order exchange refl

abbrev evening : Gateway
evening = record exchange {
  resting =
      (codes "00000000000030", record { order_book_id = 70616; side = b'B'; order_id = 1 }) ∷ [];
}

-- A mass quote that announces three entries and has one.
abbrev short_quote : List ℕ
short_quote = b'Q' ∷ replicate 48 b' ' ++ (3 ∷ replicate 28 0)

mass_quote-outcome_example :
    let n = (mass_quote_header_codec.read short_quote).no_quote_entries in
    (mass_quote short_quote exchange).0
    ≡ (if leb (50 + 28 * n) (length short_quote) then returns else out_of_bounds)
mass_quote-outcome_example = mass_quote-outcome short_quote exchange (omega arith)
