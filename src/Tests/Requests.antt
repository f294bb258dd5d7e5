-- ===== src/Tests/Requests.antt =====
-- Requests of a client with the explicit token 30.
use ouchservice.Prelude.{◌≡◌, refl, [], ◌∷◌, ◌++◌, codes, bytes_eq_instance, contains, true}
use ouchservice.Prelude.Int.{pos}
use ouchservice.Core.Types.{Side, TimeInForce, OpenClose, ClientCategory, ok}
use ouchservice.Core.Alpha.{order_token}
use ouchservice.Domain.Throttler.{
  throttler, try_acquire, acquire_at, rotate, bump, used_loop, used_in_rolling_second,
}
use ouchservice.Domain.TokenRegistry.{TokenRegistry, registry, register_external}
use ouchservice.Ouch.Messages.Inbound.{enter_order_codec}
use ouchservice.Ouch.Session.State.{takes}
use ouchservice.Core.Endian.{be_set}
use ouchservice.Net.Soup.{header_codec}
use ouchservice.Ouch.Session.Send.{
  send_enter_order, send_unsequenced, is_active, write_bytes, write_loop, written,
}
use ouchservice.Ouch.Session.Send.Frame.{header_bytes}
use ouchservice.Ouch.Codec.{token_set}
use ouchservice.Ouch.Client.{Client, PlaceArgs, choose_token, enter_order, place, place_with}
use ouchservice.Ouch.Client.Refuse.{Request, handle, IsGuarded, handle-IsGuarded}
use ouchservice.Ouch.Client.Place.{place-frame}
use ouchservice.Tests.Sending.Data.{session_with}

abbrev args : PlaceArgs
args = record {
  symbol = codes "ACSEL";
  order_book_id = 70616;
  side = Side.buy;
  quantity = pos 100;
  price = pos 6000;
  tif = TimeInForce.day;
  open_close = OpenClose.default_for_account;
  category = ClientCategory.client;
  display_quantity = pos 0;
  client_account = codes "ACC";
  customer_info = [];
  exchange_info = [];
  explicit_token = codes "30";
  off_hours = 0;
}

abbrev client : Client
client = record {
  session = session_with (takes 1000 ∷ takes 1000 ∷ []);
  tokens = registry (codes "C-");
  throttler = throttler 2 2;
  book = [];
}

abbrev tokens_after : TokenRegistry
tokens_after = (register_external (codes "30") (registry (codes "C-"))).1

granted : (try_acquire 0 5 client.throttler).0 ≡ true
unfolding try_acquire acquire_at throttler rotate bump used_loop used_in_rolling_second
granted = refl

chosen :
    choose_token "token already used: " args.explicit_token client.tokens
    ≡ (ok (order_token (codes "30")), tokens_after)
unfolding choose_token register_external registry contains
chosen = refl

placed :
    ((place 5 args client).0 ≡ ok (order_token (codes "30")))
    × ((place 5 args client).1.session.out_pending ≡ [])
unfolding place try_acquire acquire_at throttler rotate bump used_loop used_in_rolling_second
    choose_token register_external registry contains place_with send_enter_order send_unsequenced
    is_active write_bytes write_loop written header_codec enter_order_codec be_set enter_order
    token_set order_token
placed = (refl, refl)

place-frame_example :
    let payload = enter_order_codec.write (enter_order args (order_token (codes "30"))) in
    (place 5 args client).1.session.wire ≡ client.session.wire ++ (header_bytes payload ++ payload)
place-frame_example =
    place-frame 5 args client (order_token (codes "30")) tokens_after granted chosen refl refl
      placed.0 placed.1

handle-IsGuarded_example : IsGuarded 5 client (handle 5 (Request.enter args) client)
handle-IsGuarded_example = handle-IsGuarded 5 (Request.enter args) client
