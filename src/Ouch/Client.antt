-- ===== src/Ouch/Client.antt =====
-- include/bist/ouch/client.hpp: the trading API over a session, a token registry, a throttler and
-- an order book. `now` is what the throttler reads from the clock.
pub mod Place
pub mod Refuse
use ouchservice.Prelude.{
  ℕ, ◌%◌, ◌^◌, Bool, true, false, List, [], ◌∷◌, ◌++◌, if◌then◌else◌, ◌==◌, ltb, ◌||◌, length,
  String, replicate, map,
}
use ouchservice.Prelude.Int.{ℤ, pos, to_u64}
use ouchservice.Core.Types.{
  Side, TimeInForce, OpenClose, ClientCategory, to_wire, time_in_force_byte, open_close_byte,
  client_category_byte, is_valid_open_close_for_replace, Error, ErrorCategory, make_error, Result,
  ok, err,
}
use ouchservice.Core.Alpha.{OrderToken, order_token, view, alpha_set}
use ouchservice.Core.Codec.{Codec}
use ouchservice.Domain.OrderBook.{OrderBook, OrderState, OrderStatus, enter, find_mut}
use ouchservice.Domain.Throttler.{Throttler, try_acquire}
use ouchservice.Domain.TokenRegistry.{TokenRegistry, allocate, register_external}
use ouchservice.Ouch.Codec.{token_set}
use ouchservice.Ouch.Messages.Inbound.{
  EnterOrder, ReplaceOrder, CancelOrder, CancelByOrderId, MassQuoteHeader, QuoteEntry,
  mass_quote_header_codec, quote_entry_codec,
}
use ouchservice.Ouch.Session.State.{Session, Outcome, returns, fails, out_of_bounds}
use ouchservice.Ouch.Session.Send.{
  send_enter_order, send_replace_order, send_cancel, send_cancel_by_id, send_mass_quote,
}

pub record PlaceArgs : Type 0 where
  pub symbol : List ℕ
  pub order_book_id : ℕ
  pub side : Side
  pub quantity : ℤ
  pub price : ℤ
  pub tif : TimeInForce
  pub open_close : OpenClose
  pub category : ClientCategory
  pub display_quantity : ℤ
  pub client_account : List ℕ
  pub customer_info : List ℕ
  pub exchange_info : List ℕ
  pub explicit_token : List ℕ
  pub off_hours : ℕ

pub record ReplaceArgs : Type 0 where
  pub existing_token : List ℕ
  pub new_token : List ℕ
  pub new_total_quantity : ℤ
  pub new_price : ℤ
  pub open_close : OpenClose
  pub category : ClientCategory
  pub display_quantity : ℤ
  pub client_account : List ℕ
  pub customer_info : List ℕ
  pub exchange_info : List ℕ

pub record QuoteEntryArgs : Type 0 where
  pub order_book_id : ℕ
  pub bid_price : ℤ
  pub bid_size : ℤ
  pub offer_price : ℤ
  pub offer_size : ℤ

pub record MassQuoteArgs : Type 0 where
  pub token : List ℕ
  pub category : ClientCategory
  pub client_account : List ℕ
  pub exchange_info : List ℕ
  pub entries : List QuoteEntryArgs

pub record Client : Type 0 where
  pub session : Session
  pub tokens : TokenRegistry
  pub throttler : Throttler
  pub book : OrderBook

abbrev pub is_empty : List ℕ → Bool
is_empty [] = true
is_empty (b ∷ bs) = false

-- The result of a send; the write side has no read that could leave the input buffer.
abbrev pub sent {ℓ} : {A : Type ℓ} → A → Outcome → Result A
sent a returns = ok a
sent a (fails e) = err e
sent a out_of_bounds = err (make_error ErrorCategory.io "")

-- A client whose throttler and whose tokens have moved on.
abbrev pub with_throttler : Throttler → Client → Client
with_throttler t c = record c { throttler = t }

abbrev pub with_tokens : TokenRegistry → Client → Client
with_tokens r c = record c { tokens = r }

-- The token of a request: the explicit one if it is given and not taken, or the next one.
-- `detail` is how the caller's error names that token.
unfoldable pub choose_token : String → List ℕ → TokenRegistry → Result OrderToken × TokenRegistry
choose_token detail explicit r =
    if is_empty explicit
    then (let (tok, r') = allocate r in (ok tok, r'))
    else (let (fresh, r') = register_external explicit r in
        if fresh then (ok (order_token explicit), r') else (
          err (record {
            category = ErrorCategory.validation;
            detail = detail;
            appended = explicit;
          }),
          r',
        ))

unfoldable pub enter_order : PlaceArgs → OrderToken → EnterOrder
enter_order args tok = record {
  message_type = b'O';
  order_token = token_set tok;
  order_book_id = args.order_book_id;
  side = to_wire args.side;
  quantity = to_u64 args.quantity;
  price = args.price;
  time_in_force = time_in_force_byte args.tif;
  open_close = open_close_byte args.open_close;
  client_account = alpha_set 16 args.client_account;
  customer_info = alpha_set 15 args.customer_info;
  exchange_info = alpha_set 32 args.exchange_info;
  display_quantity = to_u64 args.display_quantity;
  client_category = client_category_byte args.category;
  off_hours = args.off_hours;
  smp_level = 0;
  smp_method = 0;
  smp_id = replicate 3 0;
  reserved = replicate 2 0;
}

unfoldable pub pending_order : PlaceArgs → OrderState
pending_order args = record {
  symbol = args.symbol;
  side = args.side;
  original_qty = args.quantity;
  leaves = pos 0;
  executed = pos 0;
  price = args.price;
  tif = args.tif;
  order_id = 0;
  status = OrderStatus.pending;
}

-- The rest of `place` once the token is known.
unfoldable pub place_with : PlaceArgs → OrderToken → Client → Result OrderToken × Client
place_with args tok c =
    let book = enter (view tok) (pending_order args) c.book in
    let (o, s) = send_enter_order (enter_order args tok) c.session in
    (sent tok o, record c { session = s; book = book })

abbrev pub on_token :
    Result OrderToken × TokenRegistry
    → Client
    → (OrderToken → Client → Result OrderToken × Client)
    → Result OrderToken × Client
on_token (ok tok, r) c next = next tok (with_tokens r c)
on_token (err e, r) c next = (err e, with_tokens r c)

abbrev pub throttled : Error
throttled = make_error ErrorCategory.throttled "throttler empty"

-- `if (!throttler_.try_acquire()) return error`, then the rest.
abbrev pub when_acquired {ℓ} :
    {A : Type ℓ}
    → Bool × Throttler
    → Client
    → Error
    → (Client → Result A × Client)
    → Result A × Client
when_acquired (true, t) c e next = next (with_throttler t c)
when_acquired (false, t) c e next = (err e, with_throttler t c)

unfoldable pub place : ℕ → PlaceArgs → Client → Result OrderToken × Client
place now args c =
    when_acquired (try_acquire 0 now c.throttler) c
      (make_error ErrorCategory.throttled "throttler bucket empty (>= rate)")
      λ c'.
        on_token (choose_token "token already used: " args.explicit_token c'.tokens) c'
          (place_with args)

unfoldable pub replace_order : ReplaceArgs → OrderToken → ReplaceOrder
replace_order args next = record {
  message_type = b'U';
  existing_order_token = token_set (order_token args.existing_token);
  replacement_order_token = token_set next;
  quantity = to_u64 args.new_total_quantity;
  price = args.new_price;
  open_close = open_close_byte args.open_close;
  client_account = alpha_set 16 args.client_account;
  customer_info = alpha_set 15 args.customer_info;
  exchange_info = alpha_set 32 args.exchange_info;
  display_quantity = to_u64 args.display_quantity;
  client_category = client_category_byte args.category;
  reserved = replicate 8 0;
}

abbrev pub with_status : OrderStatus → OrderState → OrderState
with_status st s = record s { status = st }

unfoldable pub replace_with : ReplaceArgs → OrderToken → Client → Result OrderToken × Client
replace_with args next c =
    let book = find_mut args.existing_token (with_status OrderStatus.replacing) c.book in
    let (o, s) = send_replace_order (replace_order args next) c.session in
    (sent next o, record c { session = s; book = book })

unfoldable pub replace : ℕ → ReplaceArgs → Client → Result OrderToken × Client
replace now args c =
    if is_valid_open_close_for_replace (open_close_byte args.open_close)
    then when_acquired (try_acquire 0 now c.throttler) c throttled (λ c'.
      if is_empty args.existing_token
      then (err (make_error ErrorCategory.validation "existing_token required"), c')
      else on_token (choose_token "new_token already used: " args.new_token c'.tokens) c'
          (replace_with args))
    else (
      err (
          make_error ErrorCategory.validation
            "OpenClose value illegal in Replace per Spec 4.1.2.2 (allowed: ReplaceKeep=0, ReplaceDefault=4)"),
      c,
    )

unfoldable pub cancel_by_token : ℕ → List ℕ → Client → Result (Unit {0}) × Client
cancel_by_token now token c = when_acquired (try_acquire 0 now c.throttler) c throttled λ c'.
    let book = find_mut token (with_status OrderStatus.canceling) c'.book in
    let (o, s) =
      send_cancel (record { message_type = b'X'; order_token = token_set (order_token token) })
        c'.session in
    (sent tt o, record c' { session = s; book = book })

unfoldable pub cancel_by_order_id : ℕ → ℕ → Side → ℕ → Client → Result (Unit {0}) × Client
cancel_by_order_id now book side id c =
    when_acquired (try_acquire 0 now c.throttler) c throttled λ c'.
      let (o, s) =
        send_cancel_by_id
          (record { message_type = b'Y'; order_book_id = book; side = to_wire side; order_id = id })
          c'.session in
      (sent tt o, record c' { session = s })

unfoldable pub quote_entry : QuoteEntryArgs → QuoteEntry
quote_entry a = record {
  order_book_id = a.order_book_id;
  bid_price = a.bid_price;
  offer_price = a.offer_price;
  bid_size = to_u64 a.bid_size;
  offer_size = to_u64 a.offer_size;
}

unfoldable pub quote_entries : List QuoteEntryArgs → List ℕ
unfolding quote_entry
quote_entries [] = []
quote_entries (a ∷ as') = quote_entry_codec.write (quote_entry a) ++ quote_entries as'

unfoldable pub mass_quote_header : MassQuoteArgs → OrderToken → MassQuoteHeader
mass_quote_header args tok = record {
  message_type = b'Q';
  order_token = token_set tok;
  client_category = client_category_byte args.category;
  client_account = alpha_set 16 args.client_account;
  exchange_info = alpha_set 16 args.exchange_info;
  no_quote_entries = length args.entries % 2 ^ 16;
}

unfoldable pub mass_quote_with : MassQuoteArgs → OrderToken → Client → Result OrderToken × Client
unfolding quote_entries
mass_quote_with args tok c =
    let blob =
      mass_quote_header_codec.write (mass_quote_header args tok) ++ quote_entries args.entries in
    let (o, s) = send_mass_quote blob c.session in (sent tok o, record c { session = s })

unfoldable pub mass_quote : ℕ → MassQuoteArgs → Client → Result OrderToken × Client
mass_quote now args c =
    if length args.entries == 0 || ltb 5 (length args.entries)
    then (err (make_error ErrorCategory.validation "MassQuote requires 1..5 entries"), c)
    else when_acquired (try_acquire 0 now c.throttler) c throttled (λ c'.
      on_token (choose_token "MassQuote token already used: " args.token c'.tokens) c'
        (mass_quote_with args))
