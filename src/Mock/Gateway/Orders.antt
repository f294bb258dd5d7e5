-- ===== src/Mock/Gateway/Orders.antt =====
-- The messages about single orders, once they are read, and the inactivation at the end of the day.
use ouchservice.Prelude.{
  ℕ, ◌+◌, ◌%◌, ◌^◌, List, [], ◌∷◌, Option, none, some, if◌then◌else◌, ◌==◌, contains, lookup,
  insert, erase, bytes_eq_instance, length, replicate, take, ◌++◌, ◌-◌,
}
use ouchservice.Prelude.Int.{ℤ, pos, negsuc, ltb_ℤ}
use ouchservice.Ouch.Messages.Inbound.{EnterOrder, ReplaceOrder, CancelOrder, CancelByOrderId}
use ouchservice.Ouch.Messages.Outbound.{
  OrderAccepted, OrderRejected, OrderReplaced, OrderCanceled, order_accepted_codec,
  order_rejected_codec, order_replaced_codec, order_canceled_codec,
}
use ouchservice.Mock.Gateway.State.{Gateway, RestingOrder, send_sequenced, wall_ns, clock_read}

-- namespace reject_code
abbrev pub price_outside_limits : ℤ
price_outside_limits = negsuc 420_130

abbrev pub token_not_unique : ℤ
token_not_unique = negsuc 800_001

-- `OrderState::OnBook`
abbrev pub on_book : ℕ
on_book = 1

unfoldable pub rejection : ℤ → EnterOrder → ℕ → OrderRejected
rejection code m now = record {
  message_type = b'J';
  timestamp_ns = now;
  order_token = m.order_token;
  reject_code = code;
}

unfoldable pub reject : ℤ → EnterOrder → Gateway → Gateway
reject code m g =
    send_sequenced (order_rejected_codec.write (rejection code m (wall_ns g))) (clock_read g)

unfoldable pub acceptance : EnterOrder → ℕ → ℕ → OrderAccepted
acceptance m oid now = record {
  message_type = b'A';
  timestamp_ns = now;
  order_token = m.order_token;
  order_book_id = m.order_book_id;
  side = m.side;
  order_id = oid;
  quantity = m.quantity;
  price = m.price;
  time_in_force = m.time_in_force;
  open_close = m.open_close;
  client_account = m.client_account;
  order_state = on_book;
  customer_info = m.customer_info;
  exchange_info = m.exchange_info;
  pre_trade_quantity = m.quantity;
  display_quantity = m.display_quantity;
  client_category = m.client_category;
  off_hours = m.off_hours;
  smp_level = 0;
  smp_method = 0;
  smp_id = replicate 3 0;
}

abbrev pub with_resting : List (List ℕ × RestingOrder) → Gateway → Gateway
with_resting r g = record g { resting = r }

-- An order whose token is new and whose price is within the limit.
unfoldable pub accept_order : EnterOrder → Gateway → Gateway
accept_order m g =
    let oid = g.order_id_seq in
    let g' =
      send_sequenced (order_accepted_codec.write (acceptance m oid (wall_ns g)))
        (clock_read (record g { order_id_seq = (oid + 1) % 2 ^ 64 })) in
    if m.time_in_force == 0
    then with_resting
        (insert m.order_token
          (record { order_book_id = m.order_book_id; side = m.side; order_id = oid }) g'.resting)
        g'
    else g'

unfoldable pub enter_order : EnterOrder → Gateway → Gateway
unfolding accept_order
enter_order m g =
    if contains m.order_token g.seen_tokens
    then reject token_not_unique m g
    else (let g' = record g { seen_tokens = m.order_token ∷ g.seen_tokens } in
        if ltb_ℤ (pos 9000) m.price then reject price_outside_limits m g' else accept_order m g')

-- The report of a cancel: the fields of a resting order if there is one under the token.
unfoldable pub cancellation : List ℕ → Option RestingOrder → ℕ → ℕ → OrderCanceled
cancellation tok none reason now = record {
  message_type = b'C';
  timestamp_ns = now;
  order_token = tok;
  order_book_id = 0;
  side = 0;
  order_id = 0;
  reason = reason;
}
cancellation tok (some o) reason now = record {
  message_type = b'C';
  timestamp_ns = now;
  order_token = tok;
  order_book_id = o.order_book_id;
  side = o.side;
  order_id = o.order_id;
  reason = reason;
}

unfoldable pub cancel_order : CancelOrder → Gateway → Gateway
cancel_order m g =
    send_sequenced
      (order_canceled_codec.write
        (cancellation m.order_token (lookup m.order_token g.resting) 1 (wall_ns g)))
      (with_resting (erase m.order_token g.resting) (clock_read g))

-- The token is left blank: the struct is zeroed.
unfoldable pub cancel_by_order_id : CancelByOrderId → Gateway → Gateway
cancel_by_order_id m g =
    send_sequenced
      (order_canceled_codec.write (
        cancellation (replicate 14 0)
          (some (record { order_book_id = m.order_book_id; side = m.side; order_id = m.order_id }))
          1 (wall_ns g)))
      (clock_read g)

-- The book and the side of the order that is replaced; zeros if there is none.
unfoldable pub replaced_order : Option RestingOrder → ℕ → RestingOrder
replaced_order none oid = record { order_book_id = 0; side = 0; order_id = oid }
replaced_order (some o) oid = record {
  order_book_id = o.order_book_id;
  side = o.side;
  order_id = oid;
}

unfoldable pub replacement : ReplaceOrder → RestingOrder → ℕ → OrderReplaced
replacement m o now = record {
  message_type = b'U';
  timestamp_ns = now;
  replacement_order_token = m.replacement_order_token;
  previous_order_token = m.existing_order_token;
  order_book_id = o.order_book_id;
  side = o.side;
  order_id = o.order_id;
  quantity = m.quantity;
  price = m.price;
  time_in_force = 0;
  open_close = m.open_close;
  client_account = m.client_account;
  order_state = on_book;
  customer_info = m.customer_info;
  exchange_info = m.exchange_info;
  pre_trade_quantity = m.quantity;
  display_quantity = m.display_quantity;
  client_category = m.client_category;
}

unfoldable pub replace_order : ReplaceOrder → Gateway → Gateway
unfolding replaced_order
replace_order m g =
    let o = replaced_order (lookup m.existing_order_token g.resting) g.order_id_seq in
    send_sequenced (order_replaced_codec.write (replacement m o (wall_ns g))) (
      clock_read (record g {
        order_id_seq = (g.order_id_seq + 1) % 2 ^ 64;
        resting = insert m.replacement_order_token o (erase m.existing_order_token g.resting);
      }))

-- `memcpy` of at most 14 bytes into a zeroed field.
unfoldable pub emit_canceled : List ℕ → RestingOrder → ℕ → Gateway → Gateway
emit_canceled token o reason g =
    send_sequenced
      (order_canceled_codec.write (
        cancellation (take 14 token ++ replicate (14 - length token) 0) (some o) reason
          (wall_ns g)))
      (clock_read g)

unfoldable pub emit_all : List (List ℕ × RestingOrder) → Gateway → Gateway
unfolding emit_canceled
emit_all [] g = g
emit_all ((token, o) ∷ os) g = emit_all os (emit_canceled token o 4 g)

unfoldable pub inactivate_all_resting : Gateway → ℕ × Gateway
unfolding emit_all
inactivate_all_resting g =
    if g.is_connected then (length g.resting, emit_all g.resting (with_resting [] g)) else (0, g)
