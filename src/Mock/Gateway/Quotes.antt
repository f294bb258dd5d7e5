-- ===== src/Mock/Gateway/Quotes.antt =====
-- Mass quotes.
use ouchservice.Prelude.{
  ℕ, zero, suc, Bool, false, List, [], ◌∷◌, ◌++◌, Option, none, some, if◌then◌else◌, ltb, ◌==◌,
  ◌&&◌, not, lookup, insert, bytes_eq_instance, drop, length,
}
use ouchservice.Prelude.Int.{pos, ltb_ℤ}
use ouchservice.Prelude.Decimal.{print_padded}
use ouchservice.Ouch.Messages.Inbound.{
  MassQuoteHeader, QuoteEntry, mass_quote_header_codec, quote_entry_codec,
}
use ouchservice.Ouch.Messages.Outbound.{
  MassQuoteAck, MassQuoteRejection, mass_quote_ack_codec, mass_quote_rejection_codec,
}
use ouchservice.Ouch.Session.State.{Outcome, returns, out_of_bounds}
use ouchservice.Mock.Gateway.State.{Gateway, send_sequenced, wall_ns, clock_read}
use ouchservice.Mock.Gateway.Orders.{price_outside_limits}

-- `std::to_string(book) + ":" + side`
unfoldable pub quote_key : ℕ → ℕ → List ℕ
quote_key book side = print_padded 1 book ++ (b':' ∷ side ∷ [])

-- What `quote_active_[key]` reads; a new entry is false.
abbrev pub or_false : Option Bool → Bool
or_false none = false
or_false (some b) = b

-- `MassQuoteStatus`: Accept 0, Updated 1, Canceled 2
unfoldable pub quote_status : Bool → Bool → ℕ
quote_status active_now was_active = if active_now then (if was_active then 1 else 0) else 2

unfoldable pub quote_ack : MassQuoteHeader → QuoteEntry → ℕ → ℕ → ℕ → MassQuoteAck
quote_ack h e side status now = record {
  message_type = b'K';
  timestamp_ns = now;
  order_token = h.order_token;
  order_book_id = e.order_book_id;
  quantity = if side == b'B' then e.bid_size else e.offer_size;
  traded_quantity = 0;
  price = if side == b'B' then e.bid_price else e.offer_price;
  side = side;
  quote_status = status;
}

-- One side of an entry that is not crossed.
unfoldable pub ack_side : MassQuoteHeader → QuoteEntry → ℕ → Bool → Gateway → Gateway
unfolding quote_key
ack_side h e side active_now g =
    let key = quote_key e.order_book_id side in
    let status = quote_status active_now (or_false (lookup key g.quote_active)) in
    send_sequenced (mass_quote_ack_codec.write (quote_ack h e side status (wall_ns g)))
      (clock_read (record g { quote_active = insert key active_now g.quote_active }))

unfoldable pub is_bid_active : QuoteEntry → Bool
is_bid_active e = ltb 0 e.bid_size && ltb_ℤ (pos 0) e.bid_price

unfoldable pub is_offer_active : QuoteEntry → Bool
is_offer_active e = ltb 0 e.offer_size && ltb_ℤ (pos 0) e.offer_price

unfoldable pub is_crossed : QuoteEntry → Bool
unfolding is_bid_active is_offer_active
is_crossed e = is_bid_active e && is_offer_active e && not (ltb_ℤ e.bid_price e.offer_price)

unfoldable pub quote_rejection : MassQuoteHeader → QuoteEntry → ℕ → MassQuoteRejection
quote_rejection h e now = record {
  message_type = b'R';
  timestamp_ns = now;
  order_token = h.order_token;
  order_book_id = e.order_book_id;
  reject_code = price_outside_limits;
}

unfoldable pub handle_entry : MassQuoteHeader → QuoteEntry → Gateway → Gateway
unfolding is_crossed ack_side
handle_entry h e g =
    if is_crossed e
    then send_sequenced (mass_quote_rejection_codec.write (quote_rejection h e (wall_ns g)))
        (clock_read g)
    else ack_side h e b'S' (is_offer_active e) (ack_side h e b'B' (is_bid_active e) g)

-- The loop over the number of entries that the header gives. The entries are read from the memory
-- behind the header; a read behind the end of the payload is undefined in the source.
unfoldable pub entries_loop : MassQuoteHeader → ℕ → List ℕ → Gateway → Outcome × Gateway
entries_loop h zero mem g = (returns, g)
entries_loop h (suc n) mem g =
    let rest = entries_loop h n (drop 28 mem) (handle_entry h (quote_entry_codec.read mem) g) in
    if ltb (length mem) 28 then (out_of_bounds, g) else rest

unfoldable pub mass_quote : List ℕ → Gateway → Outcome × Gateway
unfolding entries_loop
mass_quote payload g =
    let h = mass_quote_header_codec.read payload in
    if ltb (length payload) 78
    then (returns, g)
    else entries_loop h h.no_quote_entries (drop 50 payload) g
