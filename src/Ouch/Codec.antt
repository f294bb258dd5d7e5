-- ===== src/Ouch/Codec.antt =====
-- include/bist/ouch/codec.hpp: the hex dump of the audit log and the builders of quote entries. The
-- alpha fields are in Core/Alpha.antt.
use ouchservice.Prelude.{ℕ, ◌/◌, ◌%◌, List, [], ◌∷◌, get_or, codes}
use ouchservice.Prelude.Int.{ℤ, pos, to_u64}
use ouchservice.Core.Alpha.{OrderToken}
use ouchservice.Ouch.Messages.Inbound.{QuoteEntry}

unfoldable pub token_set : OrderToken → List ℕ
token_set tok = tok.bytes

unfoldable pub token_get : List ℕ → OrderToken
token_get src = record { bytes = src }

abbrev pub hex_digits : List ℕ
hex_digits = codes "0123456789abcdef"

unfoldable pub hex_dump : List ℕ → List ℕ
hex_dump [] = []
hex_dump (b ∷ bs) = get_or hex_digits (b / 16 % 16) 0 ∷ get_or hex_digits (b % 16) 0 ∷ hex_dump bs

unfoldable pub quote_new_two_sided : ℕ → ℤ → ℤ → ℤ → ℤ → QuoteEntry
quote_new_two_sided book bid_px bid_size offer_px offer_size = record {
  order_book_id = book;
  bid_price = bid_px;
  offer_price = offer_px;
  bid_size = to_u64 bid_size;
  offer_size = to_u64 offer_size;
}

unfoldable pub quote_cancel_two_sided : ℕ → QuoteEntry
quote_cancel_two_sided book = record {
  order_book_id = book;
  bid_price = pos 0;
  offer_price = pos 0;
  bid_size = 0;
  offer_size = 0;
}

unfoldable pub quote_cancel_bid : ℕ → ℤ → ℤ → QuoteEntry
quote_cancel_bid book offer_px offer_size = record {
  order_book_id = book;
  bid_price = pos 0;
  offer_price = offer_px;
  bid_size = 0;
  offer_size = to_u64 offer_size;
}

unfoldable pub quote_cancel_offer : ℕ → ℤ → ℤ → QuoteEntry
quote_cancel_offer book bid_px bid_size = record {
  order_book_id = book;
  bid_price = bid_px;
  offer_price = pos 0;
  bid_size = to_u64 bid_size;
  offer_size = 0;
}
