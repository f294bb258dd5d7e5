-- ===== src/Tests/Instruments.antt =====
-- An instrument that moves to another book, and a price.
use ouchservice.Prelude.{◌≡◌, refl, [], codes}
use ouchservice.Prelude.Int.{pos}
use ouchservice.Prelude.Decimal.{digits}
use ouchservice.Domain.Instrument.{Instrument, InstrumentCache}
use ouchservice.Domain.Instrument.Price.{price_text}

abbrev empty_cache : InstrumentCache
empty_cache = record { by_symbol = []; by_book_id = [] }

abbrev before : Instrument
before = record {
  symbol = codes "ACSEL";
  order_book_id = 70616;
  price_decimals = 3;
  partition = pos 1;
  base_price = pos 6000;
}

abbrev after : Instrument
after = record before { order_book_id = 70617 }

text-price_text : price_text 0 6 3 200 ≡ codes "6.200"
unfolding digits
text-price_text = refl
