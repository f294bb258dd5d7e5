-- ===== src/Domain/Instrument.antt =====
-- include/bist/domain/instrument.hpp: the instruments by symbol and by order book, and prices as text.
-- The number of decimals is an int8_t there; a negative one acts as 0 in every loop.
pub mod Cache
pub mod Price
use ouchservice.Prelude.{
  ℕ, zero, suc, ◌+◌, ◌-◌, ◌*◌, ◌^◌, Bool, true, false, List, [], ◌∷◌, Option, none, some,
  if◌then◌else◌, ◌==◌, ◌||◌, lookup, insert, bytes_eq_instance, nat_eq,
}
use ouchservice.Prelude.Int.{ℤ, pos, sub_ℕ, to_u32, to_i32}
use ouchservice.Prelude.Decimal.{is_digit}

pub record Instrument : Type 0 where
  pub symbol : List ℕ
  pub order_book_id : ℕ
  pub price_decimals : ℕ
  pub partition : ℤ
  pub base_price : ℤ

pub record InstrumentCache : Type 0 where
  pub by_symbol : List (List ℕ × Instrument)
  pub by_book_id : List (ℕ × Instrument)

abbrev pub is_none : Option Instrument → Bool
is_none none = true
is_none (some i) = false

unfoldable pub find_by_symbol : List ℕ → InstrumentCache → Option Instrument
find_by_symbol s c = lookup s c.by_symbol

unfoldable pub find_by_book_id : ℕ → InstrumentCache → Option Instrument
find_by_book_id id c = lookup id c.by_book_id

unfoldable pub put : Instrument → InstrumentCache → Bool × InstrumentCache
put i c = (
  is_none (lookup i.symbol c.by_symbol),
  record {
    by_symbol = insert i.symbol i c.by_symbol;
    by_book_id = insert i.order_book_id i c.by_book_id;
  },
)

-- The book of a symbol.
unfoldable pub resolve : List ℕ → InstrumentCache → Option ℕ
unfolding find_by_symbol
resolve s c = elim (find_by_symbol s c) [ none ↦ none | some i ↦ some (i.order_book_id) ]

abbrev pub is_point : ℕ → Bool
is_point c = c == b'.' || c == b','

-- The loop over the digits before the point: the number and the rest, or nothing for another byte.
unfoldable pub whole_loop : ℕ → List ℕ → Option (ℕ × List ℕ)
whole_loop acc [] = some (acc, [])
whole_loop acc (c ∷ cs) =
    let rest = whole_loop (acc * 10 + (c - b'0')) cs in
    if is_point c then some (acc, c ∷ cs) else if is_digit c then rest else none

-- The loop over the digits behind it, of at most the given number: what they say, and how many are
-- missing.
unfoldable pub frac_loop : ℕ → ℕ → List ℕ → ℕ × ℕ
frac_loop zero acc cs = (acc, zero)
frac_loop (suc d) acc [] = (acc, suc d)
frac_loop (suc d) acc (c ∷ cs) =
    let rest = frac_loop d (acc * 10 + (c - b'0')) cs in if is_digit c then rest else (acc, suc d)

unfoldable pub pad_loop : ℕ → ℕ → ℕ
pad_loop zero frac = frac
pad_loop (suc k) frac = pad_loop k (frac * 10)

abbrev pub behind_point : List ℕ → List ℕ
behind_point [] = []
behind_point (c ∷ cs) = cs

-- The digits behind the point, once the number before it is read.
unfoldable pub with_fraction : ℕ → Option (ℕ × List ℕ) → Option ℕ
unfolding frac_loop pad_loop
with_fraction decimals none = none
with_fraction decimals (some (whole, tail)) =
    let (frac, missing) = frac_loop decimals 0 (behind_point tail) in
    some (whole * 10 ^ decimals + pad_loop missing frac)

-- The value without its sign.
unfoldable pub magnitude : List ℕ → ℕ → Option ℕ
unfolding whole_loop with_fraction
magnitude text decimals = with_fraction decimals (whole_loop 0 text)

-- The sums are int64 values, here with no bound: an overflow is undefined in the source. The result is
-- cut to 32 bits.
abbrev pub signed : Bool → Option ℕ → ℤ
signed negative none = pos 0
signed negative (some v) = to_i32 (to_u32 (if negative then sub_ℕ 0 v else pos v))

unfoldable pub to_wire_price : List ℕ → ℕ → ℤ
unfolding magnitude
to_wire_price [] decimals = signed false (magnitude [] decimals)
to_wire_price (c ∷ cs) decimals =
    if c == b'-'
    then signed true (magnitude cs decimals)
    else if c == b'+'
    then signed false (magnitude cs decimals)
    else signed false (magnitude (c ∷ cs) decimals)
