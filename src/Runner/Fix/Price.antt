-- ===== src/Runner/Fix/Price.antt =====
-- include/bist/runner/fix_replay.hpp: prices as text, `parse_price`. Its sums are values of type
-- `long long` and `int`: where one of them overflows, which is undefined there, there is no result. The
-- number of decimals is an int8_t; the callers give 3.
pub mod Written
use ouchservice.Prelude.{
  ℕ, zero, suc, ◌+◌, ◌-◌, ◌*◌, ◌/◌, ◌^◌, Bool, true, false, not, ◌&&◌, List, [], ◌∷◌, Option, none,
  some, if◌then◌else◌, ◌==◌, ltb,
}
use ouchservice.Prelude.Int.{ℤ, pos}
use ouchservice.Prelude.Decimal.{is_digit}
use ouchservice.Domain.Instrument.{signed, pad_loop}

-- The variables of the loop.
pub record Parsed : Type 0 where
  pub seen_dot : Bool
  pub whole : ℕ
  pub frac : ℕ
  pub frac_digits : ℕ

-- What a part of the function comes to: a value, `return 0`, or an overflow.
pub data Read (A : Type 0) : Type 0 where
  gives : A → Read A
  refused overflowed : Read A

-- Whether a number is a `long long`.
abbrev pub in_range : ℕ → Bool
in_range v = ltb v (2 ^ 63)

-- One turn.
unfoldable pub price_step : ℕ → Parsed → Read Parsed
price_step c p =
    let frac = p.frac * 10 + (c - b'0') in
    let whole = p.whole * 10 + (c - b'0') in
    if c == b'.'
    then gives (record p { seen_dot = true })
    else if not (is_digit c)
    then refused
    else if p.seen_dot
    then (if in_range frac && ltb (suc p.frac_digits) (2 ^ 31)
        then gives (record p { frac = frac; frac_digits = suc p.frac_digits })
        else overflowed)
    else if in_range whole
    then gives (record p { whole = whole })
    else overflowed

unfoldable pub price_loop : List ℕ → Read Parsed → Read Parsed
unfolding price_step
price_loop cs refused = refused
price_loop cs overflowed = overflowed
price_loop [] (gives p) = gives p
price_loop (c ∷ cs) (gives p) = price_loop cs (price_step c p)

-- `frac /= 10`, as often as there are digits too many.
unfoldable pub cut_loop : ℕ → ℕ → ℕ
cut_loop zero frac = frac
cut_loop (suc k) frac = cut_loop k (frac / 10)

-- `pow10`, the fraction with its zeros, and `v` are all in range, or there is an overflow.
unfoldable pub scaled : ℕ → Read Parsed → Read ℕ
unfolding cut_loop pad_loop
scaled decimals refused = refused
scaled decimals overflowed = overflowed
scaled decimals (gives p) =
    let padded = pad_loop (decimals - p.frac_digits) p.frac in
    let v = p.whole * 10 ^ decimals + cut_loop (p.frac_digits - decimals) padded in
    if in_range (10 ^ decimals) && in_range padded && in_range v then gives v else overflowed

abbrev pub start : Read Parsed
start = gives (record { seen_dot = false; whole = 0; frac = 0; frac_digits = 0 })

-- The price with its sign, cut to 32 bits.
abbrev pub priced : Bool → Read ℕ → Option ℤ
priced negative (gives v) = some (signed negative (some v))
priced negative refused = some (pos 0)
priced negative overflowed = none

unfoldable pub parse_price : List ℕ → ℕ → Option ℤ
unfolding price_loop scaled
parse_price [] decimals = some (pos 0)
parse_price (c ∷ cs) decimals =
    if c == b'-'
    then priced true (scaled decimals (price_loop cs start))
    else priced false (scaled decimals (price_loop (c ∷ cs) start))
