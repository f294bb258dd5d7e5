-- ===== src/Runner/Fix/Price/Written.antt =====
-- Prices that are written with a point, as `parse_price` of include/bist/runner/fix_replay.hpp reads
-- them.
use ouchservice.Prelude.{ℕ, ◌+◌, ◌-◌, ◌*◌, ◌/◌, ◌^◌, true, false}
use ouchservice.Runner.Fix.Price.{Parsed, Read, gives}

abbrev before_dot : ℕ → Read Parsed
before_dot whole = gives (record { seen_dot = false; whole = whole; frac = 0; frac_digits = 0 })

abbrev behind_dot : ℕ → ℕ → ℕ → Read Parsed
behind_dot whole frac n =
    gives (record { seen_dot = true; whole = whole; frac = frac; frac_digits = n })

-- The price as a number of units of `decimals` digits: digits that are missing count as zeros, and
-- those too many are dropped.
abbrev pub units : ℕ → ℕ → ℕ → ℕ → ℕ
units q n r decimals = q * 10 ^ decimals + r * 10 ^ (decimals - n) / 10 ^ (n - decimals)
