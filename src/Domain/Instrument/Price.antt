-- ===== src/Domain/Instrument/Price.antt =====
-- Prices that are written with a point.
use ouchservice.Prelude.{ℕ, suc, ◌+◌, ◌*◌, ◌/◌, ◌%◌, ◌^◌, ◌≡◌, ap, List, ◌∷◌, ◌++◌, arith}
use native.Mathlib.Nat.{pow-suc}
use ouchservice.Prelude.Decimal.{digits}

pub shifted : (acc w n : ℕ) → (acc * 10 ^ w + n / 10) * 10 + n % 10 ≡ acc * 10 ^ suc w + n
shifted acc w n = omega (arith, pow-suc 10 w, ap (λ (t : ℕ). acc * t) (pow-suc 10 w))

-- A price with `d` digits behind the point.
abbrev pub price_text : ℕ → ℕ → ℕ → ℕ → List ℕ
price_text w q d r = digits (suc w) q ++ (b'.' ∷ digits d r)
