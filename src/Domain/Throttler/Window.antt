-- ===== src/Domain/Throttler/Window.antt =====
-- What the ten slots add up to, seen from the list of the windows in which requests were accepted.
use ouchservice.Prelude.{
  ℕ, zero, suc, ◌+◌, ◌%◌, ◌^◌, ◌<◌, ◌≡◌, refl, ap, ap₂, ◌∙◌, List, [], ◌∷◌, arith, ltb, ◌==◌,
  if◌then◌else◌, get_or, length,
}
use ouchservice.Domain.Throttler.{Slot, empty_slot, window_count, slot_use, used_loop}

-- The window `w` lies in the rolling second that ends with the window `c`.
abbrev pub in_second : ℕ → ℕ → ℕ
in_second w c = if ltb c (w + window_count) then 1 else 0

-- How many requests of the log were accepted in the rolling second that ends with `c`.
unfoldable pub accepted_in : ℕ → List ℕ → ℕ
accepted_in c [] = 0
accepted_in c (w ∷ log) = in_second w c + accepted_in c log

-- Those of them whose window uses the slot `i`.
unfoldable pub accepted_in_slot : ℕ → ℕ → List ℕ → ℕ
accepted_in_slot i c [] = 0
accepted_in_slot i c (w ∷ log) =
    (if w % window_count == i then in_second w c else 0) + accepted_in_slot i c log

pub sum_below : ℕ → ℕ → (ℕ → ℕ) → ℕ
sum_below from zero f = 0
sum_below from (suc n) f = f from + sum_below (suc from) n f

sum_below-add :
    (from n : ℕ) (f g : ℕ → ℕ)
    → sum_below from n (λ i. f i + g i) ≡ sum_below from n f + sum_below from n g
unfolding sum_below
sum_below-add from zero f g = omega arith
sum_below-add from (suc n) f g = omega (arith, sum_below-add (suc from) n f g)

sum_below-single : (r v : ℕ) → r < 10 → sum_below 0 window_count (λ i. if r == i then v else 0) ≡ v
unfolding sum_below
sum_below-single r v h = ground arith

-- Every window uses exactly one of the ten slots.
pub accepted_in-slots :
    (c : ℕ) (log : List ℕ)
    → sum_below 0 window_count (λ i. accepted_in_slot i c log) ≡ accepted_in c log
unfolding accepted_in accepted_in_slot
accepted_in-slots c [] = unfold sum_below in refl
accepted_in-slots c (w ∷ log) =
    sum_below-add 0 window_count (λ i. if w % window_count == i then in_second w c else 0)
      (λ i. accepted_in_slot i c log)
    ∙ ap₂ ◌+◌ (sum_below-single (w % window_count) (in_second w c) (omega arith))
        (accepted_in-slots c log)

pub sum_uses : List Slot → ℕ → ℕ
sum_uses [] c = 0
sum_uses (s ∷ ss) c = slot_use s c + sum_uses ss c

-- The loop adds the uses up, as long as the sum fits.
pub used_loop-eq-sum_uses :
    (total : ℕ) (ss : List Slot) (c : ℕ)
    → total + sum_uses ss c < 2 ^ 64
    → used_loop total ss c ≡ total + sum_uses ss c
unfolding used_loop sum_uses
used_loop-eq-sum_uses total [] c h = omega arith
used_loop-eq-sum_uses total (s ∷ ss) c h =
    used_loop-eq-sum_uses ((total + slot_use s c) % 2 ^ 64) ss c (omega arith) ∙ omega arith

pub sum_uses-eq-sum_below :
    (ss : List Slot) (from c : ℕ) (f : ℕ → ℕ)
    → ((i : ℕ) → i < length ss → slot_use (get_or ss i empty_slot) c ≡ f (from + i))
    → sum_uses ss c ≡ sum_below from (length ss) f
unfolding sum_uses sum_below
sum_uses-eq-sum_below [] from c f h = refl
sum_uses-eq-sum_below (s ∷ ss) from c f h =
    ap₂ ◌+◌ (h 0 (omega arith) ∙ ap f (omega arith))
      (sum_uses-eq-sum_below ss (suc from) c f λ i lt. h (suc i) (omega arith) ∙ ap f (omega arith))
