-- ===== src/Domain/Throttler/Stands.antt =====
-- The slots against the log of accepted windows that they stand for.
use ouchservice.Prelude.{
  ℕ, ◌+◌, ◌%◌, ◌^◌, ◌≤◌, ◌<◌, ◌≡◌, ◌≢◌, ap, ap₂, sym, subst, ◌∙◌, ◌⊎◌, inl, inr, List, ◌∷◌, arith,
  ◌==◌, get_or, length, length-set, get_or-set_self, get_or-set_ne, ℕ_discrete, Bool-cases,
}
use ouchservice.Domain.Throttler.{Slot, empty_slot, no_window, slot_use, rotate, bump, used_loop}
use ouchservice.Domain.Throttler.Window.{
  in_second, accepted_in, accepted_in_slot, accepted_in-slots, sum_uses, used_loop-eq-sum_uses,
  sum_uses-eq-sum_below, sum_below,
}

-- The slots stand for the log, seen from the window `last` on.
pub record Stands (slots : List Slot) (last : ℕ) (log : List ℕ) : Type 0 where
  pub size : length slots ≡ 10
  pub placed :
      (i : ℕ)
      → i < 10
      → ((get_or slots i empty_slot).window_id ≡ no_window)
        ⊎ (((get_or slots i empty_slot).window_id % 10 ≡ i)
            × ((get_or slots i empty_slot).window_id ≤ last))
  pub uses :
      (i c : ℕ)
      → i < 10
      → last ≤ c
      → c < no_window
      → slot_use (get_or slots i empty_slot) c ≡ accepted_in_slot i c log

-- One slot, rotated to the window `c`, is used as before from `c` on.
slot_use-stale :
    (s : Slot) (c later : ℕ)
    → (s.window_id ≡ no_window) ⊎ ((s.window_id % 10 ≡ c % 10) × (s.window_id ≤ c))
    → s.window_id ≢ c
    → c ≤ later
    → slot_use s later ≡ slot_use (record { window_id = c; count = 0 }) later
slot_use-stale s c later placed ne le = ground arith

module _ {slots : List Slot} {last : ℕ} {log : List ℕ} (r : Stands slots last log) (c : ℕ)
    (le : last ≤ c) (real : c < no_window) where
  abbrev own : Slot
  own = get_or slots (c % 10) empty_slot

  rotate-other :
      (i : ℕ) → c % 10 ≢ i → get_or (rotate slots c) i empty_slot ≡ get_or slots i empty_slot
  unfolding rotate
  rotate-other i ne = elim (Bool-cases (own.window_id == c)) [
    | inl same ↦ rw same
    | inr old ↦ rw old (get_or-set_ne slots (c % 10) i _ empty_slot ne)
  ]

  rotate-own_old :
      own.window_id ≢ c
      → get_or (rotate slots c) (c % 10) empty_slot ≡ record { window_id = c; count = 0 }
  unfolding rotate
  rotate-own_old ne = elim (Bool-cases (own.window_id == c)) [
    | inl same ↦ absurd (ground arith)
    | inr old ↦ rw old (get_or-set_self slots (c % 10) _ empty_slot (omega (arith, r.size)))
  ]

  rotate-own_same : own.window_id ≡ c → rotate slots c ≡ slots
  unfolding rotate
  rotate-own_same e = ground arith

  rotate-own_uses :
      (later : ℕ)
      → c ≤ later
      → later < no_window
      → slot_use (get_or (rotate slots c) (c % 10) empty_slot) later
        ≡ accepted_in_slot (c % 10) later log
  rotate-own_uses later after fits = elim (ℕ_discrete own.window_id c) [
    | yes e ↦ rw (rotate-own_same e) before
    | no ne ↦ rw (rotate-own_old ne) (sym (slot_use-stale own c later own_placed ne after) ∙ before)
  ]
    where
      before : slot_use own later ≡ accepted_in_slot (c % 10) later log
      before = r.uses (c % 10) later (omega arith) (omega arith) fits

      own_placed :
          (own.window_id ≡ no_window) ⊎ ((own.window_id % 10 ≡ c % 10) × (own.window_id ≤ c))
      own_placed = elim (r.placed (c % 10) (omega arith)) [
        | inl e ↦ inl e
        | inr (e, h) ↦ inr (e, omega arith)
      ]

  pub length-rotate : length (rotate slots c) ≡ 10
  unfolding rotate
  length-rotate = elim (Bool-cases (own.window_id == c)) [
    | inl same ↦ rw same r.size
    | inr old ↦ rw old (length-set slots (c % 10) _ ∙ r.size)
  ]

  pub rotate-window_id : (get_or (rotate slots c) (c % 10) empty_slot).window_id ≡ c
  rotate-window_id = elim (ℕ_discrete own.window_id c) [
    | yes e ↦ rw (rotate-own_same e) e
    | no ne ↦ rw (rotate-own_old ne)
  ]

  pub rotate-Stands : Stands (rotate slots c) c log
  rotate-Stands = record {
    size = length-rotate;
    placed = λ i h. elim (ℕ_discrete (c % 10) i) [
      | yes e ↦ inr (
        ap (λ k. (get_or (rotate slots c) k empty_slot).window_id % 10) (sym e)
            ∙ ap (λ (k : ℕ). k % 10) rotate-window_id
            ∙ e,
        omega (
          arith,
          ap (λ k. (get_or (rotate slots c) k empty_slot).window_id) (sym e),
          rotate-window_id,
        ),
      )
      | no ne ↦ elim (r.placed i h) [
        | inl e ↦ inl (rw (rotate-other i ne) e)
        | inr (e, k) ↦ inr (rw (rotate-other i ne) (e, omega arith))
      ]
    ];
    uses = λ i later h after fits. elim (ℕ_discrete (c % 10) i) [
      | yes e ↦
          subst
            (λ k.
              slot_use (get_or (rotate slots c) k empty_slot) later ≡ accepted_in_slot k later log)
            e (rotate-own_uses later after fits)
      | no ne ↦ rw (rotate-other i ne) (r.uses i later h (omega arith) fits)
    ];
  }

-- The loop of `used_in_rolling_second` counts the log.
pub used_loop-eq-accepted_in :
    {slots : List Slot} {last : ℕ} {log : List ℕ} (c : ℕ)
    → Stands slots last log
    → last ≤ c
    → c < no_window
    → accepted_in c log < 2 ^ 64
    → used_loop 0 slots c ≡ accepted_in c log
used_loop-eq-accepted_in {slots} {last} {log} c r le real small =
    used_loop-eq-sum_uses 0 slots c (omega (arith, total)) ∙ omega (arith, total)
  where
    total : sum_uses slots c ≡ accepted_in c log
    total =
        sum_uses-eq-sum_below slots 0 c (λ i. accepted_in_slot i c log)
          (λ i h.
            r.uses i c (omega (arith, r.size)) le real
            ∙ ap (λ k. accepted_in_slot k c log) {x = i} {y = 0 + i} (omega arith))
        ∙ ap (λ n. sum_below 0 n (λ i. accepted_in_slot i c log)) r.size
        ∙ accepted_in-slots c log

-- A count in the slot of the current window is a new entry of the log.
slot_use-bump :
    (s : Slot) (c later : ℕ)
    → s.window_id ≡ c
    → s.count + 1 < 2 ^ 64
    → c ≤ later
    → c < no_window
    → slot_use (record s { count = (s.count + 1) % 2 ^ 64 }) later
      ≡ in_second c later + slot_use s later
slot_use-bump s c later e small le real = ground arith

module _ {slots : List Slot} {log : List ℕ} (c : ℕ) (r : Stands slots c log)
    (current : (get_or slots (c % 10) empty_slot).window_id ≡ c) (real : c < no_window)
    (small : accepted_in_slot (c % 10) c log + 1 < 2 ^ 64) where
  abbrev mine : Slot
  mine = get_or slots (c % 10) empty_slot

  abbrev counted : Slot
  counted = record { window_id = mine.window_id; count = (mine.count + 1) % 2 ^ 64 }

  bump-own : get_or (bump slots c) (c % 10) empty_slot ≡ counted
  unfolding bump
  bump-own = get_or-set_self slots (c % 10) counted empty_slot (omega (arith, r.size))

  bump-other : (i : ℕ) → c % 10 ≢ i → get_or (bump slots c) i empty_slot ≡ get_or slots i empty_slot
  unfolding bump
  bump-other i ne = get_or-set_ne slots (c % 10) i counted empty_slot ne

  count_small :
      (s : Slot) (n : ℕ)
      → s.window_id ≡ c
      → slot_use s c ≡ n
      → n + 1 < 2 ^ 64
      → s.count + 1 < 2 ^ 64
  count_small s n e used lt = ground arith

  bump-own_uses :
      (later : ℕ)
      → c ≤ later
      → later < no_window
      → slot_use (get_or (bump slots c) (c % 10) empty_slot) later
        ≡ accepted_in_slot (c % 10) later (c ∷ log)
  unfolding accepted_in_slot
  bump-own_uses later after fits = rw bump-own (
      slot_use-bump mine c later current
        (count_small mine _ current (r.uses (c % 10) c (omega arith) (omega arith) real) small)
        after real
      ∙ ap₂ ◌+◌ (ground arith) (r.uses (c % 10) later (omega arith) after fits))

  bump-other_uses :
      (i later : ℕ) → c % 10 ≢ i → accepted_in_slot i later (c ∷ log) ≡ accepted_in_slot i later log
  unfolding accepted_in_slot
  bump-other_uses i later ne = ground arith

  pub bump-Stands : Stands (bump slots c) c (c ∷ log)
  bump-Stands = record {
    size = unfold bump in (length-set slots (c % 10) counted ∙ r.size);
    placed = λ i h. elim (ℕ_discrete (c % 10) i) [
      | yes e ↦
          subst
            (λ k.
              ((get_or (bump slots c) k empty_slot).window_id ≡ no_window)
              ⊎ (((get_or (bump slots c) k empty_slot).window_id % 10 ≡ k)
                  × ((get_or (bump slots c) k empty_slot).window_id ≤ c)))
            e (rw bump-own (inr (ap (λ (k : ℕ). k % 10) current, omega (arith, current))))
      | no ne ↦ rw (bump-other i ne) (r.placed i h)
    ];
    uses = λ i later h after fits. elim (ℕ_discrete (c % 10) i) [
      | yes e ↦
          subst
            (λ k.
              slot_use (get_or (bump slots c) k empty_slot) later
              ≡ accepted_in_slot k later (c ∷ log))
            e (bump-own_uses later after fits)
      | no ne ↦
          rw (bump-other i ne) (r.uses i later h after fits ∙ sym (bump-other_uses i later ne))
    ];
  }
