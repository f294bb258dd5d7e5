-- ===== src/Domain/Throttler/Refine.antt =====
-- The rate limiter and its specification: a log of the windows in which requests were accepted,
-- where a request is accepted exactly if fewer than `limit` lie in the rolling second.
use ouchservice.Prelude.{
  ℕ, ◌%◌, ◌^◌, ◌≤◌, ◌<◌, ◌≡◌, refl, Bool, true, false, List, [], ◌∷◌, arith, ltb, leb, ◌==◌,
  if◌then◌else◌, Bool-cases, inl, inr,
}
use ouchservice.Domain.Throttler.{
  Slot, Throttler, no_window, used_loop, rotate, bump, acquire_at, try_acquire, window_id_of,
  effective_time,
}
use ouchservice.Domain.Throttler.Window.{accepted_in, accepted_in_slot}
use ouchservice.Domain.Throttler.Stands.{
  Stands, rotate-Stands, rotate-window_id, used_loop-eq-accepted_in, bump-Stands,
}

-- The specification.
unfoldable pub spec_acquire : ℕ → ℕ → List ℕ → Bool × List ℕ
spec_acquire limit c log = if ltb (accepted_in c log) limit then (true, c ∷ log) else (false, log)

-- The throttler stands for the log, whose requests have not passed the limit.
pub record Refines (t : Throttler) (last : ℕ) (log : List ℕ) : Type 0 where
  pub slots_stand : Stands t.slots last log
  pub limit_fits : t.limit < 2 ^ 64
  pub in_budget : accepted_in last log ≤ t.limit

pub accepted_in_mono :
    (c later : ℕ) (log : List ℕ) → c ≤ later → accepted_in later log ≤ accepted_in c log
unfolding accepted_in
accepted_in_mono c later [] h = omega arith
accepted_in_mono c later (w ∷ log) h = ground (arith, accepted_in_mono c later log)

accepted_in_slot-le : (i c : ℕ) (log : List ℕ) → accepted_in_slot i c log ≤ accepted_in c log
unfolding accepted_in accepted_in_slot
accepted_in_slot-le i c [] = omega arith
accepted_in_slot-le i c (w ∷ log) = ground (arith, accepted_in_slot-le i c log)

Stands-later :
    {slots : List Slot} {last : ℕ} {log : List ℕ} (c : ℕ)
    → Stands slots last log
    → last ≤ c
    → Stands slots c log
Stands-later c r le = record {
  size = r.size;
  placed = λ i h. elim (r.placed i h) [ inl e ↦ inl e | inr (e, k) ↦ inr (e, omega arith) ];
  uses = λ i later h after fits. r.uses i later h (omega arith) fits;
}

module _ {t : Throttler} {last : ℕ} {log : List ℕ} (r : Refines t last log) (c : ℕ) (le : last ≤ c)
    (real : c < no_window) where
  budget-later : accepted_in c log ≤ t.limit
  budget-later = omega (arith, accepted_in_mono last c log le, r.in_budget)

  rotated : Stands (rotate t.slots c) c log
  rotated = rotate-Stands r.slots_stand c le real

  used-eq : used_loop 0 (rotate t.slots c) c ≡ accepted_in c log
  used-eq =
      used_loop-eq-accepted_in c rotated (omega arith) real
        (omega (arith, r.limit_fits, budget-later))

  spec_refused : leb t.limit (accepted_in c log) ≡ true → spec_acquire t.limit c log ≡ (false, log)
  unfolding spec_acquire
  spec_refused h = ground arith

  spec_granted :
      leb t.limit (accepted_in c log) ≡ false → spec_acquire t.limit c log ≡ (true, c ∷ log)
  unfolding spec_acquire
  spec_granted h = ground arith

  acquired :
      leb t.limit (accepted_in c log) ≡ false
      → Refines (record t { slots = bump (rotate t.slots c) c }) c (c ∷ log)
  acquired h = record {
    slots_stand =
        bump-Stands c rotated (rotate-window_id r.slots_stand c le real) real
          (omega (arith, accepted_in_slot-le (c % 10) c log, r.limit_fits, below));
    limit_fits = r.limit_fits;
    in_budget = unfold accepted_in in ground (arith, below);
  }
    where
      below : accepted_in c log < t.limit
      below = ground arith

  pub acquire_at-Refines :
      let (answer, t') = acquire_at c t in
      let (expected, log') = spec_acquire t.limit c log in
      (answer ≡ expected) × (t'.limit ≡ t.limit) × Refines t' c log'
  unfolding acquire_at
  acquire_at-Refines = elim (Bool-cases (leb t.limit (accepted_in c log))) [
    | inl full ↦ rw (spec_refused full) (elim (Bool-cases (t.limit == 0)) [
      | inl z ↦ rw z (
        refl,
        refl,
        record {
          slots_stand = Stands-later c r.slots_stand le;
          limit_fits = r.limit_fits;
          in_budget = budget-later;
        },
      )
      | inr nz ↦
          rw (nz, used-eq, full)
            (
              refl,
              refl,
              record { slots_stand = rotated; limit_fits = r.limit_fits; in_budget = budget-later },
            )
    ])
    | inr room ↦
        let nz : (t.limit == 0) ≡ false = ground arith in
        rw (spec_granted room, nz, used-eq, room) (refl, refl, acquired room)
  ]

-- One request, at a window not before the last: the answer is the specification's, and the slots
-- stand for its log.
pub try_acquire-Refines :
    (now clock : ℕ) {t : Throttler} {last : ℕ} {log : List ℕ}
    → Refines t last log
    → last ≤ window_id_of (effective_time now clock)
    → effective_time now clock < 2 ^ 64
    → let c = window_id_of (effective_time now clock) in
      let (answer, t') = try_acquire now clock t in
      let (expected, log') = spec_acquire t.limit c log in
      (answer ≡ expected) × (t'.limit ≡ t.limit) × Refines t' c log'
unfolding try_acquire
try_acquire-Refines now clock r le fits =
    acquire_at-Refines r (window_id_of (effective_time now clock)) le (omega arith)
