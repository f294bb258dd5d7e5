-- ===== src/Core/Ring/Queue.antt =====
-- The ring as a bounded queue.
use ouchservice.Prelude.{
  ℕ, suc, ◌^◌, ◌≤◌, ◌≡◌, refl, Bool, true, false, List, [], ◌∷◌, ◌++◌, Option, none, some,
  if◌then◌else◌, ◌==◌, ltb, length, arith, ap, dec_lt,
}
use ouchservice.Core.Ring.{SpscRing, spsc_ring, try_push, try_pop, empty, approx_size}
use ouchservice.Core.Ring.Slots.{
  Stands, after_push, after_pop, try_push-room, try_push-full, Stands-pushed, try_pop-first,
  Stands-taken, try_pop-drained, approx_size-length, empty-length,
}

-- A run of calls, and what they answer.
pub data Call (A : Type 0) : Type 0 where
  push : A → Call A
  pop : Call A
  size : Call A
  is_empty : Call A

pub data Answer (A : Type 0) : Type 0 where
  pushed : Bool → Answer A
  popped : Option A → Answer A
  sized : ℕ → Answer A
  emptiness : Bool → Answer A

module _ {A : Type 0} where
  -- The calls on a queue that holds at most `c` elements.
  unfoldable pub spec_run : ℕ → List A → List (Call A) → List (Answer A)
  spec_run c q [] = []
  spec_run c q (Call.push v ∷ calls) =
      let kept = spec_run c q calls in
      let longer = spec_run c (q ++ (v ∷ [])) calls in
      if ltb (length q) c then Answer.pushed true ∷ longer else Answer.pushed false ∷ kept
  spec_run c [] (Call.pop ∷ calls) = Answer.popped none ∷ spec_run c [] calls
  spec_run c (x ∷ q) (Call.pop ∷ calls) = Answer.popped (some x) ∷ spec_run c q calls
  spec_run c q (Call.size ∷ calls) = Answer.sized (length q) ∷ spec_run c q calls
  spec_run c q (Call.is_empty ∷ calls) = Answer.emptiness (length q == 0) ∷ spec_run c q calls

  unfoldable pub run : ℕ → SpscRing A → List (Call A) → List (Answer A)
  run k r [] = []
  run k r (Call.push v ∷ calls) =
      let (answer, r') = try_push k v r in Answer.pushed answer ∷ run k r' calls
  run k r (Call.pop ∷ calls) =
      let (answer, r') = try_pop k r in Answer.popped answer ∷ run k r' calls
  run k r (Call.size ∷ calls) = Answer.sized (approx_size r) ∷ run k r calls
  run k r (Call.is_empty ∷ calls) = Answer.emptiness (empty r) ∷ run k r calls

  run-eq-spec_run_from :
      (k t : ℕ) (q : List A) (r : SpscRing A) (calls : List (Call A))
      → k ≤ 63
      → Stands k t q r
      → run k r calls ≡ spec_run (2 ^ k) q calls
  unfolding run spec_run
  run-eq-spec_run_from k t q r [] h s = refl
  run-eq-spec_run_from k t q r (Call.push v ∷ calls) h s = elim (dec_lt (length q) (2 ^ k)) [
    | yes room ↦
        let test : ltb (length q) (2 ^ k) ≡ true = ground (arith, room) in
        rw (try_push-room v h s room, test)
          (ap (λ rest. Answer.pushed true ∷ rest)
            (run-eq-spec_run_from k t (q ++ (v ∷ [])) (after_push k v r) calls h
              (Stands-pushed v h s room)))
    | no full ↦
        let test : ltb (length q) (2 ^ k) ≡ false = ground (arith, full) in
        rw (try_push-full v h s (omega (arith, full)), test)
          (ap (λ rest. Answer.pushed false ∷ rest) (run-eq-spec_run_from k t q r calls h s))
  ]
  run-eq-spec_run_from k t [] r (Call.pop ∷ calls) h s =
      rw (try_pop-drained s)
        (ap (λ rest. Answer.popped none ∷ rest) (run-eq-spec_run_from k t [] r calls h s))
  run-eq-spec_run_from k t (x ∷ q) r (Call.pop ∷ calls) h s = rw (try_pop-first h s) (
      ap (λ rest. Answer.popped (some x) ∷ rest)
        (run-eq-spec_run_from k (suc t) q (after_pop r) calls h (Stands-taken s)))
  run-eq-spec_run_from k t q r (Call.size ∷ calls) h s =
      rw (approx_size-length h s)
        (ap (λ rest. Answer.sized (length q) ∷ rest) (run-eq-spec_run_from k t q r calls h s))
  run-eq-spec_run_from k t q r (Call.is_empty ∷ calls) h s = rw (empty-length h s) (
      ap (λ rest. Answer.emptiness (length q == 0) ∷ rest) (run-eq-spec_run_from k t q r calls h s))

  -- A new ring of capacity 2^k, for k up to 63, answers every series of calls as a queue that refuses an
  -- element when it holds 2^k of them, however often the counters and the index have wrapped around.
  pub spsc_ring-eq-spec_run :
      (blank : A) (k : ℕ) (calls : List (Call A))
      → k ≤ 63
      → run k (spsc_ring blank) calls ≡ spec_run (2 ^ k) [] calls
  spsc_ring-eq-spec_run blank k calls h =
      run-eq-spec_run_from k 0 [] (spsc_ring blank) calls h
        (record { head_at = refl; tail_at = refl; fits = omega arith; slots = tt })
