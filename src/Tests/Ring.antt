-- ===== src/Tests/Ring.antt =====
-- The ring of two slots.
use ouchservice.Prelude.{ℕ, ◌^◌, ◌≡◌, refl, true, false, List, [], ◌∷◌, some, none, arith}
use ouchservice.Core.Ring.{spsc_ring, try_push, try_pop, stored, approx_size, empty}
use ouchservice.Core.Ring.Threads.{
  Step, interleaved, new_threads, step, call, producer_step, consumer_step,
}
use ouchservice.Core.Ring.Threads.Order.{IsFifo, interleaved-IsFifo}
use ouchservice.Core.Ring.Queue.{Call, Answer, run, spec_run, spsc_ring-eq-spec_run}

-- The ring is filled, refuses an element, and goes round.
abbrev calls : List (Call ℕ)
calls =
    Call.push 7
    ∷ Call.push 8
    ∷ Call.push 9
    ∷ Call.pop
    ∷ Call.push 10
    ∷ Call.size
    ∷ Call.pop
    ∷ Call.pop
    ∷ Call.pop
    ∷ Call.is_empty
    ∷ []

run-calls :
    run 1 (spsc_ring 0) calls
    ≡ Answer.pushed true
      ∷ Answer.pushed true
      ∷ Answer.pushed false
      ∷ Answer.popped (some 7)
      ∷ Answer.pushed true
      ∷ Answer.sized 2
      ∷ Answer.popped (some 8)
      ∷ Answer.popped (some 10)
      ∷ Answer.popped none
      ∷ Answer.emptiness true
      ∷ []
unfolding run try_push try_pop stored approx_size empty
run-calls = refl

spsc_ring-eq-spec_run_example : run 1 (spsc_ring 0) calls ≡ spec_run (2 ^ 1) [] calls
spsc_ring-eq-spec_run_example = spsc_ring-eq-spec_run 0 1 calls (omega arith)

-- Two elements are pushed while the first is being popped.
abbrev steps : List (Step ℕ)
steps =
    Step.call_push 7
    ∷ Step.pop_on
    ∷ Step.push_on
    ∷ Step.push_on
    ∷ Step.pop_on
    ∷ Step.call_push 8
    ∷ Step.pop_on
    ∷ Step.push_on
    ∷ Step.pop_on
    ∷ Step.push_on
    ∷ []

interleaved-delivered : (interleaved 0 (new_threads 0) steps).delivered ≡ 7 ∷ []
unfolding interleaved step call producer_step consumer_step stored
interleaved-delivered = refl

interleaved-IsFifo_example : IsFifo 0 (interleaved 0 (new_threads 0) steps)
interleaved-IsFifo_example = interleaved-IsFifo 0 0 steps (omega arith)
