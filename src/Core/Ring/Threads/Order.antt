-- ===== src/Core/Ring/Threads/Order.antt =====
-- What comes out of the ring, in every order of the threads' steps.
use ouchservice.Prelude.{ℕ, ◌^◌, ◌≤◌, ◌≡◌, refl, List, [], ◌∷◌, ◌++◌, length, arith}
use ouchservice.Core.Ring.Threads.{Threads, Step, step, interleaved, new_threads}
use ouchservice.Core.Ring.Threads.Orderly.{
  Orderly, Room-bound, call-Orderly, producer_step-Orderly, consumer_step-Orderly,
}

module _ {A : Type 0} where
  step-Orderly :
      (k : ℕ) (s : Threads A) (x : Step A) → k ≤ 63 → Orderly k s → Orderly k (step k s x)
  unfolding step
  step-Orderly k s (Step.call_push v) h o =
      call-Orderly k v s.ring s.producer s.consumer s.accepted s.delivered h o
  step-Orderly k s Step.push_on h o =
      producer_step-Orderly k s.ring s.producer s.consumer s.accepted s.delivered h o
  step-Orderly k s Step.pop_on h o =
      consumer_step-Orderly k s.ring s.producer s.consumer s.accepted s.delivered h o

  -- The elements between the two threads: pushed with `true` and not popped yet.
  pub record IsFifo (k : ℕ) (s : Threads A) : Type 0 where
    pub between : List A
    pub in_order : s.accepted ≡ s.delivered ++ between
    pub bounded : length between ≤ 2 ^ k

  interleaved-IsFifo_from :
      (k : ℕ) (s : Threads A) (steps : List (Step A))
      → k ≤ 63
      → Orderly k s
      → IsFifo k (interleaved k s steps)
  unfolding interleaved
  interleaved-IsFifo_from k s [] h (t, q, o) = record {
    between = q;
    in_order = o.fifo;
    bounded = Room-bound k q s.producer o.room;
  }
  interleaved-IsFifo_from k s (x ∷ steps) h o =
      interleaved-IsFifo_from k (step k s x) steps h (step-Orderly k s x h o)

  -- In every interleaving of the loads and stores of the two threads, on a new ring of capacity 2^k with k
  -- up to 63, what has been popped is, in order, the beginning of what has been pushed with `true`, and
  -- at most 2^k elements are in between: none is lost, doubled or overtaken.
  pub interleaved-IsFifo :
      (blank : A) (k : ℕ) (steps : List (Step A))
      → k ≤ 63
      → IsFifo k (interleaved k (new_threads blank) steps)
  interleaved-IsFifo blank k steps h = interleaved-IsFifo_from k (new_threads blank) steps h (
    0,
    [],
    record {
      head_at = refl;
      tail_at = refl;
      room = omega arith;
      slots = tt;
      front = tt;
      fifo = refl;
    },
  )
