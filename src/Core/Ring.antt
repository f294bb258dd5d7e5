-- ===== src/Core/Ring.antt =====
-- include/bist/core/ring_buffer.hpp: the queue between two threads, with each call as one step. The
-- capacity is 2^k, so that `& kMask` is the remainder by it; the counters wrap at 2^64. A slot that was
-- moved from keeps its value here and is not read again before it is written.
mod Index
mod Slots
pub mod Queue
pub mod Threads
use ouchservice.Prelude.{
  ℕ, ◌+◌, ◌-◌, ◌%◌, ◌^◌, Bool, true, false, List, [], ◌∷◌, Option, none, some, if◌then◌else◌, ◌==◌,
  ltb,
}

pub record SpscRing (A : Type 0) : Type 0 where
  pub head : ℕ
  pub tail : ℕ
  pub storage : ℕ → A

module _ {A : Type 0} where
  abbrev pub spsc_ring : A → SpscRing A
  spsc_ring blank = record { head = 0; tail = 0; storage = λ i. blank }

  unfoldable pub stored : (ℕ → A) → ℕ → A → ℕ → A
  stored storage at v i = if i == at then v else storage i

  unfoldable pub try_push : ℕ → A → SpscRing A → Bool × SpscRing A
  unfolding stored
  try_push k v r =
      let next = (r.head + 1) % 2 ^ 64 in
      if ltb (2 ^ k) ((next + (2 ^ 64 - r.tail)) % 2 ^ 64)
      then (false, r)
      else (true, record r { storage = stored r.storage (r.head % 2 ^ k) v; head = next })

  unfoldable pub try_pop : ℕ → SpscRing A → Option A × SpscRing A
  try_pop k r =
      if r.tail == r.head
      then (none, r)
      else (some (r.storage (r.tail % 2 ^ k)), record r { tail = (r.tail + 1) % 2 ^ 64 })

  unfoldable pub empty : SpscRing A → Bool
  empty r = r.head == r.tail

  unfoldable pub approx_size : SpscRing A → ℕ
  approx_size r = (r.head + (2 ^ 64 - r.tail)) % 2 ^ 64
