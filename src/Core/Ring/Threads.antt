-- ===== src/Core/Ring/Threads.antt =====
-- include/bist/core/ring_buffer.hpp: try_push and try_pop in the order of their loads and stores, with the
-- steps of the two threads in any order. Each load and store is one step, so that what the acquire and
-- the release order make visible is visible at once.
mod Orderly
pub mod Order
use ouchservice.Prelude.{
  ℕ, ◌+◌, ◌-◌, ◌%◌, ◌^◌, Bool, true, false, List, [], ◌∷◌, ◌++◌, if◌then◌else◌, ◌==◌, ltb,
}
use ouchservice.Core.Ring.{SpscRing, spsc_ring, stored}

-- Where try_push stands: not called, past its test, past the write of the slot.
pub data Producer (A : Type 0) : Type 0 where
  idle : Producer A
  tested : A → Producer A
  written : A → Producer A

-- Where try_pop stands: not called, past its test, past the read of the slot.
pub data Consumer (A : Type 0) : Type 0 where
  waiting : Consumer A
  ready : Consumer A
  holding : A → Consumer A

-- The ring, the two threads, and what has been pushed with `true` and popped so far.
pub record Threads (A : Type 0) : Type 0 where
  pub ring : SpscRing A
  pub producer : Producer A
  pub consumer : Consumer A
  pub accepted : List A
  pub delivered : List A

-- A call of try_push, which has an effect if none is going on; a further step of it; a step of try_pop.
pub data Step (A : Type 0) : Type 0 where
  call_push : A → Step A
  push_on : Step A
  pop_on : Step A

module _ {A : Type 0} where
  abbrev pub is_full : ℕ → SpscRing A → Bool
  is_full k r = ltb (2 ^ k) (((r.head + 1) % 2 ^ 64 + (2 ^ 64 - r.tail)) % 2 ^ 64)

  unfoldable pub producer_step : ℕ → Producer A → Threads A → Threads A
  unfolding stored
  producer_step k Producer.idle s = s
  producer_step k (Producer.tested v) s = record s {
    ring = record s.ring { storage = stored s.ring.storage (s.ring.head % 2 ^ k) v };
    producer = Producer.written v;
  }
  producer_step k (Producer.written v) s = record s {
    ring = record s.ring { head = (s.ring.head + 1) % 2 ^ 64 };
    producer = Producer.idle;
    accepted = s.accepted ++ (v ∷ []);
  }

  unfoldable pub call : ℕ → A → Producer A → Threads A → Threads A
  call k v Producer.idle s =
      if is_full k s.ring then s else record s { producer = Producer.tested v }
  call k v (Producer.tested w) s = s
  call k v (Producer.written w) s = s

  unfoldable pub consumer_step : ℕ → Consumer A → Threads A → Threads A
  consumer_step k Consumer.waiting s =
      if s.ring.tail == s.ring.head then s else record s { consumer = Consumer.ready }
  consumer_step k Consumer.ready s = record s {
    consumer = Consumer.holding (s.ring.storage (s.ring.tail % 2 ^ k));
  }
  consumer_step k (Consumer.holding v) s = record s {
    ring = record s.ring { tail = (s.ring.tail + 1) % 2 ^ 64 };
    consumer = Consumer.waiting;
    delivered = s.delivered ++ (v ∷ []);
  }

  unfoldable pub step : ℕ → Threads A → Step A → Threads A
  unfolding producer_step call consumer_step
  step k s (Step.call_push v) = call k v s.producer s
  step k s Step.push_on = producer_step k s.producer s
  step k s Step.pop_on = consumer_step k s.consumer s

  unfoldable pub interleaved : ℕ → Threads A → List (Step A) → Threads A
  unfolding step
  interleaved k s [] = s
  interleaved k s (x ∷ steps) = interleaved k (step k s x) steps

  abbrev pub new_threads : A → Threads A
  new_threads blank = record {
    ring = spsc_ring blank;
    producer = Producer.idle;
    consumer = Consumer.waiting;
    accepted = [];
    delivered = [];
  }
