-- ===== src/Core/Ring/Threads/Orderly.antt =====
-- The invariant of the two threads, and each step of theirs.
use ouchservice.Prelude.{
  ℕ, suc, ◌+◌, ◌-◌, ◌%◌, ◌^◌, ◌≤◌, ◌<◌, ◌≡◌, refl, true, false, List, [], ◌∷◌, ◌++◌, ◌==◌, ltb,
  length, length-append, arith, ap, sym, ◌∙◌, dec_lt, subst, append_assoc, append-nil,
}
use ouchservice.Core.Ring.{SpscRing, stored}
use ouchservice.Core.Ring.Index.{index_wrapped, capacity_bounds}
use ouchservice.Core.Ring.Slots.{Slots, Slots-stored}
use ouchservice.Core.Ring.Threads.{Producer, Consumer, Threads, producer_step, call, consumer_step}

module _ {A : Type 0} where
  -- What stands behind the queue's end, and the room that the thread has found.
  abbrev pub pending : Producer A → List A
  pending Producer.idle = []
  pending (Producer.tested v) = []
  pending (Producer.written v) = v ∷ []

  abbrev pub Room : ℕ → List A → Producer A → Type 0
  Room k q Producer.idle = length q ≤ 2 ^ k
  Room k q (Producer.tested v) = length q < 2 ^ k
  Room k q (Producer.written v) = length q < 2 ^ k

  -- What the thread has found at the front of the queue.
  abbrev pub Front : List A → Consumer A → Type 0
  Front q Consumer.waiting = Unit
  Front [] Consumer.ready = ⊥
  Front (x ∷ q) Consumer.ready = Unit
  Front [] (Consumer.holding v) = ⊥
  Front (x ∷ q) (Consumer.holding v) = x ≡ v

  pub record IsOrderly (k t : ℕ) (q : List A) (s : Threads A) : Type 0 where
    pub head_at : s.ring.head ≡ (t + length q) % 2 ^ 64
    pub tail_at : s.ring.tail ≡ t % 2 ^ 64
    pub room : Room k q s.producer
    pub slots : Slots k s.ring.storage t (q ++ pending s.producer)
    pub front : Front q s.consumer
    pub fifo : s.accepted ≡ s.delivered ++ q

  abbrev pub Orderly : ℕ → Threads A → Type 0
  Orderly k s = (t : ℕ) × (q : List A) × IsOrderly k t q s

  -- The state of the threads from its parts.
  abbrev pub threads : SpscRing A → Producer A → Consumer A → List A → List A → Threads A
  threads r p c accepted delivered = record {
    ring = r;
    producer = p;
    consumer = c;
    accepted = accepted;
    delivered = delivered;
  }

  pub call-Orderly :
      (k : ℕ) (v : A) (r : SpscRing A) (p : Producer A) (c : Consumer A) (acc del : List A)
      → k ≤ 63
      → Orderly k (threads r p c acc del)
      → Orderly k (call k v p (threads r p c acc del))
  unfolding call
  call-Orderly k v r Producer.idle c acc del h (t, q, o) =
      let few = (capacity_bounds k h).1 in
      let gap : ((r.head + 1) % 2 ^ 64 + (2 ^ 64 - r.tail)) % 2 ^ 64 ≡ suc (length q) =
        omega (arith, o.head_at, o.tail_at, o.room, few) in
      elim (dec_lt (length q) (2 ^ k)) [
        | yes free ↦
            let test : ltb (2 ^ k) (suc (length q)) ≡ false = ground (arith, free) in
            rw (gap, test)
              (
                t,
                q,
                record {
                  head_at = o.head_at;
                  tail_at = o.tail_at;
                  room = free;
                  slots = o.slots;
                  front = o.front;
                  fifo = o.fifo;
                },
              )
        | no full ↦
            let test : ltb (2 ^ k) (suc (length q)) ≡ true = ground (arith, full) in
            rw (gap, test) (t, q, o)
      ]
  call-Orderly k v r (Producer.tested w) c acc del h o = o
  call-Orderly k v r (Producer.written w) c acc del h o = o

  Front-append : (q : List A) (v : A) (c : Consumer A) → Front q c → Front (q ++ (v ∷ [])) c
  Front-append q v Consumer.waiting h = tt
  Front-append [] v Consumer.ready h = absurd h
  Front-append [] v (Consumer.holding w) h = absurd h
  Front-append (x ∷ q) v Consumer.ready h = tt
  Front-append (x ∷ q) v (Consumer.holding w) h = h

  pub producer_step-Orderly :
      (k : ℕ) (r : SpscRing A) (p : Producer A) (c : Consumer A) (acc del : List A)
      → k ≤ 63
      → Orderly k (threads r p c acc del)
      → Orderly k (producer_step k p (threads r p c acc del))
  unfolding producer_step
  producer_step-Orderly k r Producer.idle c acc del h o = o
  producer_step-Orderly k r (Producer.tested v) c acc del h (t, q, o) =
      let at : r.head % 2 ^ k ≡ (t + length q) % 2 ^ k =
        ap (λ (n : ℕ). n % 2 ^ k) o.head_at ∙ index_wrapped k (t + length q) h in
      let before : Slots k r.storage t q =
        subst (λ (xs : List A). Slots k r.storage t xs) (append-nil q) o.slots in
      (
        t,
        q,
        record {
          head_at = o.head_at;
          tail_at = o.tail_at;
          room = o.room;
          slots =
              subst (λ (i : ℕ). Slots k (stored r.storage i v) t (q ++ (v ∷ []))) (sym at)
                (Slots-stored k t (t + length q) r.storage q v refl (omega (arith, o.room)) before);
          front = o.front;
          fifo = o.fifo;
        },
      )
  producer_step-Orderly k r (Producer.written v) c acc del h (t, q, o) =
      let longer : length (q ++ (v ∷ [])) ≡ length q + 1 = length-append q (v ∷ []) in
      (
        t,
        q ++ (v ∷ []),
        record {
          head_at = omega (arith, o.head_at, longer);
          tail_at = o.tail_at;
          room = omega (arith, o.room, longer);
          slots =
              subst (λ (xs : List A). Slots k r.storage t xs) (sym (append-nil (q ++ (v ∷ []))))
                o.slots;
          front = Front-append q v c o.front;
          fifo = ap (λ xs. xs ++ (v ∷ [])) o.fifo ∙ append_assoc del q (v ∷ []);
        },
      )

  pub Room-bound : (k : ℕ) (q : List A) (p : Producer A) → Room k q p → length q ≤ 2 ^ k
  Room-bound k q Producer.idle h = h
  Room-bound k q (Producer.tested v) h = omega (arith, h)
  Room-bound k q (Producer.written v) h = omega (arith, h)

  Room-tail : (k : ℕ) (x : A) (q : List A) (p : Producer A) → Room k (x ∷ q) p → Room k q p
  Room-tail k x q Producer.idle h = omega (arith, h)
  Room-tail k x q (Producer.tested v) h = omega (arith, h)
  Room-tail k x q (Producer.written v) h = omega (arith, h)

  pub consumer_step-Orderly :
      (k : ℕ) (r : SpscRing A) (p : Producer A) (c : Consumer A) (acc del : List A)
      → k ≤ 63
      → Orderly k (threads r p c acc del)
      → Orderly k (consumer_step k c (threads r p c acc del))
  unfolding consumer_step
  consumer_step-Orderly k r p Consumer.waiting acc del h (t, [], o) =
      let drained : (r.tail == r.head) ≡ true = ground (arith, o.head_at, o.tail_at) in
      rw drained (t, [], o)
  consumer_step-Orderly k r p Consumer.waiting acc del h (t, x ∷ q, o) =
      let few = (capacity_bounds k h).1 in
      let bound = Room-bound k (x ∷ q) p o.room in
      let filled : (r.tail == r.head) ≡ false = ground (arith, o.head_at, o.tail_at, bound, few) in
      rw filled (
        t,
        x ∷ q,
        record {
          head_at = o.head_at;
          tail_at = o.tail_at;
          room = o.room;
          slots = o.slots;
          front = tt;
          fifo = o.fifo;
        },
      )
  consumer_step-Orderly k r p Consumer.ready acc del h (t, [], o) = absurd o.front
  consumer_step-Orderly k r p Consumer.ready acc del h (t, x ∷ q, o) =
      let at : r.tail % 2 ^ k ≡ t % 2 ^ k =
        ap (λ (n : ℕ). n % 2 ^ k) o.tail_at ∙ index_wrapped k t h in
      (
        t,
        x ∷ q,
        record {
          head_at = o.head_at;
          tail_at = o.tail_at;
          room = o.room;
          slots = o.slots;
          front = sym (ap r.storage at ∙ o.slots.0);
          fifo = o.fifo;
        },
      )
  consumer_step-Orderly k r p (Consumer.holding v) acc del h (t, [], o) = absurd o.front
  consumer_step-Orderly k r p (Consumer.holding v) acc del h (t, x ∷ q, o) = (
    suc t,
    q,
    record {
      head_at = o.head_at ∙ omega arith;
      tail_at = omega (arith, o.tail_at);
      room = Room-tail k x q p o.room;
      slots = o.slots.1;
      front = tt;
      fifo = o.fifo ∙ ap (λ y. del ++ (y ∷ q)) o.front ∙ sym (append_assoc del (v ∷ []) q);
    },
  )
