-- ===== src/Core/Ring/Slots.antt =====
-- The queue that a ring holds, and each operation on it.
use ouchservice.Prelude.{
  ℕ, suc, ◌+◌, ◌-◌, ◌%◌, ◌^◌, ◌≤◌, ◌<◌, ◌≡◌, ◌≢◌, refl, true, false, List, [], ◌∷◌, ◌++◌, none,
  some, ◌==◌, ltb, length, length-append, arith, ap, sym, ◌∙◌, subst,
}
use ouchservice.Core.Ring.{SpscRing, stored, try_push, try_pop, empty, approx_size}
use ouchservice.Core.Ring.Index.{apart, index_wrapped, capacity_bounds}

module _ {A : Type 0} where
  -- The slots from the counter `t` on hold the elements of the queue.
  abbrev pub Slots : ℕ → (ℕ → A) → ℕ → List A → Type 0
  Slots k storage t [] = Unit
  Slots k storage t (x ∷ q) = (storage (t % 2 ^ k) ≡ x) × Slots k storage (suc t) q

  -- The ring holds the queue, after `t` elements have been taken from it.
  pub record Stands (k t : ℕ) (q : List A) (r : SpscRing A) : Type 0 where
    pub head_at : r.head ≡ (t + length q) % 2 ^ 64
    pub tail_at : r.tail ≡ t % 2 ^ 64
    pub fits : length q ≤ 2 ^ k
    pub slots : Slots k r.storage t q

  pub Slots-stored :
      (k t e : ℕ) (storage : ℕ → A) (q : List A) (v : A)
      → t + length q ≡ e
      → e < t + 2 ^ k
      → Slots k storage t q
      → Slots k (stored storage (e % 2 ^ k) v) t (q ++ (v ∷ []))
  unfolding stored
  Slots-stored k t e storage [] v at small h = (
    let here : t % 2 ^ k ≡ e % 2 ^ k =
          ap (λ (n : ℕ). n % 2 ^ k) {x = t} {y = e} (omega (arith, at)) in
        ground (arith, here),
    tt,
  )
  Slots-stored k t e storage (x ∷ q) v at small h = (
    let elsewhere : t % 2 ^ k ≢ e % 2 ^ k =
          subst (λ (n : ℕ). t % 2 ^ k ≢ n % 2 ^ k) {x = t + (e - t)} {y = e} (omega (arith, at))
            (apart t (e - t) (2 ^ k) (omega (arith, at)) (omega (arith, at, small))) in
        ground (arith, elsewhere, h.0),
    Slots-stored k (suc t) e storage q v (omega (arith, at)) (omega (arith, small, at)) h.1,
  )

  -- The ring after a push, and after a pop.
  abbrev pub after_push : ℕ → A → SpscRing A → SpscRing A
  after_push k v r = record r {
    storage = stored r.storage (r.head % 2 ^ k) v;
    head = (r.head + 1) % 2 ^ 64;
  }

  abbrev pub after_pop : SpscRing A → SpscRing A
  after_pop r = record r { tail = (r.tail + 1) % 2 ^ 64 }

  push_gap :
      {k t : ℕ} {q : List A} {r : SpscRing A}
      → k ≤ 63
      → Stands k t q r
      → ((r.head + 1) % 2 ^ 64 + (2 ^ 64 - r.tail)) % 2 ^ 64 ≡ suc (length q)
  push_gap {k} h s =
      let few = (capacity_bounds k h).1 in omega (arith, s.head_at, s.tail_at, s.fits, few)

  pub try_push-room :
      {k t : ℕ} {q : List A} {r : SpscRing A} (v : A)
      → k ≤ 63
      → Stands k t q r
      → length q < 2 ^ k
      → try_push k v r ≡ (true, after_push k v r)
  unfolding try_push
  try_push-room {k} {q = q} v h s room =
      let free : ltb (2 ^ k) (suc (length q)) ≡ false = ground (arith, room) in
      rw (push_gap h s, free) refl

  pub try_push-full :
      {k t : ℕ} {q : List A} {r : SpscRing A} (v : A)
      → k ≤ 63
      → Stands k t q r
      → 2 ^ k ≤ length q
      → try_push k v r ≡ (false, r)
  unfolding try_push
  try_push-full {k} {q = q} v h s full =
      let over : ltb (2 ^ k) (suc (length q)) ≡ true = ground (arith, full) in
      rw (push_gap h s, over) refl

  pub Stands-pushed :
      {k t : ℕ} {q : List A} {r : SpscRing A} (v : A)
      → k ≤ 63
      → Stands k t q r
      → length q < 2 ^ k
      → Stands k t (q ++ (v ∷ [])) (after_push k v r)
  Stands-pushed {k} {t} {q} {r} v h s room =
      let longer : length (q ++ (v ∷ [])) ≡ length q + 1 = length-append q (v ∷ []) in
      let at : r.head % 2 ^ k ≡ (t + length q) % 2 ^ k =
        ap (λ (n : ℕ). n % 2 ^ k) s.head_at ∙ index_wrapped k (t + length q) h in
      record {
        head_at = omega (arith, s.head_at, longer);
        tail_at = s.tail_at;
        fits = omega (arith, room, longer);
        slots =
            subst (λ (i : ℕ). Slots k (stored r.storage i v) t (q ++ (v ∷ []))) (sym at)
              (Slots-stored k t (t + length q) r.storage q v refl (omega (arith, room)) s.slots);
      }

  pub try_pop-first :
      {k t : ℕ} {x : A} {q : List A} {r : SpscRing A}
      → k ≤ 63
      → Stands k t (x ∷ q) r
      → try_pop k r ≡ (some x, after_pop r)
  unfolding try_pop
  try_pop-first {k} {t} {x} {q} {r} h s =
      let few = (capacity_bounds k h).1 in
      let filled : (r.tail == r.head) ≡ false = ground (arith, s.head_at, s.tail_at, s.fits, few) in
      let at : r.tail % 2 ^ k ≡ t % 2 ^ k =
        ap (λ (n : ℕ). n % 2 ^ k) s.tail_at ∙ index_wrapped k t h in
      rw (filled, at, s.slots.0) refl

  pub Stands-taken :
      {k t : ℕ} {x : A} {q : List A} {r : SpscRing A}
      → Stands k t (x ∷ q) r
      → Stands k (suc t) q (after_pop r)
  Stands-taken {t = t} {q = q} s = record {
    head_at = s.head_at ∙ omega arith;
    tail_at = omega (arith, s.tail_at);
    fits = omega (arith, s.fits);
    slots = s.slots.1;
  }

  pub try_pop-drained : {k t : ℕ} {r : SpscRing A} → Stands k t [] r → try_pop k r ≡ (none, r)
  unfolding try_pop
  try_pop-drained {r = r} s =
      let drained : (r.tail == r.head) ≡ true = ground (arith, s.head_at, s.tail_at) in
      rw drained refl

  pub approx_size-length :
      {k t : ℕ} {q : List A} {r : SpscRing A} → k ≤ 63 → Stands k t q r → approx_size r ≡ length q
  unfolding approx_size
  approx_size-length {k} h s =
      let few = (capacity_bounds k h).1 in omega (arith, s.head_at, s.tail_at, s.fits, few)

  pub empty-length :
      {k t : ℕ} {q : List A} {r : SpscRing A} → k ≤ 63 → Stands k t q r → empty r ≡ (length q == 0)
  unfolding empty
  empty-length {k} {q = []} {r} h s =
      let same : (r.head == r.tail) ≡ true = ground (arith, s.head_at, s.tail_at) in rw same refl
  empty-length {k} {q = x ∷ q} {r} h s =
      let few = (capacity_bounds k h).1 in
      let differ : (r.head == r.tail) ≡ false = ground (arith, s.head_at, s.tail_at, s.fits, few) in
      let some_left : (suc (length q) == 0) ≡ false = ground arith in rw (differ, some_left) refl
