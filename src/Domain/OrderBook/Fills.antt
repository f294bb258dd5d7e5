-- ===== src/Domain/OrderBook/Fills.antt =====
-- A run of fills of one order.
use ouchservice.Prelude.{
  ℕ, ◌+◌, ◌-◌, ◌≤◌, ◌==◌, Bool, false, ◌≡◌, refl, ◌∙◌, ap, List, [], ◌∷◌, some, arith,
  if◌then◌else◌, bytes_eq_iff, bytes_eq_instance,
}
use ouchservice.Prelude.Int.{pos, ◌+ℤ◌, ◌-ℤ◌}
use ouchservice.Domain.OrderBook.{OrderBook, OrderState, OrderStatus, find, filled}
use ouchservice.Domain.OrderBook.Events.{Event, apply_event, handle, handle_all, find-handle}

abbrev pub fills : List ℕ → List Event
fills [] = []
fills (t ∷ ts) = Event.execute (pos t) ∷ fills ts

abbrev pub sum : List ℕ → ℕ
sum [] = 0
sum (t ∷ ts) = t + sum ts

-- One fill of an order that has at least as much left.
filled_within :
    (s : OrderState) (t q done : ℕ)
    → s.leaves ≡ pos q
    → s.executed ≡ pos done
    → t ≤ q
    → ((filled (pos t) s).leaves ≡ pos (q - t))
      × ((filled (pos t) s).executed ≡ pos (done + t))
      × ((filled (pos t) s).status ≡ (if q - t == 0 then OrderStatus.not_on_book else s.status))
unfolding ◌+ℤ◌ ◌-ℤ◌
filled_within s t q done hl he h = ground arith

abbrev pub is_complete : ℕ → List ℕ → Bool
is_complete q [] = false
is_complete q (t ∷ ts) = sum (t ∷ ts) == q

-- What has become of an order with `q` left and `done` executed.
pub record IsFilled (q done : ℕ) (ts : List ℕ) (before after : OrderState) : Type 0 where
  pub left : after.leaves ≡ pos (q - sum ts)
  pub taken : after.executed ≡ pos (done + sum ts)
  pub status : after.status ≡ (if is_complete q ts then OrderStatus.not_on_book else before.status)

-- A fill, then the others.
IsFilled-first :
    (s next after : OrderState) (t q done : ℕ) (ts : List ℕ)
    → t + sum ts ≤ q
    → next.status ≡ (if q - t == 0 then OrderStatus.not_on_book else s.status)
    → IsFilled (q - t) (done + t) ts next after
    → IsFilled q done (t ∷ ts) s after
IsFilled-first s next after t q done [] room st f = record {
  left = f.left ∙ ap pos (omega arith);
  taken = f.taken ∙ ap pos (omega arith);
  status = f.status ∙ ground arith;
}
IsFilled-first s next after t q done (u ∷ us) room st f = record {
  left = f.left ∙ ap pos (omega arith);
  taken = f.taken ∙ ap pos (omega arith);
  status = f.status ∙ ground arith;
}

-- Fills that add up to at most the open quantity leave the difference, count as executed, take the
-- order off the book when they have filled all of it, and else keep its status.
pub find-fills :
    (token ts : List ℕ) (book : OrderBook) (s : OrderState) (q done : ℕ)
    → find token book ≡ some s
    → s.leaves ≡ pos q
    → s.executed ≡ pos done
    → sum ts ≤ q
    → (after : OrderState) × (find token (handle_all token (fills ts) book) ≡ some after)
      × IsFilled q done ts s after
unfolding handle_all
find-fills token [] book s q done found hl he room = (
  s,
  found,
  record { left = hl ∙ ap pos (omega arith); taken = he ∙ ap pos (omega arith); status = refl },
)
find-fills token (t ∷ ts) book s q done found hl he room =
    let (l, x, st) = filled_within s t q done hl he (omega arith) in
    let seen : find token (handle token (Event.execute (pos t)) book) ≡ some (filled (pos t) s) =
      find-handle token token (Event.execute (pos t)) book
      ∙ unfold apply_event in ground (arith, bytes_eq_iff token token, found) in
    let (after, e, f) =
      find-fills token ts (handle token (Event.execute (pos t)) book) (filled (pos t) s) (q - t)
        (done + t) seen l x (omega arith) in
    (after, e, IsFilled-first s (filled (pos t) s) after t q done ts room st f)
