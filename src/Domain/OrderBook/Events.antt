-- ===== src/Domain/OrderBook/Events.antt =====
-- What the gateway's reports do to the order that they are about, and to the others.
use ouchservice.Prelude.{
  ℕ, ◌≡◌, List, [], ◌∷◌, arith, lookup, lookup-insert, if◌then◌else◌, bytes_eq, bytes_eq_iff,
  bytes_eq_instance, Option-cases, inl, inr,
}
use ouchservice.Prelude.Int.{ℤ}
use ouchservice.Domain.OrderBook.{
  OrderBook, OrderState, find, find_mut, accepted, filled, gone, on_accepted, on_executed,
  on_canceled,
}
use mathlib.Core.Option

-- A change is seen under its token, and nowhere else.
pub find-find_mut :
    (j k : List ℕ) (f : OrderState → OrderState) (book : OrderBook)
    → find j (find_mut k f book)
      ≡ (if bytes_eq k j then Option.map f (find j book) else find j book)
unfolding find find_mut
find-find_mut j k f book = elim (Option-cases (lookup k book)) [
  | inl e ↦ rw (e, find_mut) (ground (arith, bytes_eq_iff k j, e))
  | inr (s, e) ↦ rw (e, find_mut, lookup-insert) (ground (arith, bytes_eq_iff k j, e))
]

-- The events of one order, as the gateway reports them.
pub data Event : Type 0 where
  accept : ℕ → ℤ → Event
  execute : ℤ → Event
  cancel : Event

unfoldable pub apply_event : Event → OrderState → OrderState
apply_event (Event.accept id open_qty) s = accepted id open_qty s
apply_event (Event.execute traded) s = filled traded s
apply_event Event.cancel s = gone s

unfoldable pub handle : List ℕ → Event → OrderBook → OrderBook
handle token (Event.accept id open_qty) book = on_accepted token id open_qty book
handle token (Event.execute traded) book = on_executed token traded book
handle token Event.cancel book = on_canceled token book

-- Each handler of a report changes the order under its token as the event says, and leaves all others alone.
pub find-handle :
    (j k : List ℕ) (e : Event) (book : OrderBook)
    → find j (handle k e book)
      ≡ (if bytes_eq k j then Option.map (apply_event e) (find j book) else find j book)
unfolding handle apply_event
find-handle j k (Event.accept id q) book =
    unfold on_accepted in find-find_mut j k (accepted id q) book
find-handle j k (Event.execute q) book = unfold on_executed in find-find_mut j k (filled q) book
find-handle j k Event.cancel book = unfold on_canceled in find-find_mut j k gone book

unfoldable pub handle_all : List ℕ → List Event → OrderBook → OrderBook
handle_all token [] book = book
handle_all token (e ∷ es) book = handle_all token es (handle token e book)
