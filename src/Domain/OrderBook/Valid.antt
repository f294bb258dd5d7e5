-- ===== src/Domain/OrderBook/Valid.antt =====
-- The invariant of the order book.
use ouchservice.Prelude.{
  ℕ, ◌≡◌, List, [], ◌∷◌, none, some, arith, Option, lookup, lookup-insert, bytes_eq,
  bytes_eq_instance, Bool, true, false, ◌≢◌, if◌then◌else◌,
}
use mathlib.Core.Option.{map}
use ouchservice.Prelude.Int.{pos, ◌+ℤ◌, ◌-ℤ◌, ◌≤ℤ◌}
use ouchservice.Domain.OrderBook.{OrderBook, OrderState, OrderStatus, enter, find}
use ouchservice.Domain.OrderBook.Events.{Event, apply_event, handle, find-handle}

-- The open quantity is never negative, for any event that reports no negative quantity.
abbrev pub IsReport : Event → Type 0
IsReport (Event.accept id open_qty) = pos 0 ≤ℤ open_qty
IsReport (Event.execute traded) = pos 0 ≤ℤ traded
IsReport Event.cancel = Unit

-- An order off the book has nothing left.
pub record IsValid (s : OrderState) : Type 0 where
  pub open_qty : pos 0 ≤ℤ s.leaves
  pub off_book : s.status ≡ OrderStatus.not_on_book → s.leaves ≡ pos 0

pub apply_event-IsValid :
    (e : Event) (s : OrderState) → IsReport e → IsValid s → IsValid (apply_event e s)
unfolding apply_event ◌+ℤ◌ ◌-ℤ◌
apply_event-IsValid (Event.accept id q) s h v = ground arith
apply_event-IsValid (Event.execute q) s h v = ground arith
apply_event-IsValid Event.cancel s h v = ground arith

-- What is found under a token, if anything, is valid.
abbrev pub FoundValid : Option OrderState → Type 0
FoundValid none = Unit {0}
FoundValid (some s) = IsValid s

-- Every order of the book is valid.
abbrev pub AllValid : OrderBook → Type 0
AllValid book = (token : List ℕ) → FoundValid (find token book)

apply_event-FoundValid :
    (e : Event) (b : Bool) (o : Option OrderState)
    → IsReport e
    → FoundValid o
    → FoundValid (if b then map (apply_event e) o else o)
apply_event-FoundValid e true none h v = tt
apply_event-FoundValid e true (some s) h v = apply_event-IsValid e s h v
apply_event-FoundValid e false o h v = v

-- A report keeps every order valid, and so does a new order with no negative quantity.
pub handle-AllValid :
    (k : List ℕ) (e : Event) (book : OrderBook)
    → IsReport e
    → AllValid book
    → AllValid (handle k e book)
handle-AllValid k e book h v j =
    rw (find-handle j k e book) (apply_event-FoundValid e (bytes_eq k j) (find j book) h (v j))

pub enter-AllValid :
    (k : List ℕ) (s : OrderState) (book : OrderBook)
    → pos 0 ≤ℤ s.original_qty
    → s.status ≢ OrderStatus.not_on_book
    → AllValid book
    → AllValid (enter k s book)
unfolding enter find
enter-AllValid k s book h st v j = rw (lookup-insert k j entered book) (split (bytes_eq k j))
  where
    entered : OrderState
    entered = record s { leaves = s.original_qty }

    split : (b : Bool) → FoundValid (if b then some entered else lookup j book)
    split true = record { open_qty = h; off_book = λ e. absurd (st e) }
    split false = v j

-- What happens to a book under a token: an order is entered, or reported about.
pub data Entry : Type 0 where
  entered : OrderState → Entry
  reported : Event → Entry

abbrev pub IsEntry : Entry → Type 0
IsEntry (Entry.entered s) = (pos 0 ≤ℤ s.original_qty) × (s.status ≢ OrderStatus.not_on_book)
IsEntry (Entry.reported e) = IsReport e

abbrev pub AllEntries : List (List ℕ × Entry) → Type 0
AllEntries [] = Unit
AllEntries ((k, e) ∷ es) = IsEntry e × AllEntries es

unfoldable pub apply_entry : List ℕ → Entry → OrderBook → OrderBook
apply_entry k (Entry.entered s) book = enter k s book
apply_entry k (Entry.reported e) book = handle k e book

unfoldable pub replay : List (List ℕ × Entry) → OrderBook → OrderBook
unfolding apply_entry
replay [] book = book
replay ((k, e) ∷ es) book = replay es (apply_entry k e book)

apply_entry-AllValid :
    (k : List ℕ) (e : Entry) (book : OrderBook)
    → IsEntry e
    → AllValid book
    → AllValid (apply_entry k e book)
unfolding apply_entry
apply_entry-AllValid k (Entry.entered s) book h v = enter-AllValid k s book h.0 h.1 v
apply_entry-AllValid k (Entry.reported e) book h v = handle-AllValid k e book h v

-- Along every history of new orders, with no negative quantity and a status on the book, and of reports
-- about any orders in any order, with no negative quantity, the book stays valid: no order of it has a
-- negative open quantity, and one that is off the book has nothing left.
pub replay-AllValid :
    (es : List (List ℕ × Entry)) (book : OrderBook)
    → AllEntries es
    → AllValid book
    → AllValid (replay es book)
unfolding replay
replay-AllValid [] book h v = v
replay-AllValid ((k, e) ∷ es) book h v =
    replay-AllValid es (apply_entry k e book) h.1 (apply_entry-AllValid k e book h.0 v)
