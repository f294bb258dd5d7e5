-- ===== src/Tests/Orders.antt =====
-- An order of 100 that is filled in two parts.
use ouchservice.Prelude.{ℕ, ◌≡◌, refl, List, [], ◌∷◌, arith, codes, some, bytes_eq_instance, lookup}
use ouchservice.Prelude.Int.{pos}
use ouchservice.Core.Types.{Side, TimeInForce}
use ouchservice.Domain.OrderBook.{OrderBook, OrderState, OrderStatus, find}
use ouchservice.Domain.OrderBook.Events.{Event, handle_all}
use ouchservice.Domain.OrderBook.Fills.{fills, IsFilled, find-fills}
use ouchservice.Domain.OrderBook.Valid.{AllValid, Entry, replay, replay-AllValid}

abbrev token : List ℕ
token = codes "30"

abbrev order : OrderState
order = record {
  symbol = codes "ACSEL";
  side = Side.buy;
  original_qty = pos 100;
  leaves = pos 100;
  executed = pos 0;
  price = pos 6000;
  tif = TimeInForce.day;
  order_id = 7;
  status = OrderStatus.on_book;
}

abbrev book : OrderBook
book = (token, order) ∷ []

find-fills_example :
    (after : OrderState) × (find token (handle_all token (fills (40 ∷ 60 ∷ [])) book) ≡ some after)
    × IsFilled 100 0 (40 ∷ 60 ∷ []) order after
find-fills_example =
    find-fills token (40 ∷ 60 ∷ []) book order 100 0 (unfold find lookup in refl) refl refl
      (omega arith)

-- One order is accepted, filled in part and canceled; another is entered and filled beyond its quantity.
abbrev history : List (List ℕ × Entry)
history =
    (token, Entry.entered order)
    ∷ (token, Entry.reported (Event.accept 7 (pos 100)))
    ∷ (codes "31", Entry.entered order)
    ∷ (token, Entry.reported (Event.execute (pos 40)))
    ∷ (codes "31", Entry.reported (Event.execute (pos 140)))
    ∷ (token, Entry.reported Event.cancel)
    ∷ []

empty-AllValid : AllValid []
unfolding find lookup
empty-AllValid k = tt

replay-AllValid_example : AllValid (replay history [])
replay-AllValid_example =
    replay-AllValid history []
      (
        (omega arith, λ e. ground (arith, e)),
        (
          omega arith,
          ((omega arith, λ e. ground (arith, e)), (omega arith, (omega arith, (tt, tt)))),
        ),
      )
      empty-AllValid
