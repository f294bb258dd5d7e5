-- ===== src/Domain/OrderBook.antt =====
-- include/bist/domain/order_book.hpp: the client's view of the orders it has entered, by token.
-- Quantities are int64 values, here integers: the source adds and subtracts them with no check, and
-- an overflow is undefined there.
pub mod Events
pub mod Fills
pub mod Valid
use ouchservice.Prelude.{
  ℕ, ◌==◌, Bool, true, false, List, [], Option, none, some, lookup, insert, if◌then◌else◌,
  bytes_eq_instance,
}
use ouchservice.Prelude.Int.{ℤ, pos, negsuc, ◌+ℤ◌, ◌-ℤ◌, ltb_ℤ}
use ouchservice.Core.Types.{Side, TimeInForce}

pub data OrderStatus : Type 0 where
  pending on_book replacing canceling not_on_book rejected : OrderStatus

pub record OrderState : Type 0 where
  pub symbol : List ℕ
  pub side : Side
  pub original_qty : ℤ
  pub leaves : ℤ
  pub executed : ℤ
  pub price : ℤ
  pub tif : TimeInForce
  pub order_id : ℕ
  pub status : OrderStatus

abbrev pub OrderBook : Type 0
OrderBook = List (List ℕ × OrderState)

-- `OrderBook::insert`
unfoldable pub enter : List ℕ → OrderState → OrderBook → OrderBook
enter token s book = insert token (record s { leaves = s.original_qty }) book

unfoldable pub find : List ℕ → OrderBook → Option OrderState
find token book = lookup token book

-- What a caller of `find_mut` does to the order, if there is one.
unfoldable pub find_mut : List ℕ → (OrderState → OrderState) → OrderBook → OrderBook
find_mut token change book = elim (lookup token book) [
  | none ↦ book
  | some s ↦ insert token (change s) book
]

abbrev pub max_zero : ℤ → ℤ
max_zero q = if ltb_ℤ (pos 0) q then q else pos 0

abbrev pub is_zero : ℤ → Bool
is_zero (pos n) = n == 0
is_zero (negsuc n) = false

abbrev pub accepted : ℕ → ℤ → OrderState → OrderState
accepted id open_qty s = record s { order_id = id; leaves = open_qty; status = OrderStatus.on_book }

abbrev pub filled : ℤ → OrderState → OrderState
filled traded s =
    let leaves' = max_zero (s.leaves -ℤ traded) in
    record s {
      executed = s.executed +ℤ traded;
      leaves = leaves';
      status = if is_zero leaves' then OrderStatus.not_on_book else s.status;
    }

abbrev pub gone : OrderState → OrderState
gone s = record s { leaves = pos 0; status = OrderStatus.not_on_book }

unfoldable pub on_accepted : List ℕ → ℕ → ℤ → OrderBook → OrderBook
unfolding find_mut
on_accepted token id open_qty book = find_mut token (accepted id open_qty) book

unfoldable pub on_executed : List ℕ → ℤ → OrderBook → OrderBook
unfolding find_mut ◌+ℤ◌ ◌-ℤ◌
on_executed token traded book = find_mut token (filled traded) book

unfoldable pub on_canceled : List ℕ → OrderBook → OrderBook
unfolding find_mut
on_canceled token book = find_mut token gone book

unfoldable pub expected_leaves : ℤ → ℤ → ℤ
unfolding ◌-ℤ◌
expected_leaves new_total_qty already_executed =
    let diff = new_total_qty -ℤ already_executed in if ltb_ℤ diff (pos 0) then pos 0 else diff
