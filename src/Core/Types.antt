-- ===== src/Core/Types.antt =====
-- include/bist/core/types.hpp and result.hpp: the enumerations with their wire values, and errors.
use ouchservice.Prelude.{ℕ, Bool, ◌||◌, List, [], String, ◌==◌, if◌then◌else◌}

-- A value of the enumeration is any byte: one that has no name is `other`.
pub data Side : Type 0 where
  buy sell short_sell : Side
  other : ℕ → Side

unfoldable pub to_wire : Side → ℕ
to_wire Side.buy = b'B'
to_wire Side.sell = b'S'
to_wire Side.short_sell = b'T'
to_wire (Side.other c) = c

unfoldable pub side_from_wire : ℕ → Side
side_from_wire c =
    if c == b'B'
    then Side.buy
    else if c == b'S'
    then Side.sell
    else if c == b'T'
    then Side.short_sell
    else Side.other c

pub data TimeInForce : Type 0 where
  day immediate_or_cancel fill_or_kill : TimeInForce

unfoldable pub time_in_force_byte : TimeInForce → ℕ
time_in_force_byte TimeInForce.day = 0
time_in_force_byte TimeInForce.immediate_or_cancel = 3
time_in_force_byte TimeInForce.fill_or_kill = 4

-- `ReplaceKeep` has the value of `DefaultForAccount`, so it is the same enumerator.
pub data OpenClose : Type 0 where
  default_for_account opened close_net replace_default : OpenClose

abbrev pub replace_keep : OpenClose
replace_keep = OpenClose.default_for_account

unfoldable pub open_close_byte : OpenClose → ℕ
open_close_byte OpenClose.default_for_account = 0
open_close_byte OpenClose.opened = 1
open_close_byte OpenClose.close_net = 2
open_close_byte OpenClose.replace_default = 4

unfoldable pub is_valid_open_close_for_enter : ℕ → Bool
is_valid_open_close_for_enter v = v == 0 || v == 1 || v == 2

unfoldable pub is_valid_open_close_for_replace : ℕ → Bool
is_valid_open_close_for_replace v = v == 0 || v == 4

pub data ClientCategory : Type 0 where
  client house fund investment_trust primary_dealer_govt primary_dealer_corp portfolio_mgmt :
      ClientCategory

unfoldable pub client_category_byte : ClientCategory → ℕ
client_category_byte ClientCategory.client = 1
client_category_byte ClientCategory.house = 2
client_category_byte ClientCategory.fund = 7
client_category_byte ClientCategory.investment_trust = 9
client_category_byte ClientCategory.primary_dealer_govt = 10
client_category_byte ClientCategory.primary_dealer_corp = 11
client_category_byte ClientCategory.portfolio_mgmt = 12

pub data ErrorCategory : Type 0 where
  io protocol validation reject timeout throttled state_mismatch unsupported : ErrorCategory

-- `struct Error`. The detail is a literal text and the bytes that the code appends to it; the code
-- is 0 wherever `make_error` is called here.
pub record Error : Type 0 where
  pub category : ErrorCategory
  pub detail : String
  pub appended : List ℕ

abbrev pub make_error : ErrorCategory → String → Error
make_error category detail = record { category = category; detail = detail; appended = [] }

-- `Result<T>`; `Result<void>` is a `Result` of the one-element type.
pub data Result {ℓ} (A : Type ℓ) : Type ℓ where
  ok : A → Result A
  err : Error → Result A
