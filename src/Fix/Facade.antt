-- ===== src/Fix/Facade.antt =====
-- include/bist/fix/facade.hpp: the arguments, the events and the states. The clients stand on a FIX
-- engine that is not part of the repository: each is a record of functions on the state `W` of that
-- engine.
use ouchservice.Prelude.{ℕ, Bool, List}
use ouchservice.Prelude.Int.{ℤ}
use ouchservice.Core.Types.{Side, TimeInForce, Result}

pub data OrdType : Type 0 where
  limit market market_to_limit imbalance midpoint_limit midpoint_market : OrdType

pub data FixCategory : Type 0 where
  client house fund portfolio : FixCategory

pub record PlaceArgs : Type 0 where
  pub cl_ord_id : List ℕ
  pub symbol : List ℕ
  pub side : Side
  pub quantity : ℤ
  pub price : ℤ
  pub price_decimals : ℕ
  pub ord_type : OrdType
  pub tif : TimeInForce
  pub category : FixCategory
  pub account : List ℕ
  pub afk : List ℕ
  pub display_quantity : ℤ

pub record CancelArgs : Type 0 where
  pub cl_ord_id : List ℕ
  pub orig_cl_ord_id : List ℕ
  pub symbol : List ℕ
  pub side : Side
  pub quantity : ℤ

pub record ReplaceArgs : Type 0 where
  pub cl_ord_id : List ℕ
  pub orig_cl_ord_id : List ℕ
  pub symbol : List ℕ
  pub side : Side
  pub new_quantity : ℤ
  pub new_price : ℤ
  pub price_decimals : ℕ
  pub ord_type : OrdType

pub record TradeReportArgs : Type 0 where
  pub trade_report_id : List ℕ
  pub trade_report_ref_id : List ℕ
  pub symbol : List ℕ
  pub side : Side
  pub quantity : ℤ
  pub price : ℤ
  pub price_decimals : ℕ
  pub counterparty_id : List ℕ
  pub two_party_internal : Bool

pub record ExecutionReportEvent : Type 0 where
  pub cl_ord_id : List ℕ
  pub orig_cl_ord_id : List ℕ
  pub exec_id : List ℕ
  pub order_id : List ℕ
  pub symbol : List ℕ
  pub side : Side
  pub exec_type : ℕ
  pub ord_status : ℕ
  pub leaves_qty : ℤ
  pub cum_qty : ℤ
  pub last_qty : ℤ
  pub last_price : ℤ
  pub price_decimals : ℕ
  pub text : List ℕ

pub record CancelRejectEvent : Type 0 where
  pub cl_ord_id : List ℕ
  pub orig_cl_ord_id : List ℕ
  pub text : List ℕ

pub record TradeReportEvent : Type 0 where
  pub trade_report_id : List ℕ
  pub trade_report_ref_id : List ℕ
  pub symbol : List ℕ
  pub side : Side
  pub quantity : ℤ
  pub price : ℤ
  pub price_decimals : ℕ
  pub counterparty_id : List ℕ

pub record QuoteStatusEvent : Type 0 where
  pub quote_id : List ℕ
  pub symbol : List ℕ
  pub side : Side
  pub quote_status : ℕ
  pub leaves_qty : ℤ
  pub price : ℤ
  pub price_decimals : ℕ

pub data FixSessionState : Type 0 where
  disconnected logging_in active password_expired password_changed logged_out failed :
      FixSessionState

unfoldable pub fix_session_state_number : FixSessionState → ℕ
fix_session_state_number FixSessionState.disconnected = 0
fix_session_state_number FixSessionState.logging_in = 1
fix_session_state_number FixSessionState.active = 2
fix_session_state_number FixSessionState.password_expired = 3
fix_session_state_number FixSessionState.password_changed = 4
fix_session_state_number FixSessionState.logged_out = 5
fix_session_state_number FixSessionState.failed = 6

pub record LogonResult : Type 0 where
  pub state : FixSessionState
  pub session_status : ℤ
  pub detail : List ℕ

pub record OeClient (W : Type 0) : Type 0 where
  pub place : PlaceArgs → W → Result (List ℕ) × W
  pub cancel : CancelArgs → W → Result (List ℕ) × W
  pub replace : ReplaceArgs → W → Result (List ℕ) × W
  pub trade_report : TradeReportArgs → W → Result (List ℕ) × W
  pub logout : W → Result (Unit {0}) × W
  pub login : W → Result (Unit {0}) × W
  pub state : W → FixSessionState

pub record RdClient (W : Type 0) : Type 0 where
  pub subscribe_all : List ℕ → W → Result (List ℕ) × W
  pub logout : W → Result (Unit {0}) × W
  pub login : W → Result (Unit {0}) × W
  pub state : W → FixSessionState

pub record DcClient (W : Type 0) : Type 0 where
  pub logout : W → Result (Unit {0}) × W
  pub login : W → Result (Unit {0}) × W
  pub state : W → FixSessionState
