-- ===== src/Runner/Scenario.antt =====
-- include/bist/runner/scenario.hpp: a scenario in memory. A `std::map` is a list of its entries in the
-- order of the keys.
use ouchservice.Prelude.{ℕ, Bool, List, Option}
use ouchservice.Prelude.Int.{ℤ}
use ouchservice.Core.Types.{Side, TimeInForce, ClientCategory}

pub record LoginArgs : Type 0 where
  pub session : List ℕ
  pub sequence : ℕ
  pub password : List ℕ

pub record WaitHeartbeatArgs : Type 0 where
  pub from : List ℕ
  pub count : ℤ
  pub timeout_ms : ℤ

pub record PlaceArgs : Type 0 where
  pub symbol : List ℕ
  pub side : Side
  pub quantity : ℤ
  pub price_str : List ℕ
  pub tif : TimeInForce
  pub category : ClientCategory
  pub client_account : List ℕ
  pub customer_info : List ℕ
  pub exchange_info : List ℕ
  pub token : List ℕ
  pub display_quantity : ℤ

pub record CancelByTokenArgs : Type 0 where
  pub token : List ℕ

pub record CancelByOrderIdArgs : Type 0 where
  pub token_ref : List ℕ

pub record ReplaceArgs : Type 0 where
  pub existing_token : List ℕ
  pub new_token : List ℕ
  pub quantity : ℤ
  pub price_str : List ℕ
  pub category : ClientCategory
  pub client_account : List ℕ
  pub display_quantity : ℤ

pub record QuoteEntrySpec : Type 0 where
  pub symbol : List ℕ
  pub bid_px : List ℕ
  pub bid_size : ℤ
  pub offer_px : List ℕ
  pub offer_size : ℤ

pub record MassQuoteArgs : Type 0 where
  pub token : List ℕ
  pub category : ClientCategory
  pub afk : List ℕ
  pub exchange_info : List ℕ
  pub entries : List QuoteEntrySpec

pub record SwitchGatewayArgs : Type 0 where
  pub tag : List ℕ

pub record BurstPlacePatternEntry : Type 0 where
  pub symbol : List ℕ
  pub side : Side
  pub quantity : ℤ
  pub price_str : List ℕ
  pub token_prefix : List ℕ
  pub tif : TimeInForce
  pub category : ClientCategory

pub record BurstPlaceArgs : Type 0 where
  pub count : ℕ
  pub rate_per_sec : ℕ
  pub pattern : List BurstPlacePatternEntry

pub record FixLogonArgs : Type 0 where
  pub password : List ℕ
  pub new_password : List ℕ
  pub sequence_reset : Bool
  pub heartbeat_secs : ℕ

pub record FixAmrSubscribeArgs : Type 0 where
  pub appl_req_id : List ℕ

pub record FixWaitHeartbeatArgs : Type 0 where
  pub from : List ℕ
  pub count : ℤ
  pub timeout_ms : ℤ

pub record FixPlaceArgs : Type 0 where
  pub cl_ord_id : List ℕ
  pub symbol : List ℕ
  pub side : Side
  pub quantity : ℤ
  pub price_str : List ℕ
  pub tif : TimeInForce
  pub ord_type : List ℕ
  pub category : ClientCategory
  pub account : List ℕ
  pub afk : List ℕ
  pub display_quantity : ℤ

pub record FixCancelArgs : Type 0 where
  pub cl_ord_id : List ℕ
  pub orig_cl_ord_id : List ℕ
  pub symbol : List ℕ
  pub side : Side
  pub quantity : ℤ

pub record FixReplaceArgs : Type 0 where
  pub cl_ord_id : List ℕ
  pub orig_cl_ord_id : List ℕ
  pub symbol : List ℕ
  pub side : Side
  pub new_quantity : ℤ
  pub price_str : List ℕ
  pub ord_type : List ℕ

pub record Expect : Type 0 where
  pub msg : List ℕ
  pub fields : List (List ℕ × List ℕ)
  pub occurrences : ℤ
  pub timeout_ms : ℤ

-- The variant's alternatives; those of an empty struct carry nothing.
pub data StepArgs : Type 0 where
  monostate : StepArgs
  login_args : LoginArgs → StepArgs
  wait_heartbeat_args : WaitHeartbeatArgs → StepArgs
  place_args : PlaceArgs → StepArgs
  cancel_by_token_args : CancelByTokenArgs → StepArgs
  cancel_by_order_id_args : CancelByOrderIdArgs → StepArgs
  replace_args : ReplaceArgs → StepArgs
  mass_quote_args : MassQuoteArgs → StepArgs
  logout_args trigger_opening_match_args inactivate_all_args : StepArgs
  switch_gateway_args : SwitchGatewayArgs → StepArgs
  burst_place_args : BurstPlaceArgs → StepArgs
  fix_logon_args : FixLogonArgs → StepArgs
  fix_logout_args : StepArgs
  fix_amr_subscribe_args : FixAmrSubscribeArgs → StepArgs
  fix_wait_heartbeat_args : FixWaitHeartbeatArgs → StepArgs
  fix_place_args : FixPlaceArgs → StepArgs
  fix_cancel_args : FixCancelArgs → StepArgs
  fix_replace_args : FixReplaceArgs → StepArgs
  fix_trigger_match_args : StepArgs

pub record Step : Type 0 where
  pub id : ℤ
  pub action : List ℕ
  pub args : StepArgs
  pub expect : Option Expect

pub record Scenario : Type 0 where
  pub name : List ℕ
  pub description : List ℕ
  pub preconditions : List (List ℕ × List ℕ)
  pub default_timeout_ms : ℤ
  pub mock_skip : Bool
  pub steps : List Step
  pub source_path : List ℕ
