-- ===== src/Runner/Fix/Events.antt =====
-- include/bist/runner/fix_replay.hpp: the captured FIX events by name and by field.
use ouchservice.Prelude.{
  ℕ, List, [], ◌∷◌, Option, Bool, true, false, not, if◌then◌else◌, ◌==◌, ◌&&◌, ◌||◌, bytes_eq,
  codes, String,
}
use ouchservice.Fix.Facade.{
  LogonResult, ExecutionReportEvent, CancelRejectEvent, TradeReportEvent, QuoteStatusEvent,
  FixSessionState, fix_session_state_number,
}
use ouchservice.Runner.Scenario.{Expect}
use ouchservice.Runner.Fields.{
  side_field, to_string, to_string_ℤ, field_of, Verdict, differs, expected_fields_match,
}
use ouchservice.Runner.Events.{wrong_message}

pub record AmrAck : Type 0 where
  pub ok : Bool
  pub detail : List ℕ

pub data FixEvent : Type 0 where
  logon_result : LogonResult → FixEvent
  execution_report : ExecutionReportEvent → FixEvent
  cancel_reject : CancelRejectEvent → FixEvent
  trade_report : TradeReportEvent → FixEvent
  quote_status : QuoteStatusEvent → FixEvent
  amr_ack : AmrAck → FixEvent

unfoldable pub fix_session_state_field : FixSessionState → List ℕ
fix_session_state_field s = to_string (fix_session_state_number s)

unfoldable pub fix_event_name : FixEvent → List ℕ
fix_event_name (FixEvent.logon_result m) = codes "fix_logon_response"
fix_event_name (FixEvent.execution_report m) = codes "fix_execution_report"
fix_event_name (FixEvent.cancel_reject m) = codes "fix_cancel_reject"
fix_event_name (FixEvent.trade_report m) = codes "fix_trade_report"
fix_event_name (FixEvent.quote_status m) = codes "fix_quote_status"
fix_event_name (FixEvent.amr_ack m) = codes "fix_amr_ack"

unfoldable pub starts_with : List ℕ → List ℕ → Bool
starts_with [] text = true
starts_with (p ∷ ps) [] = false
starts_with (p ∷ ps) (c ∷ cs) = (p == c) && starts_with ps cs

-- `text.find(part) != npos`
unfoldable pub has_part : List ℕ → List ℕ → Bool
unfolding starts_with
has_part part [] = starts_with part []
has_part part (c ∷ cs) = starts_with part (c ∷ cs) || has_part part cs

abbrev pub trade_type : List ℕ → List ℕ
trade_type text = if has_part (codes "short_sell") text then codes "short_sell" else []

abbrev keys : String → String → List ℕ → List String × List ℕ
keys j k value = (j ∷ k ∷ [], value)

unfoldable pub execution_fields : ExecutionReportEvent → List (List String × List ℕ)
unfolding has_part
execution_fields m =
    keys "ClOrdID" "cl_ord_id" m.cl_ord_id
    ∷ keys "OrigClOrdID" "orig_cl_ord_id" m.orig_cl_ord_id
    ∷ keys "ExecID" "exec_id" m.exec_id
    ∷ keys "OrderID" "order_id" m.order_id
    ∷ keys "Symbol" "symbol" m.symbol
    ∷ keys "Side" "side" (side_field m.side)
    ∷ keys "ExecType" "exec_type" (m.exec_type ∷ [])
    ∷ keys "OrdStatus" "ord_status" (m.ord_status ∷ [])
    ∷ keys "LeavesQty" "leaves_qty" (to_string_ℤ m.leaves_qty)
    ∷ keys "CumQty" "cum_qty" (to_string_ℤ m.cum_qty)
    ∷ keys "LastQty" "last_qty" (to_string_ℤ m.last_qty)
    ∷ ("LastPx" ∷ "last_price" ∷ "Price" ∷ "price" ∷ [], to_string_ℤ m.last_price)
    ∷ keys "Text" "text" m.text
    ∷ ("trd_type" ∷ "TrdType" ∷ "trade_type" ∷ [], trade_type m.text)
    ∷ []

unfoldable pub fix_event_fields : FixEvent → List (List String × List ℕ)
unfolding execution_fields fix_session_state_field
fix_event_fields (FixEvent.logon_result m) =
    keys "SessionStatus" "session_status" (to_string_ℤ m.session_status)
    ∷ ("state" ∷ [], fix_session_state_field m.state)
    ∷ keys "Text" "detail" m.detail
    ∷ []
fix_event_fields (FixEvent.execution_report m) = execution_fields m
fix_event_fields (FixEvent.cancel_reject m) =
    keys "ClOrdID" "cl_ord_id" m.cl_ord_id
    ∷ keys "OrigClOrdID" "orig_cl_ord_id" m.orig_cl_ord_id
    ∷ keys "Text" "text" m.text
    ∷ []
fix_event_fields (FixEvent.trade_report m) =
    keys "TradeReportID" "trade_report_id" m.trade_report_id
    ∷ keys "TradeReportRefID" "trade_report_ref_id" m.trade_report_ref_id
    ∷ keys "Symbol" "symbol" m.symbol
    ∷ keys "Side" "side" (side_field m.side)
    ∷ ("LastQty" ∷ "quantity" ∷ "last_qty" ∷ [], to_string_ℤ m.quantity)
    ∷ ("LastPx" ∷ "price" ∷ "last_price" ∷ [], to_string_ℤ m.price)
    ∷ keys "CounterpartyID" "counterparty_id" m.counterparty_id
    ∷ []
fix_event_fields (FixEvent.quote_status m) =
    keys "QuoteID" "quote_id" m.quote_id
    ∷ keys "Symbol" "symbol" m.symbol
    ∷ keys "Side" "side" (side_field m.side)
    ∷ keys "QuoteStatus" "quote_status" (to_string m.quote_status)
    ∷ keys "LeavesQty" "leaves_qty" (to_string_ℤ m.leaves_qty)
    ∷ keys "Price" "price" (to_string_ℤ m.price)
    ∷ []
fix_event_fields (FixEvent.amr_ack m) =
    ("ok" ∷ [], if m.ok then codes "true" else codes "false") ∷ keys "detail" "Text" m.detail ∷ []

unfoldable pub fix_event_field : FixEvent → List ℕ → Option (List ℕ)
unfolding fix_event_fields field_of
fix_event_field ev = field_of (fix_event_fields ev)

unfoldable pub fix_event_matches : Expect → FixEvent → Verdict
unfolding fix_event_name fix_event_field expected_fields_match
fix_event_matches exp ev =
    let actual = fix_event_name ev in
    if not (bytes_eq actual exp.msg) && not (bytes_eq exp.msg (codes "any"))
    then differs (wrong_message exp.msg actual)
    else expected_fields_match exp.fields (fix_event_field ev)
