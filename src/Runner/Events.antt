-- ===== src/Runner/Events.antt =====
-- include/bist/runner/replay.hpp: the captured messages by name and by field. The names of the cancel
-- reasons are those of include/bist/core/types.hpp.
pub mod Match
use ouchservice.Prelude.{
  ℕ, List, [], ◌∷◌, ◌++◌, Option, not, if◌then◌else◌, ◌==◌, ◌&&◌, bytes_eq, codes, String,
}
use ouchservice.Core.Types.{side_from_wire}
use ouchservice.Ouch.Messages.Outbound.{
  OrderAccepted, OrderRejected, OrderReplaced, OrderCanceled, OrderExecuted, MassQuoteAck,
  MassQuoteRejection,
}
use ouchservice.Runner.Scenario.{Expect}
use ouchservice.Runner.Fields.{
  trim_fixed_alpha, to_string, to_string_ℤ, field_of, Verdict, differs, expected_fields_match,
}

pub data SessionEvent : Type 0 where
  accepted : OrderAccepted → SessionEvent
  rejected : OrderRejected → SessionEvent
  replaced : OrderReplaced → SessionEvent
  canceled : OrderCanceled → SessionEvent
  executed : OrderExecuted → SessionEvent
  quote_ack : MassQuoteAck → SessionEvent
  quote_rejected : MassQuoteRejection → SessionEvent

unfoldable pub ouch_event_name : SessionEvent → List ℕ
ouch_event_name (SessionEvent.accepted m) = codes "order_accepted"
ouch_event_name (SessionEvent.rejected m) = codes "order_rejected"
ouch_event_name (SessionEvent.replaced m) = codes "order_replaced"
ouch_event_name (SessionEvent.canceled m) = codes "order_canceled"
ouch_event_name (SessionEvent.executed m) = codes "order_executed"
ouch_event_name (SessionEvent.quote_ack m) = codes "mass_quote_ack"
ouch_event_name (SessionEvent.quote_rejected m) = codes "mass_quote_rejection"

unfoldable pub cancel_reason_name : ℕ → List ℕ
cancel_reason_name v =
    if v == 1
    then codes "canceled_by_user"
    else if v == 3
    then codes "trade"
    else if v == 4
    then codes "inactivate"
    else if v == 5
    then codes "replaced_by_user"
    else if v == 6
    then codes "new"
    else if v == 8
    then codes "converted_by_system"
    else if v == 9
    then codes "canceled_by_system"
    else if v == 10
    then codes "cod_inactivate"
    else if v == 11
    then codes "market_halt"
    else codes "unknown"

-- A line of `ouch_event_field`: the keys it answers, and with what.
abbrev key : String → List ℕ → List String × List ℕ
key k value = (k ∷ [], value)

abbrev two_keys : String → String → List ℕ → List String × List ℕ
two_keys j k value = (j ∷ k ∷ [], value)

unfoldable pub accepted_fields : OrderAccepted → List (List String × List ℕ)
accepted_fields m =
    key "token" (trim_fixed_alpha m.order_token)
    ∷ key "order_book_id" (to_string m.order_book_id)
    ∷ key "side" (m.side ∷ [])
    ∷ key "order_id" (to_string m.order_id)
    ∷ two_keys "quantity" "leaves_quantity" (to_string m.quantity)
    ∷ key "price" (to_string_ℤ m.price)
    ∷ key "time_in_force" (to_string m.time_in_force)
    ∷ key "open_close" (to_string m.open_close)
    ∷ key "order_state" (to_string m.order_state)
    ∷ key "pre_trade_quantity" (to_string m.pre_trade_quantity)
    ∷ key "display_quantity" (to_string m.display_quantity)
    ∷ key "client_category" (to_string m.client_category)
    ∷ key "off_hours" (to_string m.off_hours)
    ∷ key "smp_level" (to_string m.smp_level)
    ∷ key "smp_method" (to_string m.smp_method)
    ∷ key "smp_id" (trim_fixed_alpha m.smp_id)
    ∷ []

unfoldable pub replaced_fields : OrderReplaced → List (List String × List ℕ)
replaced_fields m =
    (
      "token" ∷ "replacement_token" ∷ "replacement_order_token" ∷ [],
      trim_fixed_alpha m.replacement_order_token,
    )
    ∷ two_keys "previous_token" "previous_order_token" (trim_fixed_alpha m.previous_order_token)
    ∷ key "order_book_id" (to_string m.order_book_id)
    ∷ key "side" (m.side ∷ [])
    ∷ key "order_id" (to_string m.order_id)
    ∷ two_keys "quantity" "leaves_quantity" (to_string m.quantity)
    ∷ key "price" (to_string_ℤ m.price)
    ∷ key "time_in_force" (to_string m.time_in_force)
    ∷ key "open_close" (to_string m.open_close)
    ∷ key "order_state" (to_string m.order_state)
    ∷ key "pre_trade_quantity" (to_string m.pre_trade_quantity)
    ∷ key "display_quantity" (to_string m.display_quantity)
    ∷ key "client_category" (to_string m.client_category)
    ∷ []

unfoldable pub ouch_event_fields : SessionEvent → List (List String × List ℕ)
unfolding accepted_fields replaced_fields cancel_reason_name
ouch_event_fields (SessionEvent.accepted m) = accepted_fields m
ouch_event_fields (SessionEvent.rejected m) =
    key "token" (trim_fixed_alpha m.order_token)
    ∷ key "reject_code" (to_string_ℤ m.reject_code)
    ∷ []
ouch_event_fields (SessionEvent.replaced m) = replaced_fields m
ouch_event_fields (SessionEvent.canceled m) =
    key "token" (trim_fixed_alpha m.order_token)
    ∷ key "order_book_id" (to_string m.order_book_id)
    ∷ key "side" (m.side ∷ [])
    ∷ key "order_id" (to_string m.order_id)
    ∷ key "reason" (to_string m.reason)
    ∷ key "cancel_reason_name" (cancel_reason_name m.reason)
    ∷ []
ouch_event_fields (SessionEvent.executed m) =
    key "token" (trim_fixed_alpha m.order_token)
    ∷ key "order_book_id" (to_string m.order_book_id)
    ∷ two_keys "traded_quantity" "quantity" (to_string m.traded_quantity)
    ∷ two_keys "trade_price" "price" (to_string_ℤ m.trade_price)
    ∷ key "client_category" (to_string m.client_category)
    ∷ []
ouch_event_fields (SessionEvent.quote_ack m) =
    key "token" (trim_fixed_alpha m.order_token)
    ∷ key "order_book_id" (to_string m.order_book_id)
    ∷ two_keys "quantity" "leaves_quantity" (to_string m.quantity)
    ∷ key "traded_quantity" (to_string m.traded_quantity)
    ∷ key "price" (to_string_ℤ m.price)
    ∷ key "side" (m.side ∷ [])
    ∷ key "quote_status" (to_string m.quote_status)
    ∷ []
ouch_event_fields (SessionEvent.quote_rejected m) =
    key "token" (trim_fixed_alpha m.order_token)
    ∷ key "order_book_id" (to_string m.order_book_id)
    ∷ key "reject_code" (to_string_ℤ m.reject_code)
    ∷ []

unfoldable pub ouch_event_field : SessionEvent → List ℕ → Option (List ℕ)
unfolding ouch_event_fields field_of
ouch_event_field ev = field_of (ouch_event_fields ev)

abbrev pub wrong_message : List ℕ → List ℕ → List ℕ
wrong_message expected actual = codes "expected " ++ expected ++ codes ", got " ++ actual

unfoldable pub ouch_event_matches : Expect → SessionEvent → Verdict
unfolding ouch_event_name ouch_event_field expected_fields_match
ouch_event_matches exp ev =
    let actual = ouch_event_name ev in
    if not (bytes_eq actual exp.msg) && not (bytes_eq exp.msg (codes "any"))
    then differs (wrong_message exp.msg actual)
    else expected_fields_match exp.fields (ouch_event_field ev)
