-- ===== src/Runner/Run.antt =====
-- include/bist/runner/replay.hpp: expectations against the session and the queue, and the whole run.
pub mod Consumed
pub mod Named
pub mod Duplicate
use ouchservice.Prelude.{
  ℕ, zero, suc, ◌+◌, ◌-◌, ◌%◌, ◌^◌, max, Bool, true, false, ◌||◌, List, [], ◌∷◌, ◌++◌, Option, none,
  some, if◌then◌else◌, ◌==◌, codes, bytes_eq, String,
}
use ouchservice.Prelude.Int.{ℤ, pos, pos_part, int_beq, to_i64}
use ouchservice.Core.Types.{Side, TimeInForce, ClientCategory}
use ouchservice.Ouch.Session.State.{SessionState, first_or_zero, rest_of}
use ouchservice.Ouch.Session.Send.{is_active}
use ouchservice.Runner.Scenario.{
  LoginArgs, PlaceArgs, CancelByTokenArgs, CancelByOrderIdArgs, ReplaceArgs, MassQuoteArgs,
  SwitchGatewayArgs, BurstPlaceArgs, StepArgs, Expect, Step, Scenario,
}
use ouchservice.Runner.Fields.{
  Verdict, matches, differs, to_string, field_of, expected_fields_match,
}
use ouchservice.Runner.Events.{SessionEvent, ouch_event_matches}
use ouchservice.Runner.Replay.{Runner, StepResult, Waited, wait_for_event, with_clock, with_session}
use ouchservice.Runner.Steps.{
  result, passes, run_logout, run_place, run_cancel_t, run_cancel_id, run_replace, run_quote,
}
use ouchservice.Runner.Link.{is_failed, state_of, run_login, run_switch_gateway}
use ouchservice.Runner.Burst.{run_burst_place}

abbrev pub one_event_matches : Expect → SessionEvent → Verdict
one_event_matches exp ev = ouch_event_matches exp ev

-- What the loop does with a wait; nothing if it does not come back.
unfoldable pub on_verdict :
    Verdict → Runner → (Runner → Option Verdict × Runner) → Option Verdict × Runner
on_verdict matches r next = next r
on_verdict (differs why) r next = (some (differs why), r)

unfoldable pub on_waited :
    Expect → Waited × Runner → (Runner → Option Verdict × Runner) → Option Verdict × Runner
unfolding on_verdict
on_waited exp (Waited.got ev, r) next = on_verdict (one_event_matches exp ev) r next
on_waited exp (Waited.gave_up, r) next =
    (some (differs (codes "timeout waiting for " ++ exp.msg)), r)
on_waited exp (Waited.still_waiting, r) next = (none, r)
on_waited exp (Waited.undefined, r) next = (none, r)

-- `while (needed > 0)`
unfoldable pub match_loop : ℕ → Expect → ℤ → Runner → Option Verdict × Runner
unfolding on_waited
match_loop zero exp timeout_ms r = (some matches, r)
match_loop (suc needed) exp timeout_ms r =
    on_waited exp (wait_for_event timeout_ms r) (match_loop needed exp timeout_ms)

abbrev pub is_disconnected : SessionState → Bool
is_disconnected SessionState.disconnected = true
is_disconnected SessionState.disconnecting = true
is_disconnected _ = false

abbrev pub if_state : Bool → Verdict → Verdict
if_state b v = if b then v else differs []

unfoldable pub login_accepted_field : Runner → List ℕ → Option (List ℕ)
login_accepted_field r = field_of (
    ("session" ∷ [], r.client.session.assigned_session)
    ∷ ("next_sequence" ∷ "sequence" ∷ [], to_string r.client.session.next_inbound_seq)
    ∷ [])

abbrev pub reason_text : ℕ → List ℕ
reason_text reason = if reason == 0 then [] else reason ∷ []

unfoldable pub login_rejected_field : Runner → List ℕ → Option (List ℕ)
login_rejected_field r =
    field_of (("reason_code" ∷ [], reason_text r.client.session.last_login_reject_reason) ∷ [])

abbrev pub is : List ℕ → String → Bool
is action name = bytes_eq action (codes name)

unfoldable pub match_expectation : Expect → ℤ → Runner → Option Verdict × Runner
unfolding match_loop login_accepted_field login_rejected_field expected_fields_match is_active
match_expectation exp timeout_ms r =
    if is exp.msg "login_accepted"
    then (
      some (
          if_state (is_active (state_of r))
            (expected_fields_match exp.fields (login_accepted_field r))),
      r,
    )
    else if is exp.msg "login_rejected"
    then (
      some (
          if_state (is_failed (state_of r))
            (expected_fields_match exp.fields (login_rejected_field r))),
      r,
    )
    else if is exp.msg "socket_closed"
    then (some (if_state (is_disconnected (state_of r)) matches), r)
    else if is exp.msg "server_heartbeat"
    then (some matches, r)
    else match_loop (max 1 (pos_part exp.occurrences)) exp timeout_ms r

-- `args_or`: the arguments of the step, or those of a default-constructed struct.
unfoldable pub login_args_or : StepArgs → LoginArgs
login_args_or (StepArgs.login_args a) = a
login_args_or _ = record { session = []; sequence = 0; password = [] }

unfoldable pub place_args_or : StepArgs → PlaceArgs
place_args_or (StepArgs.place_args a) = a
place_args_or _ = record {
  symbol = [];
  side = Side.buy;
  quantity = pos 0;
  price_str = [];
  tif = TimeInForce.day;
  category = ClientCategory.client;
  client_account = [];
  customer_info = [];
  exchange_info = [];
  token = [];
  display_quantity = pos 0;
}

unfoldable pub cancel_by_token_args_or : StepArgs → CancelByTokenArgs
cancel_by_token_args_or (StepArgs.cancel_by_token_args a) = a
cancel_by_token_args_or _ = record { token = [] }

unfoldable pub cancel_by_order_id_args_or : StepArgs → CancelByOrderIdArgs
cancel_by_order_id_args_or (StepArgs.cancel_by_order_id_args a) = a
cancel_by_order_id_args_or _ = record { token_ref = [] }

unfoldable pub replace_args_or : StepArgs → ReplaceArgs
replace_args_or (StepArgs.replace_args a) = a
replace_args_or _ = record {
  existing_token = [];
  new_token = [];
  quantity = pos 0;
  price_str = [];
  category = ClientCategory.client;
  client_account = [];
  display_quantity = pos 0;
}

unfoldable pub mass_quote_args_or : StepArgs → MassQuoteArgs
mass_quote_args_or (StepArgs.mass_quote_args a) = a
mass_quote_args_or _ = record {
  token = [];
  category = ClientCategory.client;
  afk = [];
  exchange_info = [];
  entries = [];
}

unfoldable pub switch_gateway_args_or : StepArgs → SwitchGatewayArgs
switch_gateway_args_or (StepArgs.switch_gateway_args a) = a
switch_gateway_args_or _ = record { tag = [] }

unfoldable pub burst_place_args_or : StepArgs → BurstPlaceArgs
burst_place_args_or (StepArgs.burst_place_args a) = a
burst_place_args_or _ = record { count = 0; rate_per_sec = 100; pattern = [] }

unfoldable pub inactivate_all : Runner → Runner
inactivate_all r = elim r.eod_trigger [
  | none ↦ r
  | some trigger ↦ with_session (trigger r.client.session) r
]

-- The step without its expectation. Nothing if it does not come back; `fuel` bounds the turns of the
-- loop in `run_cancel_id`.
unfoldable pub act : ℕ → Step → Runner → Option (StepResult × Runner)
unfolding inactivate_all
act fuel s r =
    if is s.action "ouch_login"
    then run_login s (login_args_or s.args) r
    else if is s.action "ouch_logout"
    then some (run_logout s r)
    else if is s.action "place"
    then some (run_place s (place_args_or s.args) r)
    else if is s.action "cancel_by_token"
    then some (run_cancel_t s (cancel_by_token_args_or s.args) r)
    else if is s.action "cancel_by_order_id"
    then run_cancel_id fuel s (cancel_by_order_id_args_or s.args) r
    else if is s.action "replace"
    then some (run_replace s (replace_args_or s.args) r)
    else if is s.action "mass_quote"
    then some (run_quote s (mass_quote_args_or s.args) r)
    else if is s.action "switch_gateway"
    then some (run_switch_gateway s (switch_gateway_args_or s.args) r)
    else if is s.action "burst_place"
    then some (run_burst_place s (burst_place_args_or s.args) r)
    else if is s.action "inactivate_all"
    then some (passes s, inactivate_all r)
    else if is s.action "expect"
        || is s.action "wait_heartbeat"
        || is s.action "trigger_opening_match"
    then some (passes s, r)
    else some (result s false (codes "unsupported action: " ++ s.action), r)

abbrev pub timeout_or : ℤ → Expect → ℤ
timeout_or default exp = if int_beq exp.timeout_ms (pos 0) then default else exp.timeout_ms

-- The step's result once its expectation is checked.
unfoldable pub judged : {R : Type 0} → StepResult → Option Verdict × R → Option (StepResult × R)
judged res (none, r) = none
judged res (some matches, r) = some (record res { passed = true }, r)
judged res (some (differs why), r) = some (record res { passed = false; detail = why }, r)

unfoldable pub check_expect : ℤ → Option Expect → StepResult × Runner → Option (StepResult × Runner)
unfolding judged
check_expect default none (res, r) = some (res, r)
check_expect default (some exp) (res, r) =
    let checked = judged res (match_expectation exp (timeout_or default exp) r) in
    if res.passed then checked else some (res, r)

unfoldable pub timed : ℕ → StepResult × Runner → StepResult × Runner
timed t0 (res, r) = (
  record res { elapsed_ns = to_i64 ((first_or_zero r.clock + 2 ^ 64 - t0) % 2 ^ 64) },
  with_clock (rest_of r.clock) r,
)

-- What follows a part of a step, if that part comes back.
unfoldable pub next :
    {R A : Type 0} → Option (StepResult × R) → (StepResult × R → Option A) → Option A
next none rest = none
next (some p) rest = rest p

unfoldable pub run_step : ℕ → ℤ → Step → Runner → Option (StepResult × Runner)
unfolding act check_expect timed next
run_step fuel default s r = next (act fuel s (with_clock (rest_of r.clock) r)) λ acted.
    next (check_expect default s.expect acted)
      λ checked. some (timed (first_or_zero r.clock) checked)

abbrev pub add_result :
    {R : Type 0} → StepResult → Option (List StepResult × R) → Option (List StepResult × R)
add_result res none = none
add_result res (some (results, r)) = some (res ∷ results, r)

unfoldable pub run_steps : ℕ → ℤ → List Step → Runner → Option (List StepResult × Runner)
unfolding run_step next
run_steps fuel default [] r = some ([], r)
run_steps fuel default (s ∷ ss) r =
    next (run_step fuel default s r)
      λ (p : StepResult × Runner). add_result p.0 (run_steps fuel default ss p.1)

unfoldable pub run : ℕ → Scenario → Runner → Option (List StepResult × Runner)
unfolding run_steps
run fuel sc r = run_steps fuel sc.default_timeout_ms sc.steps r
