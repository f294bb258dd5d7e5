-- ===== src/Tests/Replaying.antt =====
-- Scenarios against a client with the used token 30.
use ouchservice.Prelude.{
  ◌≡◌, refl, List, [], ◌∷◌, Option, none, some, arith, codes, replicate, true, false, All,
  bytes_eq_instance, contains, inl, lookup, ◌↔◌, ◌⊎◌,
}
use ouchservice.Prelude.Int.{pos, to_u64}
use ouchservice.Core.Types.{Side, TimeInForce, ClientCategory, side_from_wire}
use ouchservice.Core.Alpha.{alpha_set, alpha_get, token_size}
use ouchservice.Domain.Instrument.{Instrument, find_by_symbol}
use ouchservice.Domain.Throttler.{
  throttler, try_acquire, acquire_at, rotate, bump, used_loop, used_in_rolling_second,
}
use ouchservice.Domain.TokenRegistry.{registry, register_external}
use ouchservice.Ouch.Messages.Outbound.{OrderAccepted}
use ouchservice.Ouch.Client.{Client, cancel_by_order_id}
use ouchservice.Runner.Scenario.{PlaceArgs, StepArgs, Expect, Step, Scenario}
use ouchservice.Runner.Fields.{
  matches, to_string, is_key, field_of, trim_fixed_alpha, to_string_ℤ, filled_length,
}
use ouchservice.Prelude.Decimal.{print_padded, count_digits, digits}
use ouchservice.Runner.Events.{
  SessionEvent, ouch_event_name, ouch_event_field, ouch_event_fields, accepted_fields,
  ouch_event_matches,
}
use ouchservice.Runner.Events.Match.{ouch_event_matches_iff}
use ouchservice.Runner.Replay.{Runner, StepResult, wait_for_event}
use ouchservice.Runner.Replay.Wait.{Ended, wait_for_event-Ended}
use ouchservice.Runner.Steps.{requested, run_cancel_id, run_place, now}
use ouchservice.Runner.Steps.Resolve.{run_cancel_id-hangs, run_cancel_id-accepted}
use ouchservice.Runner.Run.{run, check_expect, match_expectation}
use ouchservice.Runner.Run.Named.{AllListed, run-AllListed}
use ouchservice.Runner.Run.Consumed.{taken, match_expectation-taken}
use ouchservice.Runner.Run.Duplicate.{rejection_expected, run_place-duplicate}
use ouchservice.Tests.Sending.Data.{session_with}

abbrev client : Client
client = record {
  session = session_with [];
  tokens = (register_external (codes "30") (registry (codes "C-"))).1;
  throttler = throttler 2 2;
  book = [];
}

abbrev acsel : Instrument
acsel = record {
  symbol = codes "ACSEL";
  order_book_id = 70616;
  price_decimals = 3;
  partition = pos 1;
  base_price = pos 6000;
}

abbrev runner : List SessionEvent → Runner
runner events = record {
  client = client;
  instruments = record {
    by_symbol = (codes "ACSEL", acsel) ∷ [];
    by_book_id = (70616, acsel) ∷ [];
  };
  transport = none;
  eod_trigger = none;
  events = events;
  token_by_step_id = [];
  token_index = [];
  clock = 5 ∷ 6 ∷ 2_000_000_000 ∷ [];
  wall_clock = 7 ∷ [];
}

abbrev accept_message : OrderAccepted
accept_message = record {
  message_type = b'A';
  timestamp_ns = 1;
  order_token = alpha_set 14 (codes "30");
  order_book_id = 70616;
  side = b'S';
  order_id = 4711;
  quantity = 100;
  price = pos 6000;
  time_in_force = 0;
  open_close = 0;
  client_account = replicate 16 b' ';
  order_state = 1;
  customer_info = replicate 15 b' ';
  exchange_info = replicate 32 b' ';
  pre_trade_quantity = 0;
  display_quantity = 0;
  client_category = 1;
  off_hours = 0;
  smp_level = 0;
  smp_method = 0;
  smp_id = replicate 3 b' ';
}

abbrev accepted : SessionEvent
accepted = SessionEvent.accepted accept_message

abbrev any : Expect
any = record { msg = codes "any"; fields = []; occurrences = pos 2; timeout_ms = pos 0 }

abbrev step : Option Expect → Step
step expect = record {
  id = pos 3;
  action = codes "place";
  args = StepArgs.monostate;
  expect = expect;
}

abbrev place_again : PlaceArgs
place_again = record {
  symbol = codes "ACSEL";
  side = Side.buy;
  quantity = pos 100;
  price_str = codes "6.000";
  tif = TimeInForce.day;
  category = ClientCategory.client;
  client_account = [];
  customer_info = [];
  exchange_info = [];
  token = codes "30";
  display_quantity = pos 0;
}

wait_for_event-Ended_example : Ended (wait_for_event (pos 1000) (runner []))
wait_for_event-Ended_example =
    wait_for_event-Ended (pos 1000) (runner []) (6 ∷ []) 2_000_000_000 [] refl
      (unfold to_u64 in omega arith)

run_cancel_id-hangs_example :
    run_cancel_id 5000 (step none) (record { token_ref = codes "30" }) (runner (accepted ∷ []))
    ≡ none
run_cancel_id-hangs_example =
    run_cancel_id-hangs 5000 (step none) (record { token_ref = codes "30" })
      (runner (accepted ∷ [])) (omega arith) (omega arith)

run_cancel_id-accepted_example :
    let (w, r') = wait_for_event (pos 1000) (runner (accepted ∷ [])) in
    run_cancel_id 1
      (step none)
      (record { token_ref = alpha_get token_size (alpha_set 14 (codes "30")) })
      r'
    ≡ some (
        requested
          (step none)
          r'
          (cancel_by_order_id (now r') 70616 (side_from_wire b'S') 4711 r'.client))
run_cancel_id-accepted_example =
    run_cancel_id-accepted 0 (pos 1000) (step none) (runner (accepted ∷ [])) accept_message refl

match_expectation-taken_example :
    let r = runner (accepted ∷ accepted ∷ accepted ∷ []) in
    (match_expectation any (pos 1000) r
      ≡ (some matches, taken (accepted ∷ accepted ∷ []) (accepted ∷ []) r))
    × ((taken (accepted ∷ accepted ∷ []) (accepted ∷ []) r).events ≡ accepted ∷ [])
match_expectation-taken_example =
    match_expectation-taken accepted (accepted ∷ []) (accepted ∷ []) any (pos 1000)
      (runner (accepted ∷ accepted ∷ accepted ∷ [])) refl refl
      (unfold ouch_event_matches in (refl, (refl, tt)))

abbrev precise : Expect
precise = record {
  msg = codes "order_accepted";
  fields =
      (codes "price", codes "6000")
      ∷ (codes "quantity", codes "100")
      ∷ (codes "side", codes "S")
      ∷ (codes "token", codes "30")
      ∷ [];
  occurrences = pos 1;
  timeout_ms = pos 0;
}

ouch_event_matches_iff_example : (ouch_event_matches precise accepted ≡ matches) ↔ (
    ((ouch_event_name accepted ≡ precise.msg) ⊎ (precise.msg ≡ codes "any"))
    × All (λ f. ouch_event_field accepted f.0 ≡ some f.1) precise.fields)
ouch_event_matches_iff_example = ouch_event_matches_iff precise accepted

-- The accept_message meets it.
precise-met : ouch_event_matches precise accepted ≡ matches
unfolding ouch_event_name ouch_event_field ouch_event_fields accepted_fields field_of is_key
    to_string to_string_ℤ print_padded count_digits digits trim_fixed_alpha filled_length alpha_set
precise-met = ouch_event_matches_iff_example.1 (inl refl, (refl, (refl, (refl, (refl, tt)))))

abbrev two_steps : Scenario
two_steps = record {
  name = codes "duplicate";
  description = [];
  preconditions = [];
  default_timeout_ms = pos 5000;
  mock_skip = false;
  steps = step none ∷ step (some any) ∷ [];
  source_path = [];
}

run-AllListed_example : AllListed two_steps.steps (run 1 two_steps (runner []))
run-AllListed_example = run-AllListed 1 two_steps (runner [])

run_place-duplicate_example :
    let s = step (some (rejection_expected (pos 100))) in
    (res : StepResult) × (r' : Runner) × (check_expect
        (pos 5000)
        s.expect
        (run_place s place_again (runner []))
      ≡ some (res, r'))
    × (res.passed ≡ true)
    × (r'.events ≡ [])
    × (r'.client.session ≡ client.session)
run_place-duplicate_example =
    run_place-duplicate (step (some (rejection_expected (pos 100)))) place_again (runner []) acsel
      (pos 100) (pos 5000) (unfold find_by_symbol lookup in refl)
      (unfold try_acquire acquire_at throttler rotate bump used_loop used_in_rolling_second in refl)
      refl (unfold register_external registry contains in refl) refl refl
