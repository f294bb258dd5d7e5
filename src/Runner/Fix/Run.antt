-- ===== src/Runner/Fix/Run.antt =====
-- include/bist/runner/fix_replay.hpp: the queue, the expectations and the run of `FixScenarioRunner`.

pub mod Served
pub mod Logout
use ouchservice.Prelude.{
  ℕ, zero, suc, ◌+◌, ◌-◌, ◌*◌, ◌%◌, ◌^◌, max, Bool, true, false, not, ◌&&◌, ◌||◌, List, [], ◌∷◌,
  ◌++◌, Option, none, some, if◌then◌else◌, ltb, length, codes, bytes_eq,
}
use ouchservice.Prelude.Int.{ℤ, pos, negsuc, pos_part, to_i64}
use ouchservice.Core.Types.{Side, TimeInForce, ClientCategory}
use ouchservice.Ouch.Session.State.{first_or_zero, rest_of}
use ouchservice.Fix.Facade.{FixSessionState, LogonResult}
use ouchservice.Runner.Scenario.{
  FixLogonArgs, FixAmrSubscribeArgs, FixWaitHeartbeatArgs, FixPlaceArgs, FixCancelArgs,
  FixReplaceArgs, StepArgs, Expect, Step, Scenario,
}
use ouchservice.Runner.Fields.{Verdict, matches, differs}
use ouchservice.Runner.Replay.{StepResult}
use ouchservice.Runner.Steps.{result, passes}
use ouchservice.Runner.Run.{is, judged, next, add_result, timeout_or}
use ouchservice.Runner.Fix.Events.{FixEvent, fix_event_matches}
use ouchservice.Runner.Fix.Steps.{
  FixRunner, oe_is_active, rd_is_active, dc_is_active, is_active, run_logon, run_logout, run_amr,
  run_wait_hb, run_place, run_cancel, run_replace,
}

abbrev pub is_handshake : FixSessionState → Bool
is_handshake FixSessionState.active = true
is_handshake FixSessionState.password_changed = true
is_handshake _ = false

-- A session's result that reports no successful handshake.
abbrev pub is_breadcrumb : FixEvent → Bool
is_breadcrumb (FixEvent.logon_result m) = not (is_handshake m.state)
is_breadcrumb _ = false

abbrev pub is_match : Verdict → Bool
is_match matches = true
is_match (differs why) = false

-- Whether an event counts; every other one is dropped.
unfoldable pub counts : Expect → FixEvent → Bool
unfolding fix_event_matches
counts exp ev =
    not (bytes_eq exp.msg (codes "fix_logon_response") && is_breadcrumb ev)
    && (is_match (fix_event_matches exp ev) || bytes_eq exp.msg (codes "any"))

-- How a wait ends: with an event, at its timeout, or not within what is known to come.
pub data FixWait : Type 0 where
  took : FixEvent → FixWait
  ran_out still_waiting : FixWait

-- The events that waits can still take, up to the wait that times out.
abbrev pub arriving : List (List FixEvent) → List FixEvent
arriving [] = []
arriving ([] ∷ batches) = []
arriving ((ev ∷ evs) ∷ batches) = (ev ∷ evs) ++ arriving batches

-- Whether a wait times out.
abbrev pub times_out : List (List FixEvent) → Bool
times_out [] = false
times_out ([] ∷ batches) = true
times_out ((ev ∷ evs) ∷ batches) = times_out batches

-- Turns enough for the loop over the events.
abbrev pub enough : List FixEvent → List (List FixEvent) → ℕ
enough evs batches = suc (length (evs ++ arriving batches))

abbrev pub timed_out : Expect → Verdict
timed_out exp = differs (codes "timeout waiting for " ++ exp.msg)

-- `now + timeout`, 0 if that is before the clock's origin.
abbrev pub after : ℕ → ℤ → ℕ
after now (pos n) = now + n * 1_000_000
after now (negsuc n) = now - suc n * 1_000_000

unfoldable pub logon_args_or : StepArgs → FixLogonArgs
logon_args_or (StepArgs.fix_logon_args a) = a
logon_args_or _ = record {
  password = [];
  new_password = [];
  sequence_reset = false;
  heartbeat_secs = 30;
}

unfoldable pub amr_args_or : StepArgs → FixAmrSubscribeArgs
amr_args_or (StepArgs.fix_amr_subscribe_args a) = a
amr_args_or _ = record { appl_req_id = [] }

unfoldable pub wait_hb_args_or : StepArgs → FixWaitHeartbeatArgs
wait_hb_args_or (StepArgs.fix_wait_heartbeat_args a) = a
wait_hb_args_or _ = record { from = []; count = pos 1; timeout_ms = pos 32000 }

unfoldable pub fix_place_args_or : StepArgs → FixPlaceArgs
fix_place_args_or (StepArgs.fix_place_args a) = a
fix_place_args_or _ = record {
  cl_ord_id = [];
  symbol = [];
  side = Side.buy;
  quantity = pos 0;
  price_str = [];
  tif = TimeInForce.day;
  ord_type = [];
  category = ClientCategory.client;
  account = [];
  afk = [];
  display_quantity = pos 0;
}

unfoldable pub fix_cancel_args_or : StepArgs → FixCancelArgs
fix_cancel_args_or (StepArgs.fix_cancel_args a) = a
fix_cancel_args_or _ = record {
  cl_ord_id = [];
  orig_cl_ord_id = [];
  symbol = [];
  side = Side.buy;
  quantity = pos 0;
}

unfoldable pub fix_replace_args_or : StepArgs → FixReplaceArgs
fix_replace_args_or (StepArgs.fix_replace_args a) = a
fix_replace_args_or _ = record {
  cl_ord_id = [];
  orig_cl_ord_id = [];
  symbol = [];
  side = Side.buy;
  new_quantity = pos 0;
  price_str = [];
  ord_type = [];
}

module _ {W : Type 0} where
  abbrev pub with_queue : List FixEvent → List (List FixEvent) → FixRunner W → FixRunner W
  with_queue evs batches r = record r { events = evs; incoming = batches }

  -- `wait_for_event`, from the queue and what is coming: each wait has the whole timeout for itself.
  unfoldable pub take_event :
      List FixEvent → List (List FixEvent) → FixRunner W → FixWait × FixRunner W
  take_event (ev ∷ evs) batches r = (FixWait.took ev, with_queue evs batches r)
  take_event [] [] r = (FixWait.still_waiting, with_queue [] [] r)
  take_event [] ([] ∷ batches) r = (FixWait.ran_out, with_queue [] batches r)
  take_event [] ((ev ∷ evs) ∷ batches) r = (FixWait.took ev, with_queue evs batches r)

  unfoldable pub wait_for_event : FixRunner W → FixWait × FixRunner W
  unfolding take_event
  wait_for_event r = take_event r.events r.incoming r

  unfoldable pub on_taken :
      Expect
      → FixWait × FixRunner W
      → (FixEvent → FixRunner W → Option Verdict × FixRunner W)
      → Option Verdict × FixRunner W
  on_taken exp (FixWait.still_waiting, r) turn = (none, r)
  on_taken exp (FixWait.ran_out, r) turn = (some (timed_out exp), r)
  on_taken exp (FixWait.took ev, r) turn = turn ev r

  -- `while (needed > 0)`, on fuel; nothing when that is used up, or when a wait has not ended.
  unfoldable pub match_loop : ℕ → ℕ → Expect → FixRunner W → Option Verdict × FixRunner W
  unfolding counts wait_for_event on_taken
  match_loop fuel zero exp r = (some matches, r)
  match_loop zero (suc needed) exp r = (none, r)
  match_loop (suc fuel) (suc needed) exp r =
      on_taken exp (wait_for_event r)
        λ ev. match_loop fuel (if counts exp ev then needed else suc needed) exp

  abbrev pub any_active : FixRunner W → W → Bool
  any_active r w = oe_is_active r.oe w || rd_is_active r.rd w || dc_is_active r.dc w

  -- The wait for the end of the sessions; nothing when it has not ended with the turns there are.
  unfoldable pub logout_loop : List (ℕ × W) → ℕ → FixRunner W → Option Verdict × FixRunner W
  logout_loop [] deadline r = (none, record r { turns = [] })
  logout_loop ((t, w) ∷ ts) deadline r =
      let r' : FixRunner W = record r { world = w; turns = ts } in
      let rest = logout_loop ts deadline r' in
      if ltb t deadline
      then (if any_active r w then rest else (some matches, record r' { events = [] }))
      else (some (differs (codes "logout did not complete within timeout")), r')

  unfoldable pub logged_out : List (ℕ × W) → ℤ → FixRunner W → Option Verdict × FixRunner W
  unfolding logout_loop
  logged_out [] timeout_ms r = (none, r)
  logged_out ((t, w) ∷ ts) timeout_ms r = logout_loop ts (after t timeout_ms) r

  unfoldable pub match_expectation : Expect → ℤ → FixRunner W → Option Verdict × FixRunner W
  unfolding logged_out match_loop
  match_expectation exp timeout_ms r =
      if is exp.msg "server_heartbeat"
      then (some matches, r)
      else if is exp.msg "fix_logout_complete"
      then logged_out r.turns timeout_ms r
      else match_loop (enough r.events r.incoming) (max 1 (pos_part exp.occurrences)) exp r

  -- The step's action; nothing if it overflows.
  unfoldable pub act : Step → FixRunner W → Option (StepResult × FixRunner W)
  act s r =
      if is s.action "fix_logon"
      then some (run_logon s (logon_args_or s.args) r)
      else if is s.action "fix_logout"
      then some (run_logout s r)
      else if is s.action "fix_amr_subscribe" || is s.action "fix_amr"
      then some (run_amr s (amr_args_or s.args) r)
      else if is s.action "fix_wait_heartbeat" || is s.action "wait_heartbeat"
      then some (run_wait_hb s (wait_hb_args_or s.args) r)
      else if is s.action "fix_place" || is s.action "place"
      then run_place s (fix_place_args_or s.args) r
      else if is s.action "fix_cancel"
          || is s.action "cancel_by_token"
          || is s.action "cancel_by_order_id"
      then some (run_cancel s (fix_cancel_args_or s.args) r)
      else if is s.action "fix_replace" || is s.action "replace"
      then run_replace s (fix_replace_args_or s.args) r
      else if is s.action "expect" || is s.action "trigger_match"
      then some (passes s, r)
      else some (result s false (codes "unsupported FIX action: " ++ s.action), r)

  unfoldable pub check_expect :
      ℤ → Option Expect → StepResult × FixRunner W → Option (StepResult × FixRunner W)
  unfolding judged match_expectation
  check_expect default none (res, r) = some (res, r)
  check_expect default (some exp) (res, r) =
      let checked = judged res (match_expectation exp (timeout_or default exp) r) in
      if res.passed then checked else some (res, r)

  unfoldable pub timed : ℕ → StepResult × FixRunner W → StepResult × FixRunner W
  timed t0 (res, r) = (
    record res { elapsed_ns = to_i64 ((first_or_zero r.clock + 2 ^ 64 - t0) % 2 ^ 64) },
    record r { clock = rest_of r.clock },
  )

  unfoldable pub run_step : ℤ → Step → FixRunner W → Option (StepResult × FixRunner W)
  unfolding act check_expect timed next
  run_step default s r = next (act s (record r { clock = rest_of r.clock })) λ acted.
      next (check_expect default s.expect acted)
        λ checked. some (timed (first_or_zero r.clock) checked)

  unfoldable pub run_steps : ℤ → List Step → FixRunner W → Option (List StepResult × FixRunner W)
  unfolding run_step next
  run_steps default [] r = some ([], r)
  run_steps default (s ∷ ss) r =
      next (run_step default s r)
        λ (p : StepResult × FixRunner W). add_result p.0 (run_steps default ss p.1)

  unfoldable pub run : Scenario → FixRunner W → Option (List StepResult × FixRunner W)
  unfolding run_steps
  run sc r = run_steps sc.default_timeout_ms sc.steps r
