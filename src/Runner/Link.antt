-- ===== src/Runner/Link.antt =====
-- include/bist/runner/replay.hpp: the actions that bring a session up, `run_login` and
-- `run_switch_gateway`.
use ouchservice.Prelude.{
  ℕ, ◌+◌, ◌%◌, ◌^◌, Bool, true, false, ◌&&◌, ◌||◌, List, [], ◌∷◌, ◌++◌, Option, none, some,
  if◌then◌else◌, ltb, codes, bytes_eq,
}
use ouchservice.Core.Types.{Result, ok, err}
use ouchservice.Ouch.Session.State.{
  Session, SessionState, Outcome, returns, fails, out_of_bounds, first_or_zero, rest_of,
}
use ouchservice.Ouch.Session.Send.{begin_login, is_active}
use ouchservice.Ouch.Client.{Client, is_empty}
use ouchservice.Runner.Scenario.{LoginArgs, SwitchGatewayArgs, Step}
use ouchservice.Runner.Events.{SessionEvent}
use ouchservice.Runner.Replay.{Runner, StepResult, TransportControl, with_session, poll, with_clock}
use ouchservice.Runner.Steps.{result, passes, text}

abbrev pub is_failed : SessionState → Bool
is_failed SessionState.failed = true
is_failed _ = false

abbrev pub is_logging_in : SessionState → Bool
is_logging_in SessionState.logging_in = true
is_logging_in _ = false

abbrev pub state_of : Runner → SessionState
state_of r = r.client.session.state

-- The step passes if the session is active, and says why not otherwise.
abbrev pub passes_if_active : Step → List ℕ → Runner → StepResult
passes_if_active s why r = if is_active (state_of r) then passes s else result s false why

-- What a step makes of the transport's answer.
unfoldable pub relinked :
    Step → List ℕ → Runner → Result (Unit {0}) × Client × List SessionEvent → StepResult × Runner
unfolding is_active
relinked s why r (ok u, c, evs) =
    let r' = record r { client = c; events = evs } in (passes_if_active s why r', r')
relinked s why r (err e, c, evs) =
    let r' = record r { client = c; events = evs } in
    (result s (is_failed (state_of r')) (text e), r')

-- How the loop that drives the login ends: it has left the state, or the step returns with a detail.
-- It is unended when the clock gives no more readings, or after a read past the input buffer.
pub data LoginWait : Type 0 where
  left : LoginWait
  stopped : List ℕ → LoginWait
  unended : LoginWait

unfoldable pub after_login_poll :
    Outcome × Runner → (Runner → LoginWait × Runner) → LoginWait × Runner
after_login_poll (returns, r) next = next r
after_login_poll (fails e, r) next = (LoginWait.stopped (text e), r)
after_login_poll (out_of_bounds, r) next = (LoginWait.unended, r)

unfoldable pub login_loop : List ℕ → ℕ → Runner → LoginWait × Runner
unfolding after_login_poll poll
login_loop [] deadline r =
    if is_logging_in (state_of r)
    then after_login_poll (poll r) (λ r'. (LoginWait.unended, r'))
    else (LoginWait.left, r)
login_loop (t ∷ ts) deadline r =
    let turn = after_login_poll (poll r) λ r'.
      let rest = login_loop ts deadline (with_clock ts r') in
      if ltb deadline t
      then (LoginWait.stopped (codes "login timeout"), with_clock ts r')
      else rest in
    if is_logging_in (state_of r) then turn else (LoginWait.left, r)

abbrev pub not_active : List ℕ
not_active = codes "login finished in non-Active state"

unfoldable pub login_waited : Step → LoginWait × Runner → Option (StepResult × Runner)
unfolding is_active
login_waited s (LoginWait.left, r) = some (passes_if_active s not_active r, r)
login_waited s (LoginWait.stopped why, r) = some (result s false why, r)
login_waited s (LoginWait.unended, r) = none

-- The login on the existing socket.
unfoldable pub login_here : Step → Outcome × Session → Runner → Option (StepResult × Runner)
unfolding with_session login_loop login_waited
login_here s (fails e, session) r =
    some (result s false (codes "begin_login failed: " ++ text e), with_session session r)
login_here s (out_of_bounds, session) r = none
login_here s (returns, session) r =
    let r' = with_session session (with_clock (rest_of r.clock) r) in
    login_waited s (login_loop r'.clock ((first_or_zero r.clock + 2_000_000_000) % 2 ^ 64) r')

unfoldable pub login_by :
    Step → LoginArgs → Runner → Option TransportControl → Option (StepResult × Runner)
unfolding relinked login_here
login_by s a r (some t) = some (
    relinked s not_active r
      (t.reconnect_and_login a.password a.session a.sequence (r.client, r.events)))
login_by s a r none = login_here s (begin_login r.client.session) r

-- Nothing if the login loop does not end.
unfoldable pub run_login : Step → LoginArgs → Runner → Option (StepResult × Runner)
unfolding login_by is_active
run_login s a r =
    if is_active (state_of r) && is_empty a.password
    then some (result s true (codes "session already Active (login driven by main)"), r)
    else login_by s a r r.transport

abbrev pub wants_secondary : List ℕ → Bool
wants_secondary tag =
    bytes_eq tag (codes "secondary") || bytes_eq tag (codes "yedek") || is_empty tag

unfoldable pub switch_by :
    Step → SwitchGatewayArgs → Runner → Option TransportControl → StepResult × Runner
unfolding relinked
switch_by s a r none =
    (result s false (codes "switch_gateway requires a transport (live mode only)"), r)
switch_by s a r (some t) = relinked s (codes "post-switch login finished in non-Active state") r (
    t.switch_to_secondary (wants_secondary a.tag) r.client.session.assigned_session
      r.client.session.next_inbound_seq (r.client, r.events))

unfoldable pub run_switch_gateway : Step → SwitchGatewayArgs → Runner → StepResult × Runner
unfolding switch_by
run_switch_gateway s a r = switch_by s a r r.transport
