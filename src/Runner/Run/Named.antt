-- ===== src/Runner/Run/Named.antt =====
-- A run of include/bist/runner/replay.hpp reports its steps one by one.
use ouchservice.Prelude.{
  ℕ, ◌≡◌, refl, Bool, true, false, List, [], ◌∷◌, Option, none, some, if◌then◌else◌, map, arith, ap,
  ap₂, ◌∙◌, inl, inr, ◌⊎◌,
}
use ouchservice.Prelude.Int.{ℤ}
use ouchservice.Core.Types.{Result, ok, err}
use ouchservice.Core.Alpha.{OrderToken}
use ouchservice.Ouch.Client.{Client, QuoteEntryArgs}
use ouchservice.Domain.Instrument.{Instrument}
use ouchservice.Ouch.Session.State.{Session, Outcome, returns, fails, out_of_bounds}
use ouchservice.Runner.Scenario.{
  PlaceArgs, MassQuoteArgs, BurstPlaceArgs, LoginArgs, SwitchGatewayArgs, Expect, Step, Scenario,
}
use ouchservice.Runner.Fields.{Verdict, matches, differs}
use ouchservice.Runner.Events.{SessionEvent}
use ouchservice.Runner.Replay.{Runner, StepResult, IndexedOrder, TransportControl}
use ouchservice.Runner.Steps.{
  requested, logged_out, run_logout, placed, place_on, run_place, run_cancel_t, cancel_indexed,
  after_drain, run_cancel_id, run_replace, quote_on, run_quote, result,
}
use ouchservice.Runner.Link.{
  relinked, LoginWait, login_waited, login_here, login_by, run_login, switch_by, passes_if_active,
  not_active, run_switch_gateway,
}
use ouchservice.Runner.Burst.{Burst, burst_result, run_burst_place}
use ouchservice.Runner.Run.{
  act, judged, check_expect, timed, next, run_step, run_steps, run, add_result,
}

-- The result carries the step's number and action.
unfoldable pub Named : Step → StepResult × Runner → Type 0
Named s (res, r) = (res.id ≡ s.id) × (res.action ≡ s.action)

unfoldable pub AllNamed : Step → Option (StepResult × Runner) → Type 0
unfolding Named
AllNamed s none = Unit
AllNamed s (some p) = Named s p

module _ (s : Step) where
  result-Named : (b : Bool) (d : List ℕ) (r : Runner) → Named s (result s b d, r)
  unfolding Named
  result-Named b d r = (refl, refl)

  none-AllNamed : AllNamed s none
  unfolding AllNamed
  none-AllNamed = tt

  some-AllNamed : (p : StepResult × Runner) → Named s p → AllNamed s (some p)
  unfolding AllNamed
  some-AllNamed p h = h

  if-Named :
      (c : Bool) (p q : StepResult × Runner) → Named s p → Named s q → Named s (if c then p else q)
  if-Named true p q hp hq = hp
  if-Named false p q hp hq = hq

  if-AllNamed :
      (c : Bool) (p q : Option (StepResult × Runner))
      → AllNamed s p
      → AllNamed s q
      → AllNamed s (if c then p else q)
  if-AllNamed true p q hp hq = hp
  if-AllNamed false p q hp hq = hq

  requested-Named :
      {A : Type 0} (r : Runner) (answer : Result A × Client) → Named s (requested s r answer)
  unfolding requested
  requested-Named r (ok a, c) = result-Named _ _ _
  requested-Named r (err e, c) = result-Named _ _ _

  logged_out-Named : (r : Runner) (p : Outcome × Session) → Named s (logged_out s r p)
  unfolding logged_out
  logged_out-Named r (returns, session) = result-Named _ _ _
  logged_out-Named r (fails e, session) = result-Named _ _ _
  logged_out-Named r (out_of_bounds, session) = result-Named _ _ _

  placed-Named :
      (a : PlaceArgs) (r : Runner) (answer : Result OrderToken × Client)
      → Named s (placed s a r answer)
  unfolding placed
  placed-Named a r (ok t, c) = result-Named _ _ _
  placed-Named a r (err e, c) = if-Named _ _ _ (result-Named _ _ _) (result-Named _ _ _)

  place_on-Named :
      (a : PlaceArgs) (r : Runner) (inst : Option Instrument) → Named s (place_on s a r inst)
  unfolding place_on
  place_on-Named a r none = result-Named _ _ _
  place_on-Named a r (some inst) = placed-Named a r _

  cancel_indexed-Named :
      (token_ref : List ℕ) (r : Runner) (o : Option IndexedOrder)
      → Named s (cancel_indexed s token_ref r o)
  unfolding cancel_indexed
  cancel_indexed-Named token_ref r none = result-Named _ _ _
  cancel_indexed-Named token_ref r (some o) = requested-Named r _

  after_drain-AllNamed :
      (token_ref : List ℕ) (drained : Option Runner) → AllNamed s (after_drain s token_ref drained)
  unfolding after_drain
  after_drain-AllNamed token_ref none = none-AllNamed
  after_drain-AllNamed token_ref (some r) = some-AllNamed _ (cancel_indexed-Named token_ref r _)

  quote_on-Named :
      (a : MassQuoteArgs) (r : Runner) (entries : List ℕ ⊎ List QuoteEntryArgs)
      → Named s (quote_on s a r entries)
  unfolding quote_on
  quote_on-Named a r (inl symbol) = result-Named _ _ _
  quote_on-Named a r (inr entries) = requested-Named r _

  passes_if_active-Named : (why : List ℕ) (r : Runner) → Named s (passes_if_active s why r, r)
  unfolding Named
  passes_if_active-Named why r = ground arith

  relinked-Named :
      (why : List ℕ) (r : Runner) (answer : Result (Unit {0}) × Client × List SessionEvent)
      → Named s (relinked s why r answer)
  unfolding relinked
  relinked-Named why r (ok u, c, evs) = passes_if_active-Named why _
  relinked-Named why r (err e, c, evs) = result-Named _ _ _

  switch_by-Named :
      (a : SwitchGatewayArgs) (r : Runner) (t : Option TransportControl)
      → Named s (switch_by s a r t)
  unfolding switch_by
  switch_by-Named a r none = result-Named _ _ _
  switch_by-Named a r (some t) = search relinked-Named

  login_waited-AllNamed : (w : LoginWait × Runner) → AllNamed s (login_waited s w)
  unfolding login_waited
  login_waited-AllNamed (LoginWait.left, r) = some-AllNamed _ (passes_if_active-Named not_active r)
  login_waited-AllNamed (LoginWait.stopped why, r) = some-AllNamed _ (result-Named _ _ _)
  login_waited-AllNamed (LoginWait.unended, r) = none-AllNamed

  login_here-AllNamed : (p : Outcome × Session) (r : Runner) → AllNamed s (login_here s p r)
  unfolding login_here
  login_here-AllNamed (returns, session) r = login_waited-AllNamed _
  login_here-AllNamed (fails e, session) r = some-AllNamed _ (result-Named _ _ _)
  login_here-AllNamed (out_of_bounds, session) r = none-AllNamed

  login_by-AllNamed :
      (a : LoginArgs) (r : Runner) (t : Option TransportControl) → AllNamed s (login_by s a r t)
  unfolding login_by
  login_by-AllNamed a r none = login_here-AllNamed _ r
  login_by-AllNamed a r (some t) = search (some-AllNamed, relinked-Named)

  run_login-AllNamed : (a : LoginArgs) (r : Runner) → AllNamed s (run_login s a r)
  unfolding run_login
  run_login-AllNamed a r =
      if-AllNamed _ _ _ (some-AllNamed _ (result-Named _ _ _)) (login_by-AllNamed a r r.transport)

  burst_result-Named : (a : BurstPlaceArgs) (b : Burst × Runner) → Named s (burst_result s a b)
  unfolding burst_result
  burst_result-Named a (Burst.all_sent, r) = result-Named _ _ _
  burst_result-Named a (Burst.stopped why, r) = result-Named _ _ _

  run_burst_place-Named : (a : BurstPlaceArgs) (r : Runner) → Named s (run_burst_place s a r)
  unfolding run_burst_place
  run_burst_place-Named a r = search (if-Named, result-Named, burst_result-Named)

  act-AllNamed : (fuel : ℕ) (r : Runner) → AllNamed s (act fuel s r)
  unfolding act run_logout run_place run_cancel_t run_cancel_id run_replace run_quote
      run_switch_gateway
  act-AllNamed fuel r =
      search
        (
          if-AllNamed, some-AllNamed, run_login-AllNamed, logged_out-Named, place_on-Named,
          requested-Named, after_drain-AllNamed, quote_on-Named, switch_by-Named,
          run_burst_place-Named, result-Named,
        )
        depth 16

  judged-AllNamed :
      (res : StepResult) (v : Option Verdict × Runner) (r : Runner)
      → Named s (res, r)
      → AllNamed s (judged res v)
  unfolding judged Named AllNamed
  judged-AllNamed res (none, r') r h = tt
  judged-AllNamed res (some matches, r') r h = h
  judged-AllNamed res (some (differs why), r') r h = h

  check_expect-AllNamed :
      (default : ℤ) (exp : Option Expect) (p : StepResult × Runner)
      → Named s p
      → AllNamed s (check_expect default exp p)
  unfolding check_expect
  check_expect-AllNamed default none (res, r) h = some-AllNamed _ h
  check_expect-AllNamed default (some exp) (res, r) h =
      search (if-AllNamed, judged-AllNamed, some-AllNamed, h)

  timed-Named : (t0 : ℕ) (p : StepResult × Runner) → Named s p → Named s (timed t0 p)
  unfolding timed Named
  timed-Named t0 (res, r) h = h

  next-AllNamed :
      (o : Option (StepResult × Runner)) (rest : StepResult × Runner → Option (StepResult × Runner))
      → AllNamed s o
      → ((p : StepResult × Runner) → Named s p → AllNamed s (rest p))
      → AllNamed s (next o rest)
  unfolding next AllNamed
  next-AllNamed none rest h step = tt
  next-AllNamed (some p) rest h step = step p h

  run_step-AllNamed : (fuel : ℕ) (default : ℤ) (r : Runner) → AllNamed s (run_step fuel default s r)
  unfolding run_step
  run_step-AllNamed fuel default r = next-AllNamed _ _ (act-AllNamed fuel _) λ acted named.
      next-AllNamed _ _ (check_expect-AllNamed default s.expect acted named)
        λ checked still. some-AllNamed _ (timed-Named _ checked still)

-- What a result and a step are known by.
abbrev pub result_label : StepResult → ℤ × List ℕ
result_label res = (res.id, res.action)

abbrev pub step_label : Step → ℤ × List ℕ
step_label s = (s.id, s.action)

abbrev pub AllListed : List Step → Option (List StepResult × Runner) → Type 0
AllListed steps none = Unit
AllListed steps (some (results, r)) = map result_label results ≡ map step_label steps

add_result-AllListed :
    (s : Step) (ss : List Step) (res : StepResult) (o : Option (List StepResult × Runner))
    → (res.id ≡ s.id) × (res.action ≡ s.action)
    → AllListed ss o
    → AllListed (s ∷ ss) (add_result res o)
add_result-AllListed s ss res none named listed = tt
add_result-AllListed s ss res (some (results, r)) (id, action) listed =
    ap₂ (λ (i : ℤ) (rest : List (ℤ × List ℕ)). (i, res.action) ∷ rest) id listed
    ∙ ap (λ (a : List ℕ). (s.id, a) ∷ map step_label ss) action

next-AllListed :
    (s : Step) (ss : List Step) (o : Option (StepResult × Runner))
    (rest : StepResult × Runner → Option (List StepResult × Runner))
    → AllNamed s o
    → ((p : StepResult × Runner) → AllListed ss (rest p))
    → AllListed (s ∷ ss) (next o λ (p : StepResult × Runner). add_result p.0 (rest p))
unfolding next AllNamed Named
next-AllListed s ss none rest h listed = tt
next-AllListed s ss (some (res, r)) rest h listed =
    add_result-AllListed s ss res (rest (res, r)) h (listed (res, r))

run_steps-AllListed :
    (fuel : ℕ) (default : ℤ) (steps : List Step) (r : Runner)
    → AllListed steps (run_steps fuel default steps r)
unfolding run_steps
run_steps-AllListed fuel default [] r = refl
run_steps-AllListed fuel default (s ∷ ss) r =
    next-AllListed s ss _ _ (run_step-AllNamed s fuel default r)
      λ (p : StepResult × Runner). run_steps-AllListed fuel default ss p.1

-- A run that comes back has one result for each step of the scenario, in the order of the steps, with
-- that step's number and action, whatever the steps do.
pub run-AllListed : (fuel : ℕ) (sc : Scenario) (r : Runner) → AllListed sc.steps (run fuel sc r)
unfolding run
run-AllListed fuel sc r = run_steps-AllListed fuel sc.default_timeout_ms sc.steps r
