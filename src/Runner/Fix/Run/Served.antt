-- ===== src/Runner/Fix/Run/Served.antt =====
-- When an expectation of include/bist/runner/fix_replay.hpp is met: the loop against a count.
use ouchservice.Prelude.{
  ℕ, zero, suc, ◌+◌, ◌<◌, max, ◌≡◌, Bool, true, false, List, [], ◌∷◌, ◌++◌, Option, none, some,
  if◌then◌else◌, leb, length, arith, sym, ◌∙◌,
}
use ouchservice.Prelude.Int.{ℤ, pos_part}
use ouchservice.Runner.Scenario.{Expect}
use ouchservice.Runner.Fields.{Verdict, matches}
use ouchservice.Runner.Run.{is}
use ouchservice.Runner.Fix.Events.{FixEvent}
use ouchservice.Runner.Fix.Steps.{FixRunner}
use ouchservice.Runner.Fix.Run.{
  counts, arriving, times_out, enough, timed_out, with_queue, take_event, wait_for_event, on_taken,
  match_loop, match_expectation,
}

-- How many events count.
abbrev pub counted : Expect → List FixEvent → ℕ
counted exp [] = 0
counted exp (ev ∷ evs) = (if counts exp ev then 1 else 0) + counted exp evs

-- What the loop ought to answer: success if enough of the events count, and otherwise a timeout, or
-- nothing yet if no wait times out.
abbrev pub answer : ℕ → Expect → List FixEvent → Bool → Option Verdict
answer needed exp evs times_out =
    if leb needed (counted exp evs)
    then some matches
    else if times_out
    then some (timed_out exp)
    else none

none_counted :
    (needed : ℕ) (v : Option Verdict) → (if leb (suc needed) 0 then some matches else v) ≡ v
none_counted needed v = ground arith

one_counted :
    (b : Bool) (needed n : ℕ) (v : Option Verdict)
    → (if leb (if b then needed else suc needed) n then some matches else v)
      ≡ (if leb (suc needed) ((if b then 1 else 0) + n) then some matches else v)
one_counted true needed n v = ground arith
one_counted false needed n v = ground arith

module _ {W : Type 0} where
  match_loop-queue :
      (fuel needed : ℕ) (exp : Expect) (evs : List FixEvent) (batches : List (List FixEvent))
      (r : FixRunner W)
      → length (evs ++ arriving batches) < fuel
      → (match_loop fuel needed exp (with_queue evs batches r)).0
        ≡ answer needed exp (evs ++ arriving batches) (times_out batches)
  unfolding match_loop wait_for_event take_event on_taken
  match_loop-queue fuel zero exp evs batches r h = ground arith
  match_loop-queue zero (suc needed) exp evs batches r h = ground arith
  match_loop-queue (suc fuel) (suc needed) exp (ev ∷ evs) batches r h =
      match_loop-queue fuel (if counts exp ev then needed else suc needed) exp evs batches r
        (omega (arith, h))
      ∙ one_counted (counts exp ev) needed _ _
  match_loop-queue (suc fuel) (suc needed) exp [] [] r h = sym (none_counted needed none)
  match_loop-queue (suc fuel) (suc needed) exp [] ([] ∷ batches) r h =
      sym (none_counted needed (some (timed_out exp)))
  match_loop-queue (suc fuel) (suc needed) exp [] ((ev ∷ evs) ∷ batches) r h =
      match_loop-queue fuel (if counts exp ev then needed else suc needed) exp evs batches r
        (omega (arith, h))
      ∙ one_counted (counts exp ev) needed _ _

  -- An expectation of the FIX runner that is not about a heartbeat or a logout is met exactly if, among
  -- the events that are queued or arrive before a wait times out, at least as many count as it has
  -- occurrences (one if it has none), in whatever order and with whatever events between them. If not,
  -- the answer is the timeout once one wait times out. Until then there is none, however many events
  -- have come and been dropped, since each of them starts the timeout again.
  pub match_expectation-count :
      (exp : Expect) (timeout_ms : ℤ) (r : FixRunner W)
      → is exp.msg "server_heartbeat" ≡ false
      → is exp.msg "fix_logout_complete" ≡ false
      → (match_expectation exp timeout_ms r).0
        ≡ answer
            (max 1 (pos_part exp.occurrences))
            exp
            (r.events ++ arriving r.incoming)
            (times_out r.incoming)
  unfolding match_expectation
  match_expectation-count exp timeout_ms r no_heartbeat no_logout =
      rw (no_heartbeat, no_logout)
        (match_loop-queue (enough r.events r.incoming) (max 1 (pos_part exp.occurrences)) exp
          r.events r.incoming r (omega arith))
