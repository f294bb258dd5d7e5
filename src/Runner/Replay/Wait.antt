-- ===== src/Runner/Replay/Wait.antt =====
-- `wait_for_event` of include/bist/runner/replay.hpp comes back.
use ouchservice.Prelude.{
  ℕ, ◌<◌, ◌≡◌, ◌≢◌, refl, List, [], ◌∷◌, ◌++◌, arith, ltb, lt→ltb, if◌then◌else◌, true, false, Bool,
  sym, subst,
}
use ouchservice.Prelude.Int.{ℤ}
use ouchservice.Ouch.Session.State.{Outcome, returns, fails, out_of_bounds, rest_of}
use ouchservice.Runner.Events.{SessionEvent}
use ouchservice.Runner.Replay.{
  Runner, Waited, unless_event, after_poll, wait_loop, wait_for_event, deadline_after,
  update_indices,
}

-- The wait is over, one way or another.
abbrev pub Ended : Waited × Runner → Type 0
Ended w = w.0 ≢ Waited.still_waiting

unless_event-Ended :
    (evs : List SessionEvent) (r : Runner) (turn : Runner → Waited × Runner)
    → Ended (turn r)
    → Ended (unless_event evs r turn)
unfolding unless_event
unless_event-Ended [] r turn h = h
unless_event-Ended (ev ∷ evs) r turn h = λ e. ground (arith, e)

after_poll-Ended :
    (p : Outcome × Runner) (next : Runner → Waited × Runner)
    → ((r : Runner) → Ended (next r))
    → Ended (after_poll p next)
unfolding after_poll
after_poll-Ended (returns, r) next h = h r
after_poll-Ended (fails e, r) next h = λ d. ground (arith, d)
after_poll-Ended (out_of_bounds, r) next h = λ d. ground (arith, d)

if-Ended : (c : Bool) (a b : Waited × Runner) → Ended a → Ended b → Ended (if c then a else b)
if-Ended true a b ha hb = ha
if-Ended false a b ha hb = hb

if-Ended_late : (c : Bool) (a b : Waited × Runner) → c ≡ true → Ended a → Ended (if c then a else b)
if-Ended_late c a b e h = subst (λ d. Ended (if d then a else b)) (sym e) h

wait_loop-Ended :
    (before : List ℕ) (t : ℕ) (after : List ℕ) (deadline : ℕ) (r : Runner)
    → deadline < t
    → Ended (wait_loop (before ++ (t ∷ after)) deadline r)
unfolding wait_loop
wait_loop-Ended [] t after deadline r late = unless_event-Ended r.events _ _ (
    after_poll-Ended _ _
      (λ r2. if-Ended_late (ltb deadline t) _ _ (lt→ltb deadline t late) (λ e. ground (arith, e))))
wait_loop-Ended (u ∷ before) t after deadline r late = unless_event-Ended r.events _ _ (
    after_poll-Ended _ _ (λ r2.
      if-Ended (ltb deadline u) _ _ (λ e. ground (arith, e))
        (wait_loop-Ended before t after deadline r2 late)))

-- Waiting for an event ends once the clock shows a time past the deadline: the call then has returned
-- an event or `false`, unless the session has read past its input buffer.
pub wait_for_event-Ended :
    (timeout_ms : ℤ) (r : Runner) (before : List ℕ) (t : ℕ) (after : List ℕ)
    → rest_of r.clock ≡ before ++ (t ∷ after)
    → deadline_after timeout_ms r < t
    → Ended (wait_for_event timeout_ms r)
unfolding wait_for_event
wait_for_event-Ended timeout_ms r before t after e late =
    subst (λ ts. Ended (wait_loop ts (deadline_after timeout_ms r) r)) (sym e)
      (wait_loop-Ended before t after (deadline_after timeout_ms r) r late)

wait_loop-got :
    (ts : List ℕ) (deadline : ℕ) (r : Runner) (ev : SessionEvent) (evs : List SessionEvent)
    → r.events ≡ ev ∷ evs
    → wait_loop ts deadline r
      ≡ (Waited.got ev, update_indices ev (record r { events = evs; clock = ts }))
unfolding wait_loop unless_event
wait_loop-got [] deadline r ev evs e = rw e refl
wait_loop-got (t ∷ ts) deadline r ev evs e = rw e refl

-- An event that is queued is taken at once, with no turn of the session.
pub wait_for_event-got :
    (timeout_ms : ℤ) (r : Runner) (ev : SessionEvent) (evs : List SessionEvent)
    → r.events ≡ ev ∷ evs
    → wait_for_event timeout_ms r
      ≡ (Waited.got ev, update_indices ev (record r { events = evs; clock = rest_of r.clock }))
unfolding wait_for_event
wait_for_event-got timeout_ms r ev evs e =
    wait_loop-got (rest_of r.clock) (deadline_after timeout_ms r) r ev evs e
