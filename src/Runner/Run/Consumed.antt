-- ===== src/Runner/Run/Consumed.antt =====
-- What an expectation takes off the queue of include/bist/runner/replay.hpp.
use ouchservice.Prelude.{
  ℕ, false, inl, inr, max, ◌≡◌, refl, List, [], ◌∷◌, ◌++◌, some, length, All, ap, sym, ◌∙◌, subst,
}
use ouchservice.Prelude.Int.{ℤ, pos_part}
use ouchservice.Ouch.Session.State.{rest_of}
use ouchservice.Runner.Scenario.{Expect}
use ouchservice.Runner.Fields.{matches}
use ouchservice.Runner.Events.{SessionEvent, ouch_event_name, ouch_event_matches}
use ouchservice.Runner.Events.Match.{ouch_event_matches_iff}
use ouchservice.Runner.Replay.{Runner, update_indices, index_token}
use ouchservice.Runner.Replay.Wait.{wait_for_event-got}
use ouchservice.Runner.Run.{is, match_expectation, match_loop, on_waited, on_verdict}

-- The runner once the events at the front are taken, each after a reading of the clock.
abbrev pub taken : List SessionEvent → List SessionEvent → Runner → Runner
taken [] rest r = r
taken (ev ∷ evs) rest r =
    taken evs rest (update_indices ev (record r { events = evs ++ rest; clock = rest_of r.clock }))

update_indices-events : (ev : SessionEvent) (r : Runner) → (update_indices ev r).events ≡ r.events
unfolding update_indices index_token
update_indices-events (SessionEvent.accepted m) r = refl
update_indices-events (SessionEvent.rejected m) r = refl
update_indices-events (SessionEvent.replaced m) r = refl
update_indices-events (SessionEvent.canceled m) r = refl
update_indices-events (SessionEvent.executed m) r = refl
update_indices-events (SessionEvent.quote_ack m) r = refl
update_indices-events (SessionEvent.quote_rejected m) r = refl

match_loop-taken :
    (evs rest : List SessionEvent) (exp : Expect) (timeout_ms : ℤ) (r : Runner)
    → r.events ≡ evs ++ rest
    → All (λ ev. ouch_event_matches exp ev ≡ matches) evs
    → (match_loop (length evs) exp timeout_ms r ≡ (some matches, taken evs rest r))
      × ((taken evs rest r).events ≡ rest)
unfolding match_loop on_waited on_verdict
match_loop-taken [] rest exp timeout_ms r queued met = (refl, queued)
match_loop-taken (ev ∷ evs) rest exp timeout_ms r queued met =
    let r1 : Runner = record r { events = evs ++ rest; clock = rest_of r.clock } in
    let (loop, left) =
      match_loop-taken evs rest exp timeout_ms (update_indices ev r1) (update_indices-events ev r1)
        met.1 in
    (
      ap (λ w. on_waited exp w (match_loop (length evs) exp timeout_ms))
            (wait_for_event-got timeout_ms r ev (evs ++ rest) queued)
          ∙ ap (λ v. on_verdict v (update_indices ev r1) (match_loop (length evs) exp timeout_ms))
              met.0
          ∙ loop,
      left,
    )

-- A message that names an event is none of those that `match_expectation` answers from the state.
abbrev NamesEvent : List ℕ → Type 0
NamesEvent m =
    (is m "login_accepted" ≡ false)
    × (is m "login_rejected" ≡ false)
    × (is m "socket_closed" ≡ false)
    × (is m "server_heartbeat" ≡ false)

name-NamesEvent : (ev : SessionEvent) → NamesEvent (ouch_event_name ev)
unfolding ouch_event_name
name-NamesEvent (SessionEvent.accepted m) = (refl, refl, refl, refl)
name-NamesEvent (SessionEvent.rejected m) = (refl, refl, refl, refl)
name-NamesEvent (SessionEvent.replaced m) = (refl, refl, refl, refl)
name-NamesEvent (SessionEvent.canceled m) = (refl, refl, refl, refl)
name-NamesEvent (SessionEvent.executed m) = (refl, refl, refl, refl)
name-NamesEvent (SessionEvent.quote_ack m) = (refl, refl, refl, refl)
name-NamesEvent (SessionEvent.quote_rejected m) = (refl, refl, refl, refl)

met-NamesEvent :
    (exp : Expect) (ev : SessionEvent) → ouch_event_matches exp ev ≡ matches → NamesEvent exp.msg
met-NamesEvent exp ev met = elim ((ouch_event_matches_iff exp ev).0 met).0 [
  | inl named ↦ subst NamesEvent named (name-NamesEvent ev)
  | inr any ↦ subst NamesEvent (sym any) (refl, refl, refl, refl)
]

match_expectation-match_loop :
    (exp : Expect) (timeout_ms : ℤ) (r : Runner)
    → NamesEvent exp.msg
    → match_expectation exp timeout_ms r
      ≡ match_loop (max 1 (pos_part exp.occurrences)) exp timeout_ms r
unfolding match_expectation
match_expectation-match_loop exp timeout_ms r (a, b, c, d) = rw (a, b, c, d) refl

-- If the queue begins with as many events as the expectation has occurrences (one if it has none),
-- and each of these meets it, then it is met: exactly these events are taken, from the front, those
-- behind them stay queued, and the indices have been updated with each of them in turn.
pub match_expectation-taken :
    (ev : SessionEvent) (evs rest : List SessionEvent) (exp : Expect) (timeout_ms : ℤ) (r : Runner)
    → r.events ≡ (ev ∷ evs) ++ rest
    → length (ev ∷ evs) ≡ max 1 (pos_part exp.occurrences)
    → All (λ e. ouch_event_matches exp e ≡ matches) (ev ∷ evs)
    → (match_expectation exp timeout_ms r ≡ (some matches, taken (ev ∷ evs) rest r))
      × ((taken (ev ∷ evs) rest r).events ≡ rest)
match_expectation-taken ev evs rest exp timeout_ms r queued enough met =
    let (loop, left) = match_loop-taken (ev ∷ evs) rest exp timeout_ms r queued met in
    (
      match_expectation-match_loop exp timeout_ms r (met-NamesEvent exp ev met.0)
          ∙ ap (λ n. match_loop n exp timeout_ms r) (sym enough)
          ∙ loop,
      left,
    )
