-- ===== src/Runner/Replay.antt =====
-- include/bist/runner/replay.hpp and transport.hpp: the state of `ScenarioRunner`, its event queue and
-- how it waits for the next event.
pub mod Wait
use ouchservice.Prelude.{
  ℕ, ◌+◌, ◌-◌, ◌*◌, ◌%◌, ◌^◌, Bool, List, [], ◌∷◌, ◌++◌, Option, none, some, if◌then◌else◌, ltb,
  length, take, String, codes, lookup, insert, bytes_eq_instance,
}
use ouchservice.Prelude.Int.{ℤ, pos, to_u64}
use ouchservice.Core.Types.{Side, side_from_wire, Error, Result, ok, err}
use ouchservice.Core.Alpha.{alpha_get, token_size}
use ouchservice.Domain.Instrument.{InstrumentCache}
use ouchservice.Ouch.Session.State.{
  Session, Callback, Outcome, returns, fails, out_of_bounds, first_or_zero, rest_of,
}
use ouchservice.Ouch.Session.Timers.{poll_io}
use ouchservice.Ouch.Client.{Client}
use ouchservice.Runner.Scenario.{Step}
use ouchservice.Runner.Events.{SessionEvent}

-- `ITransportControl`: it drops and rebuilds the session of the client, and the handlers may push
-- events meanwhile.
pub record TransportControl : Type 0 where
  pub reconnect_and_login :
      List ℕ
      → List ℕ
      → ℕ
      → Client × List SessionEvent
      → Result (Unit {0}) × Client × List SessionEvent
  pub hard_disconnect : Client × List SessionEvent → Result (Unit {0}) × Client × List SessionEvent
  pub switch_to_secondary :
      Bool
      → List ℕ
      → ℕ
      → Client × List SessionEvent
      → Result (Unit {0}) × Client × List SessionEvent

-- The order id, order book and side that a token stands for.
pub record IndexedOrder : Type 0 where
  pub order_id : ℕ
  pub order_book_id : ℕ
  pub side : Side

-- `ScenarioRunner`. `session_` is the session of the client. `clock` has the coming readings of
-- `monotonic_ns()` that the runner and the throttler make, `wall_clock` those of `wall_ns()`; the
-- session has its own. The trigger of the end of the day acts on the gateway, which the session meets
-- as its environment.
pub record Runner : Type 0 where
  pub client : Client
  pub instruments : InstrumentCache
  pub transport : Option TransportControl
  pub eod_trigger : Option (Session → Session)
  pub events : List SessionEvent
  pub token_by_step_id : List (ℤ × List ℕ)
  pub token_index : List (List ℕ × IndexedOrder)
  pub clock : List ℕ
  pub wall_clock : List ℕ

pub record StepResult : Type 0 where
  pub id : ℤ
  pub action : List ℕ
  pub passed : Bool
  pub detail : List ℕ
  pub elapsed_ns : ℤ

unfoldable pub push_event : SessionEvent → Runner → Runner
push_event ev r = record r { events = r.events ++ (ev ∷ []) }

-- The event that a handler pushes.
abbrev pub events_of : Callback → List SessionEvent
events_of (Callback.on_accepted m) = SessionEvent.accepted m ∷ []
events_of (Callback.on_rejected m) = SessionEvent.rejected m ∷ []
events_of (Callback.on_replaced m) = SessionEvent.replaced m ∷ []
events_of (Callback.on_canceled m) = SessionEvent.canceled m ∷ []
events_of (Callback.on_executed m) = SessionEvent.executed m ∷ []
events_of (Callback.on_mass_quote_ack m) = SessionEvent.quote_ack m ∷ []
events_of (Callback.on_mass_quote_reject m) = SessionEvent.quote_rejected m ∷ []
events_of _ = []

-- What a list of callbacks, the newest first, pushes in the order of the calls.
abbrev pub pushed : List Callback → List SessionEvent
pushed [] = []
pushed (c ∷ cs) = pushed cs ++ events_of c

abbrev pub new_callbacks : Session → Session → List Callback
new_callbacks before after = take (length after.callbacks - length before.callbacks) after.callbacks

-- The runner around a session that has moved on.
unfoldable pub with_session : Session → Runner → Runner
with_session s r = record r {
  client = record r.client { session = s };
  events = r.events ++ pushed (new_callbacks r.client.session s);
}

unfoldable pub poll : Runner → Outcome × Runner
unfolding with_session
poll r = let (o, s) = poll_io r.client.session in (o, with_session s r)

abbrev pub with_clock : List ℕ → Runner → Runner
with_clock readings r = record r { clock = readings }

unfoldable pub index_token : List ℕ → ℕ → ℕ → ℕ → Runner → Runner
index_token token order_id book side r = record r {
  token_index =
      insert (alpha_get token_size token)
        (record { order_id = order_id; order_book_id = book; side = side_from_wire side })
        r.token_index;
}

unfoldable pub update_indices : SessionEvent → Runner → Runner
unfolding index_token
update_indices (SessionEvent.accepted m) r =
    index_token m.order_token m.order_id m.order_book_id m.side r
update_indices (SessionEvent.replaced m) r =
    index_token m.replacement_order_token m.order_id m.order_book_id m.side r
update_indices (SessionEvent.rejected m) r = r
update_indices (SessionEvent.canceled m) r = r
update_indices (SessionEvent.executed m) r = r
update_indices (SessionEvent.quote_ack m) r = r
update_indices (SessionEvent.quote_rejected m) r = r

-- How `wait_for_event` ends: with an event, or with `false`. It is still waiting when the clock gives
-- no more readings; `undefined` is a read past the session's input buffer.
pub data Waited : Type 0 where
  got : SessionEvent → Waited
  gave_up still_waiting undefined : Waited

unfoldable pub after_poll : Outcome × Runner → (Runner → Waited × Runner) → Waited × Runner
after_poll (returns, r) next = next r
after_poll (fails e, r) next = (Waited.gave_up, r)
after_poll (out_of_bounds, r) next = (Waited.undefined, r)

-- `while (events_.empty())`, and what follows the loop.
unfoldable pub unless_event :
    List SessionEvent → Runner → (Runner → Waited × Runner) → Waited × Runner
unfolding update_indices
unless_event [] r turn = turn r
unless_event (ev ∷ evs) r turn = (Waited.got ev, update_indices ev (record r { events = evs }))

unfoldable pub wait_loop : List ℕ → ℕ → Runner → Waited × Runner
unfolding unless_event after_poll poll
wait_loop [] deadline r =
    unless_event r.events (with_clock [] r)
      λ r1. after_poll (poll r1) λ r2. (Waited.still_waiting, r2)
wait_loop (t ∷ ts) deadline r = unless_event r.events (with_clock (t ∷ ts) r) λ r1.
    after_poll (poll r1) λ r2.
      let rest = wait_loop ts deadline r2 in
      if ltb deadline t then (Waited.gave_up, with_clock ts r2) else rest

abbrev pub deadline_after : ℤ → Runner → ℕ
deadline_after timeout_ms r = (first_or_zero r.clock + to_u64 timeout_ms * 1_000_000) % 2 ^ 64

unfoldable pub wait_for_event : ℤ → Runner → Waited × Runner
unfolding wait_loop
wait_for_event timeout_ms r = wait_loop (rest_of r.clock) (deadline_after timeout_ms r) r
