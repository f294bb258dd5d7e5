-- ===== src/App/Reconnect.antt =====
-- include/bist/app/reconnect_policy.hpp: attempts to connect until a deadline. The connection itself is
-- the caller's.
pub mod Deadline
use ouchservice.Prelude.{
  ℕ, suc, ◌+◌, ◌-◌, ◌*◌, ◌%◌, ◌^◌, min, Bool, true, false, List, [], ◌∷◌, ◌++◌, Option, none, some,
  if◌then◌else◌, ltb, leb, ◌==◌, codes,
}
use ouchservice.Core.Types.{Error, ErrorCategory, Result, ok, err}
use ouchservice.Runner.Fields.{to_string}
use ouchservice.Runner.Steps.{text}

pub record ReconnectPolicy : Type 0 where
  pub deadline_ms : ℕ
  pub initial_backoff_ms : ℕ
  pub max_backoff_ms : ℕ

abbrev pub default_policy : ReconnectPolicy
default_policy = record { deadline_ms = 30_000; initial_backoff_ms = 500; max_backoff_ms = 15_000 }

pub record ReconnectState : Type 0 where
  pub started_ns : ℕ
  pub attempts : ℕ
  pub cod_risk : Bool

abbrev pub next_backoff : ReconnectPolicy → ℕ → ℕ
next_backoff policy backoff =
    let doubled = backoff * 2 % 2 ^ 32 in
    if ltb policy.max_backoff_ms doubled then policy.max_backoff_ms else doubled

abbrev pub deadline_of : ReconnectPolicy → ReconnectState → ℕ
deadline_of policy state = (state.started_ns + policy.deadline_ms * 1_000_000) % 2 ^ 64

abbrev pub sleep_until : ℕ → ℕ → ℕ → ℕ
sleep_until deadline now backoff = now + min (backoff * 1_000_000) (deadline - now)

unfoldable pub deadline_error : ℕ → Error → Error
deadline_error attempts last = record {
  category = ErrorCategory.timeout;
  detail = "CoD reconnect deadline elapsed after ";
  appended = to_string attempts ++ codes " attempt(s); last: " ++ text last;
}

abbrev pub one_more : ReconnectState → ReconnectState
one_more state = record state { attempts = suc state.attempts % 2 ^ 32 }

-- Where the loop stands: before an attempt, or in the pause that lasts until a time. Both carry the
-- backoff.
pub data Phase : Type 0 where
  attempting : ℕ → Phase
  pausing : ℕ → ℕ → Phase

-- The phase behind a failed attempt at the time `now`.
unfoldable pub pause_after : ReconnectPolicy → ℕ → ℕ → ℕ → Phase
pause_after policy deadline now backoff =
    if backoff == 0
    then Phase.attempting (next_backoff policy backoff)
    else Phase.pausing (sleep_until deadline now backoff) backoff

-- `try_connect` is the caller's, with a state of its own.
module _ {W : Type 0} (try_connect : ℕ → W → Result (Unit {0}) × W) where
  -- What follows an attempt: success, the deadline, or the rest of the loop.
  unfoldable pub attempted :
      ℕ
      → ℕ
      → ReconnectState
      → Result (Unit {0}) × W
      → (W → Option (Result (Unit {0}) × ReconnectState × W))
      → Option (Result (Unit {0}) × ReconnectState × W)
  unfolding deadline_error
  attempted deadline now state (ok u, w) rest = some (ok tt, state, w)
  attempted deadline now state (err e, w) rest =
      if leb deadline now
      then some (err (deadline_error state.attempts e), record state { cod_risk = true }, w)
      else rest w

  -- The loop over the coming readings of the clock; nothing when they are used up. A pause reads the
  -- clock until its time has come, a failed attempt reads it once.
  unfoldable pub reconnect_loop :
      List ℕ
      → Phase
      → ReconnectPolicy
      → ℕ
      → ReconnectState
      → W
      → Option (Result (Unit {0}) × ReconnectState × W)
  unfolding attempted pause_after
  reconnect_loop [] (Phase.pausing wake_at backoff) policy deadline state w = none
  reconnect_loop [] (Phase.attempting backoff) policy deadline state w =
      let (r, w') = try_connect (one_more state).attempts w in
      elim r [ ok u ↦ some (ok tt, one_more state, w') | err e ↦ none ]
  reconnect_loop (t ∷ ts) (Phase.pausing wake_at backoff) policy deadline state w =
      let phase =
        if ltb t wake_at
        then Phase.pausing wake_at backoff
        else Phase.attempting (next_backoff policy backoff) in
      reconnect_loop ts phase policy deadline state w
  reconnect_loop (t ∷ ts) (Phase.attempting backoff) policy deadline state w =
      attempted deadline t (one_more state) (try_connect (one_more state).attempts w) λ w'.
        reconnect_loop ts (pause_after policy deadline t backoff) policy deadline (one_more state)
          w'

  -- The first reading is the start.
  unfoldable pub reconnect_with_deadline :
      List ℕ → ReconnectPolicy → W → Option (Result (Unit {0}) × ReconnectState × W)
  unfolding reconnect_loop
  reconnect_with_deadline [] policy w = none
  reconnect_with_deadline (t ∷ ts) policy w =
      let state : ReconnectState = record { started_ns = t; attempts = 0; cod_risk = false } in
      reconnect_loop ts (Phase.attempting policy.initial_backoff_ms) policy
        (deadline_of policy state) state w
