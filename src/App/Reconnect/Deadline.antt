-- ===== src/App/Reconnect/Deadline.antt =====
-- `reconnect_with_deadline` of include/bist/app/reconnect_policy.hpp comes back soon after its deadline.
use ouchservice.Prelude.{
  ℕ, ◌+◌, ◌*◌, ◌%◌, ◌^◌, ◌≤◌, ◌<◌, ◌≡◌, refl, Bool, true, false, List, [], ◌∷◌, ◌++◌, Option, none,
  some, if◌then◌else◌, ltb, leb, arith, sym, subst,
}
use ouchservice.Core.Types.{Error, ErrorCategory, Result, ok, err}
use ouchservice.App.Reconnect.{
  ReconnectPolicy, ReconnectState, Phase, attempted, reconnect_loop, pause_after, one_more,
  next_backoff, deadline_error, reconnect_with_deadline,
}

-- A pause does not last beyond the deadline.
abbrev Timely : ℕ → Phase → Type 0
Timely deadline (Phase.attempting backoff) = Unit
Timely deadline (Phase.pausing wake_at backoff) = wake_at ≤ deadline

pause_after-Timely :
    (policy : ReconnectPolicy) (deadline now backoff : ℕ)
    → now < deadline
    → Timely deadline (pause_after policy deadline now backoff)
unfolding pause_after
pause_after-Timely policy deadline now backoff h = ground arith

-- A pause that is over, or one that is not, is followed by a phase that is as timely.
resumed-Timely :
    (policy : ReconnectPolicy) (deadline t wake_at backoff : ℕ)
    → wake_at ≤ deadline
    → Timely deadline (
        if ltb t wake_at
        then Phase.pausing wake_at backoff
        else Phase.attempting (next_backoff policy backoff))
resumed-Timely policy deadline t wake_at backoff h = ground (arith, h)

module _ {W : Type 0} (try_connect : ℕ → W → Result (Unit {0}) × W) where
  -- The call has come back: after an attempt that has connected, without the risk of orders left behind;
  -- or after one that has failed, with that risk and a timeout error, which has the number of attempts
  -- and the error of this last one.
  abbrev pub Ends : Option (Result (Unit {0}) × ReconnectState × W) → Type 0
  Ends none = ⊥
  Ends (some (ok u, state, w)) =
      (state.cod_risk ≡ false) × (w0 : W) × (try_connect state.attempts w0 ≡ (ok u, w))
  Ends (some (err e, state, w)) =
      (state.cod_risk ≡ true)
      × (e.category ≡ ErrorCategory.timeout)
      × (last : Error) × (w0 : W) × (try_connect state.attempts w0 ≡ (err last, w))
      × (e ≡ deadline_error state.attempts last)

  if-Ends :
      (b : Bool) (p q : Option (Result (Unit {0}) × ReconnectState × W))
      → Ends p
      → (b ≡ false → Ends q)
      → Ends (if b then p else q)
  if-Ends true p q hp hq = hp
  if-Ends false p q hp hq = hq refl

  attempted-Ends :
      (deadline now : ℕ) (state : ReconnectState) (w0 : W) (answer : Result (Unit {0}) × W)
      (rest : W → Option (Result (Unit {0}) × ReconnectState × W))
      → try_connect state.attempts w0 ≡ answer
      → state.cod_risk ≡ false
      → (now < deadline → (w : W) → Ends (rest w))
      → Ends (attempted try_connect deadline now state answer rest)
  unfolding attempted deadline_error
  attempted-Ends deadline now state w0 (ok u, w) rest tried safe h = (safe, w0, tried)
  attempted-Ends deadline now state w0 (err e, w) rest tried safe h =
      if-Ends (leb deadline now) _ (rest w) (refl, refl, e, w0, tried, refl)
        (λ early. h (ground (arith, early)) w)

  module _ (policy : ReconnectPolicy) (deadline : ℕ) where
    attempt-Ends :
        (t : ℕ) (ts : List ℕ) (backoff : ℕ) (state : ReconnectState) (w : W)
        → deadline ≤ t
        → state.cod_risk ≡ false
        → Ends
            (reconnect_loop try_connect (t ∷ ts) (Phase.attempting backoff) policy deadline state w)
    unfolding reconnect_loop
    attempt-Ends t ts backoff state w late safe =
        attempted-Ends deadline t (one_more state) w _ _ refl safe
          (λ early. absurd (omega (arith, late, early)))

    late-Ends :
        (t u : ℕ) (ts : List ℕ) (phase : Phase) (state : ReconnectState) (w : W)
        → deadline ≤ t
        → deadline ≤ u
        → Timely deadline phase
        → state.cod_risk ≡ false
        → Ends (reconnect_loop try_connect (t ∷ u ∷ ts) phase policy deadline state w)
    unfolding reconnect_loop
    late-Ends t u ts (Phase.attempting backoff) state w ht hu timely safe =
        attempt-Ends t (u ∷ ts) backoff state w ht safe
    late-Ends t u ts (Phase.pausing wake_at backoff) state w ht hu timely safe =
        let over : ltb t wake_at ≡ false = ground (arith, ht, timely) in
        subst
          (λ b. Ends (
            reconnect_loop try_connect (u ∷ ts)
              (if b
                then Phase.pausing wake_at backoff
                else Phase.attempting (next_backoff policy backoff))
              policy deadline state w))
          (sym over) (attempt-Ends u ts (next_backoff policy backoff) state w hu safe)

    loop-Ends :
        (before : List ℕ) (t u : ℕ) (ts : List ℕ) (phase : Phase) (state : ReconnectState) (w : W)
        → deadline ≤ t
        → deadline ≤ u
        → Timely deadline phase
        → state.cod_risk ≡ false
        → Ends (reconnect_loop try_connect (before ++ (t ∷ u ∷ ts)) phase policy deadline state w)
    unfolding reconnect_loop
    loop-Ends [] t u ts phase state w ht hu timely safe =
        late-Ends t u ts phase state w ht hu timely safe
    loop-Ends (v ∷ before) t u ts (Phase.pausing wake_at backoff) state w ht hu timely safe =
        loop-Ends before t u ts _ state w ht hu
          (resumed-Timely policy deadline v wake_at backoff timely) safe
    loop-Ends (v ∷ before) t u ts (Phase.attempting backoff) state w ht hu timely safe =
        attempted-Ends deadline v (one_more state) w _ _ refl safe (λ early w'.
          loop-Ends before t u ts _ (one_more state) w' ht hu
            (pause_after-Timely policy deadline v backoff early) safe)

  -- Reconnecting has come back once the clock has shown two readings at or past the deadline, whatever
  -- the attempts answer and whatever the policy is: either the last attempt has connected and `cod_risk`
  -- is not set, or it has failed and `cod_risk` is set, with an error of the category timeout that has
  -- the number of attempts and the error of the last one.
  pub reconnect_with_deadline-Ends :
      (policy : ReconnectPolicy) (started : ℕ) (before : List ℕ) (t u : ℕ) (ts : List ℕ) (w : W)
      → (started + policy.deadline_ms * 1_000_000) % 2 ^ 64 ≤ t
      → (started + policy.deadline_ms * 1_000_000) % 2 ^ 64 ≤ u
      → Ends (reconnect_with_deadline try_connect (started ∷ (before ++ (t ∷ u ∷ ts))) policy w)
  unfolding reconnect_with_deadline
  reconnect_with_deadline-Ends policy started before t u ts w ht hu =
      loop-Ends policy _ before t u ts _ _ w ht hu tt refl
