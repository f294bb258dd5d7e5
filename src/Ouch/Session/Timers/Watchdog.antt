-- ===== src/Ouch/Session/Timers/Watchdog.antt =====
-- When the watchdog gives a session up.
use ouchservice.Prelude.{
  ℕ, ◌-◌, ◌^◌, ◌≤◌, ◌<◌, ◌≡◌, ◌≢◌, refl, ap, ◌∙◌, Bool, true, false, List, [], ◌∷◌, ◌++◌, arith,
  leb, if◌then◌else◌, ◌==◌, Bool-cases, inl, inr, take, drop, length, min,
}
use ouchservice.Core.Types.{ErrorCategory, make_error}
use ouchservice.Net.Soup.{header_codec, make_header, client_heartbeat}
use ouchservice.Ouch.Session.State.{
  Session, SessionState, SendReply, takes, send_fails, Outcome, returns, fails, out_of_bounds,
  first_or_zero, rest_of,
}
use ouchservice.Ouch.Session.Send.{is_active, and_then, write_loop, write_bytes, written}
use ouchservice.Ouch.Session.Timers.{
  since, watchdog, heartbeat_if_quiet, tick_timers, flush_pending, flush_loop,
}

-- What the watchdog looks at is the same.
abbrev IsUnheard : Session → Session → Type 0
IsUnheard s s' =
    (s'.last_recv_ns ≡ s.last_recv_ns)
    × (s'.heartbeat_timeout_ns ≡ s.heartbeat_timeout_ns)
    × (s'.state ≡ s.state)
    × (s'.clock ≡ s.clock)

IsUnheard-flush_loop :
    (replies : List SendReply) (kept : List ℕ) (s : Session)
    → IsUnheard s (flush_loop replies kept s)
unfolding flush_loop
IsUnheard-flush_loop replies [] s = (refl, refl, refl, refl)
IsUnheard-flush_loop [] (b ∷ bs) s = (refl, refl, refl, refl)
IsUnheard-flush_loop (send_fails ∷ replies) (b ∷ bs) s = (refl, refl, refl, refl)
IsUnheard-flush_loop (takes k ∷ replies) (b ∷ bs) s =
    let n = min k (length (b ∷ bs)) in
    let later : Session = record s { wire = s.wire ++ take n (b ∷ bs) } in
    elim (Bool-cases (n == 0)) [
      | inl z ↦ rw z (refl, refl, refl, refl)
      | inr nz ↦ rw nz (IsUnheard-flush_loop replies (drop n (b ∷ bs)) later)
    ]

IsUnheard-flush_pending : (s : Session) → IsUnheard s (flush_pending s)
unfolding flush_pending
IsUnheard-flush_pending s = split s.is_open
  where
    split : (b : Bool) → IsUnheard s (if b then flush_loop s.sends s.out_pending s else s)
    split true = IsUnheard-flush_loop s.sends s.out_pending s
    split false = (refl, refl, refl, refl)

-- The same without the clock, which a write reads.
abbrev IsSilent : Session → Session → Type 0
IsSilent s s' =
    (s'.last_recv_ns ≡ s.last_recv_ns) × (s'.heartbeat_timeout_ns ≡ s.heartbeat_timeout_ns)

IsSilent-write_loop :
    (replies : List SendReply) (buf rest : List ℕ) (s : Session)
    → IsSilent s (write_loop replies buf rest s).1
unfolding write_loop
IsSilent-write_loop replies buf [] s = (refl, refl)
IsSilent-write_loop [] buf (b ∷ bs) s = (refl, refl)
IsSilent-write_loop (send_fails ∷ replies) buf (b ∷ bs) s = (refl, refl)
IsSilent-write_loop (takes k ∷ replies) buf (b ∷ bs) s =
    let n = min k (length (b ∷ bs)) in
    let later : Session = record s { wire = s.wire ++ take n (b ∷ bs) } in
    elim (Bool-cases (n == 0)) [
      | inl z ↦ rw z (refl, refl)
      | inr nz ↦ rw nz (IsSilent-write_loop replies buf (drop n (b ∷ bs)) later)
    ]

IsSilent-write_bytes : (buf : List ℕ) (s : Session) → IsSilent s (write_bytes buf s).1
unfolding write_bytes written
IsSilent-write_bytes [] s = (refl, refl)
IsSilent-write_bytes (b ∷ bs) s = split s.is_open
  where
    split :
        (up : Bool)
        → IsSilent s
            (if up
              then write_loop s.sends (b ∷ bs) (b ∷ bs) s
              else (fails (make_error ErrorCategory.io "send on closed socket"), s)).1
    split true = IsSilent-write_loop s.sends (b ∷ bs) (b ∷ bs) s
    split false = (refl, refl)

IsSilent-heartbeat_if_quiet : (now : ℕ) (s : Session) → IsSilent s (heartbeat_if_quiet now s).1
unfolding heartbeat_if_quiet
IsSilent-heartbeat_if_quiet now s = split (leb s.heartbeat_send_ns (since now s.last_send_ns))
  where
    split :
        (quiet : Bool)
        → IsSilent s
            (if quiet
              then write_bytes (header_codec.write (make_header client_heartbeat 0)) s
              else (returns, s)).1
    split true = IsSilent-write_bytes (header_codec.write (make_header client_heartbeat 0)) s
    split false = (refl, refl)

watchdog-fails :
    (now : ℕ) (s : Session)
    → 0 < s.last_recv_ns
    → s.last_recv_ns ≤ now
    → now < 2 ^ 64
    → s.heartbeat_timeout_ns ≤ now - s.last_recv_ns
    → (watchdog now s).0 ≢ returns
unfolding watchdog
watchdog-fails now s heard le fits late =
    let z : (s.last_recv_ns == 0) ≡ false = ground arith in
    let l : leb s.heartbeat_timeout_ns (since now s.last_recv_ns) ≡ true = ground arith in
    rw (z, l) (λ p. cc)

and_then-fails :
    (r : Outcome × Session) (next : Session → Outcome × Session)
    → (next r.1).0 ≢ returns
    → (and_then r next).0 ≢ returns
and_then-fails (returns, s) next bad = bad
and_then-fails (fails e, s) next bad = λ p. cc
and_then-fails (out_of_bounds, s) next bad = λ p. cc

-- A tick of the timers fails in an active session that has heard its peer, but not for the timeout or
-- longer by a clock that has not gone back, whatever bytes it has to flush and whether or not it sends
-- a heartbeat.
pub tick_timers-late :
    (s : Session)
    → s.state ≡ SessionState.active
    → 0 < s.last_recv_ns
    → s.last_recv_ns ≤ first_or_zero s.clock
    → first_or_zero s.clock < 2 ^ 64
    → s.heartbeat_timeout_ns ≤ first_or_zero s.clock - s.last_recv_ns
    → (tick_timers s).0 ≢ returns
unfolding tick_timers
tick_timers-late s act heard le fits late =
    split (is_active flushed.state) (ap is_active (kept.2 ∙ act) ∙ unfold is_active in refl)
  where
    flushed : Session
    flushed = flush_pending s

    kept : IsUnheard s flushed
    kept = IsUnheard-flush_pending s

    now : ℕ
    now = first_or_zero flushed.clock

    now-eq : now ≡ first_or_zero s.clock
    now-eq = ap first_or_zero kept.3

    beat : Outcome × Session
    beat = heartbeat_if_quiet now (record flushed { clock = rest_of flushed.clock })

    silent : IsSilent flushed beat.1
    silent = IsSilent-heartbeat_if_quiet now (record flushed { clock = rest_of flushed.clock })

    split :
        (active : Bool)
        → active ≡ true
        → (if active then and_then beat (watchdog now) else (returns, flushed)).0 ≢ returns
    split true h = and_then-fails beat (watchdog now) (
        watchdog-fails now beat.1 (omega (arith, silent.0, kept.0))
          (omega (arith, silent.0, kept.0, now-eq)) (omega (arith, now-eq))
          (omega (arith, silent.0, silent.1, kept.0, kept.1, now-eq)))
    split false h = cc
