-- ===== src/Runner/Run/Duplicate.antt =====
-- A place step of include/bist/runner/replay.hpp whose token has been used before.
use ouchservice.Prelude.{
  ℕ, ◌≡◌, refl, Bool, true, false, List, [], ◌∷◌, Option, some, inl, codes, ap, ap₂, ◌∙◌, ◌++◌,
  ◌&&◌, if◌then◌else◌,
}
use ouchservice.Prelude.Int.{ℤ, pos}
use ouchservice.Core.Types.{Error, ErrorCategory, Result, err}
use ouchservice.Core.Alpha.{OrderToken}
use ouchservice.Domain.Instrument.{Instrument, find_by_symbol}
use ouchservice.Domain.Throttler.{Throttler, try_acquire}
use ouchservice.Domain.TokenRegistry.{register_external}
use ouchservice.Ouch.Session.State.{first_or_zero}
use ouchservice.Ouch.Client.{
  Client, PlaceArgs as ClientPlaceArgs, is_empty, place, choose_token, with_tokens, with_throttler,
  when_acquired, on_token, place_with,
}
use ouchservice.Runner.Scenario.{PlaceArgs, Expect, Step}
use ouchservice.Runner.Fields.{matches, field_of, is_key, to_string, to_string_ℤ}
use ouchservice.Prelude.Decimal.{print_padded, count_digits, digits}
use ouchservice.Runner.Events.{
  SessionEvent, ouch_event_name, ouch_event_field, ouch_event_fields, ouch_event_matches,
}
use ouchservice.Runner.Events.Match.{ouch_event_matches_iff}
use ouchservice.Runner.Replay.{Runner, StepResult, push_event, update_indices}
use ouchservice.Runner.Steps.{
  now, text, result, with_client, order_args, placed, place_on, run_place, fake_rejection,
  synthesize, expects_rejection,
}
use ouchservice.Runner.Run.{check_expect, judged, timeout_or}
use ouchservice.Runner.Run.Consumed.{taken, match_expectation-taken}

-- The client once it has refused a token: it has asked its throttler, and has looked at the token.
abbrev refused : ℕ → List ℕ → Client → Client
refused t token c =
    with_tokens (register_external token c.tokens).1
      (with_throttler (try_acquire 0 t c.throttler).1 c)

duplicate : List ℕ → Error
duplicate token = record {
  category = ErrorCategory.validation;
  detail = "token already used: ";
  appended = token;
}

choose_token-duplicate :
    (token : List ℕ) (c : Client)
    → is_empty token ≡ false
    → (register_external token c.tokens).0 ≡ false
    → choose_token "token already used: " token c.tokens
      ≡ (err (duplicate token), (register_external token c.tokens).1)
unfolding choose_token duplicate
choose_token-duplicate token c given used = rw (given, used) refl

when_acquired-granted :
    (a : Bool × Throttler) (c : Client) (e : Error) (rest : Client → Result OrderToken × Client)
    → a.0 ≡ true
    → when_acquired a c e rest ≡ rest (with_throttler a.1 c)
when_acquired-granted (true, t) c e rest h = refl
when_acquired-granted (false, t) c e rest h = cc

place-duplicate :
    (t : ℕ) (args : ClientPlaceArgs) (c : Client)
    → (try_acquire 0 t c.throttler).0 ≡ true
    → is_empty args.explicit_token ≡ false
    → (register_external args.explicit_token c.tokens).0 ≡ false
    → place t args c ≡ (err (duplicate args.explicit_token), refused t args.explicit_token c)
unfolding place
place-duplicate t args c granted given used =
    let acquired = try_acquire 0 t c.throttler in
    let c' = with_throttler acquired.1 c in
    when_acquired-granted acquired c _ _ granted
    ∙ ap (λ k. on_token k c' (place_with args))
        (choose_token-duplicate args.explicit_token c' given used)

-- The expectation of the reject that the exchange would send, once.
abbrev pub rejection_expected : ℤ → Expect
rejection_expected timeout_ms = record {
  msg = codes "order_rejected";
  fields = (codes "reject_code", codes "-800002") ∷ [];
  occurrences = pos 1;
  timeout_ms = timeout_ms;
}

fake_rejection-matches :
    (token : List ℕ) (wall : ℕ) (timeout_ms : ℤ)
    → ouch_event_matches
        (rejection_expected timeout_ms)
        (SessionEvent.rejected (fake_rejection token wall))
      ≡ matches
unfolding ouch_event_name ouch_event_field ouch_event_fields field_of is_key fake_rejection
    to_string_ℤ to_string print_padded count_digits digits
fake_rejection-matches token wall timeout_ms =
    (ouch_event_matches_iff (rejection_expected timeout_ms)
        (SessionEvent.rejected (fake_rejection token wall))).1
      (inl refl, (refl, tt))

-- The runner once the step has queued its reject.
abbrev queued : PlaceArgs → Runner → Runner
queued a r = synthesize a.token (with_client (refused (now r) a.token r.client) r)

run_place-queued :
    (s : Step) (a : PlaceArgs) (r : Runner) (inst : Instrument) (timeout_ms : ℤ)
    → find_by_symbol a.symbol r.instruments ≡ some inst
    → (try_acquire 0 (now r) r.client.throttler).0 ≡ true
    → is_empty a.token ≡ false
    → (register_external a.token r.client.tokens).0 ≡ false
    → s.expect ≡ some (rejection_expected timeout_ms)
    → run_place s a r ≡ (
      result s true (codes "synthesized -800002 reject (duplicate token caught locally)"),
      queued a r,
    )
unfolding run_place place_on placed order_args duplicate
run_place-queued s a r inst timeout_ms known granted given used expects =
    ap (place_on s a r) known
    ∙ ap (placed s a r) (place-duplicate (now r) (order_args a inst) r.client granted given used)
    ∙ ap
        (λ (e : Option Expect).
          if expects_rejection e && true
          then (
            result s true (codes "synthesized -800002 reject (duplicate token caught locally)"),
            queued a r,
          )
          else (
            result s false (codes "place failed: " ++ text (duplicate a.token)),
            with_client (refused (now r) a.token r.client) r,
          ))
        expects

-- A place step of a known symbol whose token has been used before, and which expects one reject with
-- the code -800002, passes when the throttler grants it and no event is queued; its check takes the
-- event that the step itself has queued, and the session, with all that it has sent, is unchanged.
pub run_place-duplicate :
    (s : Step) (a : PlaceArgs) (r : Runner) (inst : Instrument) (timeout_ms default : ℤ)
    → find_by_symbol a.symbol r.instruments ≡ some inst
    → (try_acquire 0 (now r) r.client.throttler).0 ≡ true
    → is_empty a.token ≡ false
    → (register_external a.token r.client.tokens).0 ≡ false
    → s.expect ≡ some (rejection_expected timeout_ms)
    → r.events ≡ []
    → (res : StepResult) × (r' : Runner) × (check_expect default s.expect (run_place s a r)
        ≡ some (res, r'))
      × (res.passed ≡ true)
      × (r'.events ≡ [])
      × (r'.client.session ≡ r.client.session)
unfolding check_expect judged synthesize push_event update_indices
run_place-duplicate s a r inst timeout_ms default known granted given used expects empty =
    let res = result s true (codes "synthesized -800002 reject (duplicate token caught locally)") in
    let ev = SessionEvent.rejected (fake_rejection a.token (first_or_zero r.wall_clock)) in
    let exp = rejection_expected timeout_ms in
    let (met, left) =
      match_expectation-taken ev [] [] exp (timeout_or default exp) (queued a r)
        (ap (λ (evs : List SessionEvent). evs ++ (ev ∷ [])) empty) refl
        (fake_rejection-matches a.token (first_or_zero r.wall_clock) timeout_ms, tt) in
    (
      record res { passed = true },
      taken (ev ∷ []) [] (queued a r),
      ap₂ (check_expect default) expects
            (run_place-queued s a r inst timeout_ms known granted given used expects)
          ∙ ap (judged res) met,
      refl,
      refl,
      refl,
    )
