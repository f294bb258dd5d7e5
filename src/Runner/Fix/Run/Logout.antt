-- ===== src/Runner/Fix/Run/Logout.antt =====
-- What a met expectation of a logout leaves behind (include/bist/runner/fix_replay.hpp).
use ouchservice.Prelude.{
  ℕ, ◌≡◌, refl, true, false, List, [], ◌∷◌, Option, some, if◌then◌else◌, ltb, codes, Bool, arith,
  ap, sym, subst, ◌<◌, ◌++◌, ◌∙◌,
}
use ouchservice.Prelude.Int.{ℤ}
use ouchservice.Runner.Scenario.{Expect}
use ouchservice.Runner.Fields.{Verdict, matches}
use ouchservice.Runner.Run.{is}
use ouchservice.Runner.Fix.Steps.{FixRunner}
use ouchservice.Runner.Fix.Run.{any_active, after, logout_loop, logged_out, match_expectation}

module _ {W : Type 0} where
  -- A wait over the looks `turns` that is met: at one of them, at a time before the deadline, every
  -- session was inactive; it is the last look that was taken, and the queue has been emptied.
  pub record IsQuiet (turns : List (ℕ × W)) (deadline : ℕ) (r : FixRunner W) : Type 0 where
    pub before : List (ℕ × W)
    pub seen_at : ℕ
    pub looked : turns ≡ before ++ ((seen_at, r.world) ∷ r.turns)
    pub in_time : seen_at < deadline
    pub inactive : any_active r r.world ≡ false
    pub emptied : r.events ≡ []

  -- The same of an answer, if that is that the wait is met.
  abbrev Met : List (ℕ × W) → ℕ → Option Verdict × FixRunner W → Type 0
  Met turns deadline p = p.0 ≡ some matches → IsQuiet turns deadline p.1

  if-Met :
      (turns : List (ℕ × W)) (deadline : ℕ) (b : Bool) (p q : Option Verdict × FixRunner W)
      → (b ≡ true → Met turns deadline p)
      → (b ≡ false → Met turns deadline q)
      → Met turns deadline (if b then p else q)
  if-Met turns deadline true p q hp hq = hp refl
  if-Met turns deadline false p q hp hq = hq refl

  later-IsQuiet :
      (turn : ℕ × W) (ts : List (ℕ × W)) (deadline : ℕ) (r : FixRunner W)
      → IsQuiet ts deadline r
      → IsQuiet (turn ∷ ts) deadline r
  later-IsQuiet turn ts deadline r quiet = record {
    before = turn ∷ quiet.before;
    seen_at = quiet.seen_at;
    looked = ap (λ us. turn ∷ us) quiet.looked;
    in_time = quiet.in_time;
    inactive = quiet.inactive;
    emptied = quiet.emptied;
  }

  logout_loop-Met :
      (ts : List (ℕ × W)) (deadline : ℕ) (r : FixRunner W)
      → Met ts deadline (logout_loop ts deadline r)
  unfolding logout_loop
  logout_loop-Met [] deadline r = λ e. ground (arith, e)
  logout_loop-Met ((t, w) ∷ ts) deadline r =
      if-Met _ deadline (ltb t deadline) _ _
        (λ early.
          if-Met _ deadline (any_active r w) _ _
            (λ active met. later-IsQuiet (t, w) ts deadline _ (logout_loop-Met ts deadline _ met))
            (λ inactive met. record {
              before = [];
              seen_at = t;
              looked = refl;
              in_time = ground (arith, early);
              inactive = inactive;
              emptied = refl;
            }))
        (λ late met. ground (arith, met))

  match_expectation-logged_out :
      (exp : Expect) (timeout_ms : ℤ) (r : FixRunner W)
      → exp.msg ≡ codes "fix_logout_complete"
      → match_expectation exp timeout_ms r ≡ logged_out r.turns timeout_ms r
  unfolding match_expectation
  match_expectation-logged_out exp timeout_ms r names =
      let other : is exp.msg "server_heartbeat" ≡ false = ap (λ m. is m "server_heartbeat") names in
      let logout : is exp.msg "fix_logout_complete" ≡ true =
        ap (λ m. is m "fix_logout_complete") names in
      rw (other, logout) refl

  -- If waiting for the end of the sessions succeeds, then at one of the looks, at a reading of the clock
  -- before the deadline that the first reading and the timeout give, every client's session was
  -- inactive; the wait has ended with that look, and no event from before is left in the queue.
  pub match_expectation-IsQuiet :
      (exp : Expect) (timeout_ms : ℤ) (r : FixRunner W) (now : ℕ) (w : W) (ts : List (ℕ × W))
      → exp.msg ≡ codes "fix_logout_complete"
      → r.turns ≡ (now, w) ∷ ts
      → (match_expectation exp timeout_ms r).0 ≡ some matches
      → IsQuiet ts (after now timeout_ms) (match_expectation exp timeout_ms r).1
  unfolding logged_out
  match_expectation-IsQuiet exp timeout_ms r now w ts names starts met =
      let waits : match_expectation exp timeout_ms r ≡ logout_loop ts (after now timeout_ms) r =
        match_expectation-logged_out exp timeout_ms r names
        ∙ ap (λ us. logged_out us timeout_ms r) starts in
      subst (Met ts (after now timeout_ms)) (sym waits)
        (logout_loop-Met ts (after now timeout_ms) r) met
