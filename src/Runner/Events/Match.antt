-- ===== src/Runner/Events/Match.antt =====
-- When an event meets an expectation (include/bist/runner/replay.hpp).
use ouchservice.Prelude.{
  ℕ, ◌≡◌, refl, List, [], ◌∷◌, ◌↔◌, ◌⊎◌, Option, none, some, bytes_eq_iff, codes, arith, All,
}
use ouchservice.Runner.Scenario.{Expect}
use ouchservice.Runner.Fields.{Verdict, matches, field_matches, expected_fields_match}
use ouchservice.Runner.Events.{SessionEvent, ouch_event_name, ouch_event_field, ouch_event_matches}

field_matches_iff :
    (key expected : List ℕ) (found : Option (List ℕ)) (rest : Verdict)
    → (field_matches key expected found rest ≡ matches)
      ↔ ((found ≡ some expected) × (rest ≡ matches))
field_matches_iff key expected none rest = ground arith
field_matches_iff key expected (some actual) rest = ground (arith, bytes_eq_iff actual expected)

-- The loop succeeds exactly if every key that is expected has the value that is expected.
pub expected_fields_match_iff :
    (fields : List (List ℕ × List ℕ)) (lookup : List ℕ → Option (List ℕ))
    → (expected_fields_match fields lookup ≡ matches) ↔ All (λ f. lookup f.0 ≡ some f.1) fields
unfolding expected_fields_match
expected_fields_match_iff [] lookup = (λ e. tt, λ t. refl)
expected_fields_match_iff ((key, expected) ∷ fields) lookup =
    let rest = expected_fields_match fields lookup in
    let here = field_matches_iff key expected (lookup key) rest in
    let there = expected_fields_match_iff fields lookup in
    (λ e. ((here.0 e).0, there.0 (here.0 e).1), λ h. here.1 (h.0, there.1 h.1))

-- An event meets an expectation exactly if the expectation names its kind or says "any", and every
-- field that it lists is a field of the event with the value listed.
pub ouch_event_matches_iff :
    (exp : Expect) (ev : SessionEvent)
    → (ouch_event_matches exp ev ≡ matches) ↔ (
        ((ouch_event_name ev ≡ exp.msg) ⊎ (exp.msg ≡ codes "any"))
        × All (λ f. ouch_event_field ev f.0 ≡ some f.1) exp.fields)
unfolding ouch_event_matches
ouch_event_matches_iff exp ev = ground (
  arith,
  bytes_eq_iff (ouch_event_name ev) exp.msg,
  bytes_eq_iff exp.msg (codes "any"),
  expected_fields_match_iff exp.fields (ouch_event_field ev),
)
