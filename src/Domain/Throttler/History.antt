-- ===== src/Domain/Throttler/History.antt =====
-- Histories of requests at times that do not go back.
use ouchservice.Prelude.{
  ℕ, ◌+◌, ◌^◌, ◌≤◌, ◌<◌, ◌≡◌, refl, ap₂, Bool, List, [], ◌∷◌, arith, ltb, leb, ◌&&◌, if◌then◌else◌,
  Bool-cases, inl, inr, min, get_or-replicate, ap, ◌∙◌,
}
use ouchservice.Domain.Throttler.{
  Throttler, throttler, window_count, window_id_of, effective_time, try_acquire, available,
  empty_slot, used_in_rolling_second,
}
use ouchservice.Domain.Throttler.Window.{accepted_in, accepted_in_slot}
use ouchservice.Domain.Throttler.Stands.{used_loop-eq-accepted_in}
use ouchservice.Domain.Throttler.Refine.{
  Refines, accepted_in_mono, spec_acquire, try_acquire-Refines,
}

-- A request: the `now_ns` of the caller, and the clock that is read if that is 0.
abbrev pub Request : Type 0
Request = ℕ × ℕ

abbrev pub window_of : Request → ℕ
window_of (now, clock) = window_id_of (effective_time now clock)

unfoldable pub run : Throttler → List Request → List Bool
run t [] = []
run t ((now, clock) ∷ rs) = let (answer, t') = try_acquire now clock t in answer ∷ run t' rs

unfoldable pub spec_run : ℕ → List ℕ → List Request → List Bool
spec_run limit log [] = []
spec_run limit log (r ∷ rs) =
    let (answer, log') = spec_acquire limit (window_of r) log in answer ∷ spec_run limit log' rs

-- The windows of the requests that are granted.
unfoldable pub granted : Throttler → List Request → List ℕ
granted t [] = []
granted t ((now, clock) ∷ rs) =
    let (answer, t') = try_acquire now clock t in
    let rest = granted t' rs in if answer then window_of (now, clock) ∷ rest else rest

-- The times are uint64 values, and no window lies before the one of the request before.
abbrev pub Ascending : ℕ → List Request → Type 0
Ascending last [] = Unit {0}
Ascending last ((now, clock) ∷ rs) =
    (last ≤ window_of (now, clock))
    × (effective_time now clock < 2 ^ 64)
    × Ascending (window_of (now, clock)) rs

-- How many of the windows lie in the rolling second that ends with the window `c`.
unfoldable pub in_rolling_second : ℕ → List ℕ → ℕ
in_rolling_second c [] = 0
in_rolling_second c (w ∷ ws) =
    (if leb w c && ltb c (w + window_count) then 1 else 0) + in_rolling_second c ws

-- A throttler that stands for a log answers a history of requests, at times that do not go back and
-- are below 2^64, as the specification does that keeps the log and counts it.
pub run-eq-spec_run :
    (rs : List Request) {t : Throttler} {last : ℕ} {log : List ℕ}
    → Refines t last log
    → Ascending last rs
    → run t rs ≡ spec_run t.limit log rs
unfolding run spec_run
run-eq-spec_run [] r a = refl
run-eq-spec_run ((now, clock) ∷ rs) {t} {last} {log} r a =
    let (same, limit, r') = try_acquire-Refines now clock r a.0 a.1 in
    ap₂ ◌∷◌ same (
      run-eq-spec_run rs r' a.2
      ∙ ap (λ n. spec_run n (spec_acquire t.limit (window_of (now, clock)) log).1 rs) limit)

in_rolling_second-le : (c : ℕ) (log : List ℕ) → in_rolling_second c log ≤ accepted_in c log
unfolding in_rolling_second accepted_in
in_rolling_second-le c [] = omega arith
in_rolling_second-le c (w ∷ log) = ground (arith, in_rolling_second-le c log)

pub fresh-Refines :
    (capacity rate : ℕ) → capacity < 2 ^ 64 → rate < 2 ^ 64 → Refines (throttler capacity rate) 0 []
unfolding throttler accepted_in accepted_in_slot
fresh-Refines capacity rate hc hr = record {
  slots_stand = record {
    size = refl;
    placed = λ i h. inl (rw (get_or-replicate 10 i empty_slot));
    uses = λ i c h le fits. rw (get_or-replicate 10 i empty_slot);
  };
  limit_fits = ground arith;
  in_budget = omega arith;
}

-- One step of the specification keeps each rolling second within the limit.
spec_acquire-within :
    (limit w c : ℕ) (log : List ℕ)
    → accepted_in w (spec_acquire limit w log).1 ≤ limit
    → in_rolling_second c log ≤ limit
    → in_rolling_second c (spec_acquire limit w log).1 ≤ limit
unfolding spec_acquire in_rolling_second
spec_acquire-within limit w c log budget h = elim (Bool-cases (ltb (accepted_in w log) limit)) [
  | inl room ↦ elim (Bool-cases (leb w c)) [
    | inl later ↦
        ground
          (arith, in_rolling_second-le c (w ∷ log), accepted_in_mono w c (w ∷ log) (ground arith))
    | inr before ↦ ground arith
  ]
  | inr full ↦ rw full h
]

spec_acquire-log :
    (limit w c : ℕ) (log : List ℕ)
    → in_rolling_second c (spec_acquire limit w log).1
      ≡ (if (spec_acquire limit w log).0 then in_rolling_second c (w ∷ []) else 0)
        + in_rolling_second c log
unfolding spec_acquire in_rolling_second
spec_acquire-log limit w c log = ground arith

granted-split :
    (answer : Bool) (w c : ℕ) (rest : List ℕ)
    → in_rolling_second c (if answer then w ∷ rest else rest)
      ≡ (if answer then in_rolling_second c (w ∷ []) else 0) + in_rolling_second c rest
unfolding in_rolling_second
granted-split answer w c rest = ground arith

-- No rolling second of a history, wherever it ends, holds more than `limit` granted requests.
pub in_rolling_second-granted :
    (c : ℕ) (rs : List Request) {t : Throttler} {last : ℕ} {log : List ℕ}
    → Refines t last log
    → Ascending last rs
    → in_rolling_second c log ≤ t.limit
    → in_rolling_second c (granted t rs) + in_rolling_second c log ≤ t.limit
unfolding granted
in_rolling_second-granted c [] r a h = unfold in_rolling_second in omega arith
in_rolling_second-granted c ((now, clock) ∷ rs) {t} {last} {log} r a h =
    let (same, limit, r') = try_acquire-Refines now clock r a.0 a.1 in
    let w = window_of (now, clock) in
    let kept : in_rolling_second c (spec_acquire t.limit w log).1 ≤ t.limit =
      spec_acquire-within t.limit w c log (omega (arith, r'.in_budget, limit)) h in
    omega (
      arith,
      in_rolling_second-granted c rs r' a.2 (omega (arith, limit)),
      limit,
      spec_acquire-log t.limit w c log,
      granted-split (try_acquire now clock t).0 w c (granted (try_acquire now clock t).1 rs),
      ap (λ b. if b then in_rolling_second c (w ∷ []) else 0) same,
    )

-- Of a history of requests to a new throttler, at times that do not go back and with a capacity and a
-- rate below 2^64, no rolling second, that is, no ten windows of 100 ms in a row, holds more granted
-- requests than the smaller of capacity and rate.
pub granted-le-limit :
    (capacity rate c : ℕ) (rs : List Request)
    → capacity < 2 ^ 64
    → rate < 2 ^ 64
    → Ascending 0 rs
    → in_rolling_second c (granted (throttler capacity rate) rs) ≤ min capacity rate
granted-le-limit capacity rate c rs hc hr a = omega (
  arith,
  in_rolling_second-granted c rs (fresh-Refines capacity rate hc hr) a (omega (arith, nothing)),
  limit_le,
)
  where
    nothing : in_rolling_second c [] ≡ 0
    nothing = unfold in_rolling_second in refl

    limit_le : (throttler capacity rate).limit ≤ min capacity rate
    limit_le = unfold throttler in ground arith

-- For a throttler that stands for a log, at a time not before it and below 2^64, `available` is what the accepted
-- requests of the rolling second leave of the limit, and a request at that time is granted exactly if
-- that is not 0.
pub available-try_acquire :
    (now clock : ℕ) {t : Throttler} {last : ℕ} {log : List ℕ}
    → Refines t last log
    → last ≤ window_id_of (effective_time now clock)
    → effective_time now clock < 2 ^ 64
    → let c = window_id_of (effective_time now clock) in
      (available now clock t + accepted_in c log ≡ t.limit)
      × ((try_acquire now clock t).0 ≡ ltb 0 (available now clock t))
available-try_acquire now clock {t} {last} {log} r le fits = (
  left,
  (try_acquire-Refines now clock r le fits).0 ∙ unfold spec_acquire in ground (arith, left, budget),
)
  where
    c : ℕ
    c = window_id_of (effective_time now clock)

    budget : accepted_in c log ≤ t.limit
    budget = omega (arith, accepted_in_mono last c log le, r.in_budget)

    left : available now clock t + accepted_in c log ≡ t.limit
    left =
        unfold available used_in_rolling_second in
        ground (
          arith,
          used_loop-eq-accepted_in c r.slots_stand le (omega arith)
              (omega (arith, budget, r.limit_fits)),
          budget,
        )
