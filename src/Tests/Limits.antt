-- ===== src/Tests/Limits.antt =====
-- The rate limiter on four requests, three of them in the first window.
use ouchservice.Prelude.{◌≤◌, ◌≡◌, refl, true, false, List, [], ◌∷◌, arith, min}
use ouchservice.Domain.Throttler.{
  throttler, try_acquire, rotate, bump, used_loop, used_in_rolling_second, acquire_at,
}
use ouchservice.Domain.Throttler.History.{
  Request, Ascending, run, spec_run, granted, in_rolling_second, granted-le-limit, run-eq-spec_run,
  fresh-Refines,
}

abbrev requests : List Request
requests = (1, 0) ∷ (2, 0) ∷ (0, 3) ∷ (1_000_000_001, 0) ∷ []

requests-Ascending : Ascending 0 requests
requests-Ascending = (
  omega arith,
  omega arith,
  (omega arith, omega arith, (omega arith, omega arith, (omega arith, omega arith, tt))),
)

run-requests : run (throttler 2 3) requests ≡ true ∷ true ∷ false ∷ true ∷ []
unfolding run throttler try_acquire acquire_at rotate bump used_loop used_in_rolling_second
run-requests = refl

granted-le-limit_example : in_rolling_second 9 (granted (throttler 2 3) requests) ≤ min 2 3
granted-le-limit_example =
    granted-le-limit 2 3 9 requests (omega arith) (omega arith) requests-Ascending

run-eq-spec_run_example : run (throttler 2 3) requests ≡ spec_run (throttler 2 3).limit [] requests
run-eq-spec_run_example =
    run-eq-spec_run requests {t = throttler 2 3} {last = 0} {log = []}
      (fresh-Refines 2 3 (omega arith) (omega arith)) requests-Ascending
