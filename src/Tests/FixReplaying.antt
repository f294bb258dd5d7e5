-- ===== src/Tests/FixReplaying.antt =====
-- FIX scenarios against an engine that counts its requests and is active below 10 of them.
use ouchservice.Prelude.{
  ℕ, suc, true, ◌+◌, ◌≡◌, refl, [], ◌∷◌, ◌++◌, none, some, if◌then◌else◌, ltb, codes, String,
}
use ouchservice.Prelude.Int.{pos, negsuc}
use ouchservice.Core.Types.{Side, TimeInForce, ClientCategory, ok}
use ouchservice.Fix.Facade.{FixSessionState, OeClient}
use ouchservice.Runner.Scenario.{Expect, FixPlaceArgs, FixCancelArgs, Step, StepArgs}
use ouchservice.Runner.Fix.Events.{FixEvent}
use ouchservice.Runner.Fix.Price.{parse_price, price_loop, price_step, scaled}
use ouchservice.Runner.Fix.Steps.{FixRunner}
use ouchservice.Runner.Fix.Run.{match_expectation, arriving, after, logged_out, logout_loop}
use ouchservice.Runner.Fix.Run.Served.{answer, match_expectation-count}
use ouchservice.Runner.Fix.Run.Logout.{IsQuiet, match_expectation-IsQuiet}

abbrev oe : OeClient ℕ
oe = record {
  place = λ a w. (ok a.cl_ord_id, suc w);
  cancel = λ a w. (ok a.cl_ord_id, suc w);
  replace = λ a w. (ok a.cl_ord_id, suc w);
  trade_report = λ a w. (ok a.trade_report_id, suc w);
  logout = λ w. (ok tt, w + 10);
  login = λ w. (ok tt, 0);
  state = λ w. if ltb w 10 then FixSessionState.active else FixSessionState.logged_out;
}

abbrev late_reject : FixEvent
late_reject =
    FixEvent.cancel_reject
      (record { cl_ord_id = codes "22"; orig_cl_ord_id = codes "20"; text = codes "too late" })

abbrev breadcrumb : FixEvent
breadcrumb =
    FixEvent.logon_result
      (record { state = FixSessionState.logged_out; session_status = negsuc 0; detail = [] })

abbrev runner : FixRunner ℕ
runner = record {
  oe = some oe;
  rd = none;
  dc = none;
  token_index = [];
  events = breadcrumb ∷ late_reject ∷ [];
  incoming = (late_reject ∷ breadcrumb ∷ []) ∷ [] ∷ [];
  world = 0;
  turns = (100, 0) ∷ (150, 3) ∷ (200, 12) ∷ [];
  clock = [];
}

abbrev expect : String → Expect
expect msg = record { msg = codes msg; fields = []; occurrences = pos 2; timeout_ms = pos 0 }

abbrev order_to_place : FixPlaceArgs
order_to_place = record {
  cl_ord_id = codes "20";
  symbol = codes "ACSEL";
  side = Side.sell;
  quantity = pos 100;
  price_str = codes "6.5";
  tif = TimeInForce.day;
  ord_type = codes "LIMIT";
  category = ClientCategory.client;
  account = [];
  afk = [];
  display_quantity = pos 0;
}

abbrev cancel : FixCancelArgs
cancel = record {
  cl_ord_id = codes "21";
  orig_cl_ord_id = codes "20";
  symbol = [];
  side = Side.buy;
  quantity = pos 0;
}

abbrev step : Step
step = record { id = pos 1; action = codes "place"; args = StepArgs.monostate; expect = none }

-- Twenty digits behind the point overflow a `long long`.
parse_price-overflow : parse_price (codes "0.10000000000000000000") 3 ≡ none
unfolding parse_price price_loop price_step scaled
parse_price-overflow = refl

match_expectation-count_example :
    (match_expectation (expect "fix_cancel_reject") (pos 500) runner).0
    ≡ answer 2 (expect "fix_cancel_reject") (runner.events ++ arriving runner.incoming) true
match_expectation-count_example =
    match_expectation-count (expect "fix_cancel_reject") (pos 500) runner refl refl

match_expectation-IsQuiet_example :
    IsQuiet
      ((150, 3) ∷ (200, 12) ∷ [])
      (after 100 (pos 500))
      (match_expectation (expect "fix_logout_complete") (pos 500) runner).1
match_expectation-IsQuiet_example =
    match_expectation-IsQuiet (expect "fix_logout_complete") (pos 500) runner 100 0
      ((150, 3) ∷ (200, 12) ∷ []) refl refl
      (unfold match_expectation logged_out logout_loop in refl)
