-- ===== src/Runner/Burst.antt =====
-- include/bist/runner/replay.hpp: `run_burst_place`. A pause changes nothing but the clock.
use ouchservice.Prelude.{
  ℕ, zero, suc, ◌+◌, ◌%◌, ◌^◌, Bool, true, false, ◌||◌, List, [], ◌∷◌, ◌++◌, Option, none, some,
  if◌then◌else◌, ◌==◌, length, get_or, set, replicate, codes,
}
use ouchservice.Prelude.Int.{pos}
use ouchservice.Prelude.Decimal.{strtoull}
use ouchservice.Core.Types.{ErrorCategory, ok, err, OpenClose, Side, TimeInForce, ClientCategory}
use ouchservice.Domain.Instrument.{Instrument, find_by_symbol, to_wire_price}
use ouchservice.Ouch.Session.State.{rest_of}
use ouchservice.Ouch.Client.{PlaceArgs as ClientPlaceArgs, place, is_empty}
use ouchservice.Runner.Scenario.{BurstPlacePatternEntry, BurstPlaceArgs, Step}
use ouchservice.Runner.Fields.{to_string}
use ouchservice.Runner.Replay.{Runner, StepResult, poll, with_clock}
use ouchservice.Runner.Steps.{result, text, with_client, now}

abbrev pub no_entry : BurstPlacePatternEntry
no_entry = record {
  symbol = [];
  side = Side.buy;
  quantity = pos 0;
  price_str = [];
  token_prefix = [];
  tif = TimeInForce.day;
  category = ClientCategory.client;
}

unfoldable pub burst_args : BurstPlacePatternEntry → Instrument → ℕ → ClientPlaceArgs
burst_args pat inst seq = record {
  symbol = pat.symbol;
  order_book_id = inst.order_book_id;
  side = pat.side;
  quantity = pat.quantity;
  price = to_wire_price pat.price_str inst.price_decimals;
  tif = pat.tif;
  open_close = OpenClose.default_for_account;
  category = pat.category;
  display_quantity = pos 0;
  client_account = [];
  customer_info = [];
  exchange_info = [];
  explicit_token = to_string ((strtoull pat.token_prefix + seq) % 2 ^ 64);
  off_hours = 0;
}

abbrev pub is_throttled : ErrorCategory → Bool
is_throttled ErrorCategory.throttled = true
is_throttled _ = false

-- Whether an order of the burst was sent, or the last error's text.
pub data Sent : Type 0 where
  ok_send : Sent
  not_sent : List ℕ → Sent

-- At most the given number of attempts; an empty bucket lets the session work and tries again.
unfoldable pub attempt_loop : ℕ → ClientPlaceArgs → Runner → Sent × Runner
unfolding poll
attempt_loop zero pa r = (Sent.not_sent [], r)
attempt_loop (suc k) pa r =
    let (placed, c) = place (now r) pa r.client in
    let r' = with_client c r in
    elim placed [
      | ok t ↦ (Sent.ok_send, r')
      | err e ↦
          let retry = attempt_loop k pa (poll r').1 in
          if is_throttled e.category then retry else (Sent.not_sent (text e), r')
    ]

abbrev pub retry_detail : List ℕ → List ℕ
retry_detail last_err = if is_empty last_err then codes "throttle retry exhausted" else last_err

-- How the loop over the orders ends: all are sent, or the step returns with a detail.
pub data Burst : Type 0 where
  all_sent : Burst
  stopped : List ℕ → Burst

-- What follows the attempts at order number `i`; the pause reads the clock.
unfoldable pub after_attempts : ℕ → Sent × Runner → (Runner → Burst × Runner) → Burst × Runner
after_attempts i (Sent.ok_send, r) next = next (with_clock (rest_of r.clock) r)
after_attempts i (Sent.not_sent last_err, r) next = (
  Burst.stopped (
      codes "burst_place send #"
      ++ to_string (suc i)
      ++ codes " failed: "
      ++ retry_detail last_err),
  r,
)

unfoldable pub burst_order :
    ℕ
    → BurstPlacePatternEntry
    → ℕ
    → Runner
    → Option Instrument
    → (Runner → Burst × Runner)
    → Burst × Runner
unfolding attempt_loop after_attempts
burst_order i pat seq r none next =
    (Burst.stopped (codes "unknown symbol in burst_place: " ++ pat.symbol), r)
burst_order i pat seq r (some inst) next =
    after_attempts i (attempt_loop 1000 (burst_args pat inst seq) r) next

-- `remaining` orders from number `i` on; `seq` has how many tokens each entry has used. The index is
-- below the length of the pattern, which is not empty.
unfoldable pub burst_loop : ℕ → ℕ → List ℕ → List BurstPlacePatternEntry → Runner → Burst × Runner
unfolding burst_order
burst_loop zero i seq pattern r = (Burst.all_sent, r)
burst_loop (suc remaining) i seq pattern r =
    let j = i % length pattern in
    let pat = get_or pattern j no_entry in
    burst_order i pat (get_or seq j 0) r (find_by_symbol pat.symbol r.instruments)
      (burst_loop remaining (suc i) (set seq j (suc (get_or seq j 0))) pattern)

abbrev pub no_entries : List BurstPlacePatternEntry → Bool
no_entries [] = true
no_entries (e ∷ es) = false

unfoldable pub burst_result : Step → BurstPlaceArgs → Burst × Runner → StepResult × Runner
burst_result s a (Burst.all_sent, r) = (
  result s true (
      codes "sent "
      ++ to_string a.count
      ++ codes " orders @ ~"
      ++ to_string a.rate_per_sec
      ++ codes "/s"),
  r,
)
burst_result s a (Burst.stopped why, r) = (result s false why, r)

unfoldable pub run_burst_place : Step → BurstPlaceArgs → Runner → StepResult × Runner
unfolding burst_loop burst_result
run_burst_place s a r =
    let ended =
      burst_loop a.count 0 (replicate (length a.pattern) 0) a.pattern
        (with_clock (rest_of r.clock) r) in
    if a.count == 0 || no_entries a.pattern
    then (result s false (codes "burst_place needs count > 0 and a non-empty pattern"), r)
    else if a.rate_per_sec == 0
    then (result s false (codes "burst_place needs rate_per_sec > 0"), r)
    else burst_result s a ended
