-- ===== src/Runner/Fix/Steps.antt =====
-- include/bist/runner/fix_replay.hpp: the state of `FixScenarioRunner` and its actions.
use ouchservice.Prelude.{
  ℕ, Bool, true, false, not, ◌&&◌, List, ◌++◌, Option, none, some, if◌then◌else◌, codes, lookup,
  insert, bytes_eq, bytes_eq_instance, String,
}
use ouchservice.Prelude.Int.{ℤ, pos, int_beq}
use ouchservice.Core.Types.{Side, Result, ok, err}
use ouchservice.Ouch.Client.{is_empty}
use ouchservice.Fix.Facade.{
  OrdType, FixCategory, PlaceArgs, CancelArgs, ReplaceArgs, FixSessionState, OeClient, RdClient,
  DcClient,
}
use ouchservice.Runner.Scenario.{
  FixLogonArgs, FixAmrSubscribeArgs, FixWaitHeartbeatArgs, FixPlaceArgs, FixCancelArgs,
  FixReplaceArgs, Step,
}
use ouchservice.Runner.Replay.{StepResult}
use ouchservice.Runner.Steps.{result, passes, text}
use ouchservice.Runner.Fix.Events.{FixEvent}
use ouchservice.Runner.Fix.Price.{parse_price}

pub record TokenInfo : Type 0 where
  pub symbol : List ℕ
  pub side : Side
  pub quantity : ℤ

-- `FixScenarioRunner`. The callbacks run on the engine's thread: `incoming` has, for each wait with an
-- empty queue, the events that are pushed before its timeout, none for a wait that times out; at its
-- end nothing is known yet of the next wait.
-- `turns` has what the clock shows and the engine's state at each look that waits for a logout, and
-- `clock` the readings of `monotonic_ns()`.
pub record FixRunner (W : Type 0) : Type 0 where
  pub oe : Option (OeClient W)
  pub rd : Option (RdClient W)
  pub dc : Option (DcClient W)
  pub token_index : List (List ℕ × TokenInfo)
  pub events : List FixEvent
  pub incoming : List (List FixEvent)
  pub world : W
  pub turns : List (ℕ × W)
  pub clock : List ℕ

abbrev pub is_active : FixSessionState → Bool
is_active FixSessionState.active = true
is_active _ = false

abbrev pub is_down : FixSessionState → Bool
is_down FixSessionState.logged_out = true
is_down FixSessionState.disconnected = true
is_down FixSessionState.failed = true
is_down _ = false

unfoldable pub ord_type_from : List ℕ → OrdType
ord_type_from s =
    if bytes_eq s (codes "MARKET")
    then OrdType.market
    else if bytes_eq s (codes "MTL")
    then OrdType.market_to_limit
    else if bytes_eq s (codes "IMBALANCE")
    then OrdType.imbalance
    else if bytes_eq s (codes "MIDPOINT_LIMIT")
    then OrdType.midpoint_limit
    else if bytes_eq s (codes "MIDPOINT_MARKET")
    then OrdType.midpoint_market
    else OrdType.limit

-- With the price that is read.
unfoldable pub place_args : FixPlaceArgs → ℤ → PlaceArgs
place_args a price = record {
  cl_ord_id = a.cl_ord_id;
  symbol = a.symbol;
  side = a.side;
  quantity = a.quantity;
  price = price;
  price_decimals = 3;
  ord_type = ord_type_from a.ord_type;
  tif = a.tif;
  category = FixCategory.client;
  account = a.account;
  afk = a.afk;
  display_quantity = a.display_quantity;
}

-- What the index adds to a request that names no symbol.
unfoldable pub completed : CancelArgs → Option TokenInfo → CancelArgs
completed ca none = ca
completed ca (some i) = record ca {
  symbol = i.symbol;
  side = i.side;
  quantity = if int_beq ca.quantity (pos 0) then i.quantity else ca.quantity;
}

unfoldable pub completed_replace : ReplaceArgs → Option TokenInfo → ReplaceArgs
completed_replace ra none = ra
completed_replace ra (some i) = record ra { symbol = i.symbol; side = i.side }

module _ {W : Type 0} where
  abbrev pub oe_is_active : Option (OeClient W) → W → Bool
  oe_is_active none w = false
  oe_is_active (some c) w = is_active (c.state w)

  abbrev pub rd_is_active : Option (RdClient W) → W → Bool
  rd_is_active none w = false
  rd_is_active (some c) w = is_active (c.state w)

  abbrev pub dc_is_active : Option (DcClient W) → W → Bool
  dc_is_active none w = false
  dc_is_active (some c) w = is_active (c.state w)

  -- A client that is down logs in; the detail if that fails.
  abbrev pub failed_login : String → Result (Unit {0}) × W → Option (List ℕ) × W
  failed_login prefix (ok u, w) = (none, w)
  failed_login prefix (err e, w) = (some (codes prefix ++ text e), w)

  unfoldable pub oe_login : Option (OeClient W) → W → Option (List ℕ) × W
  oe_login none w = (none, w)
  oe_login (some c) w =
      if is_down (c.state w) then failed_login "OE login() failed: " (c.login w) else (none, w)

  unfoldable pub rd_login : Option (RdClient W) → W → Option (List ℕ) × W
  rd_login none w = (none, w)
  rd_login (some c) w =
      if is_down (c.state w) then failed_login "RD login() failed: " (c.login w) else (none, w)

  -- The step fails with the detail, or goes on.
  abbrev pub unless_failed :
      Step
      → FixRunner W
      → Option (List ℕ) × W
      → (FixRunner W → StepResult × FixRunner W)
      → StepResult × FixRunner W
  unless_failed s r (none, w) rest = rest (record r { world = w })
  unless_failed s r (some detail, w) rest = (result s false detail, record r { world = w })

  unfoldable pub run_logon : Step → FixLogonArgs → FixRunner W → StepResult × FixRunner W
  unfolding oe_login rd_login
  run_logon s a r =
      if oe_is_active r.oe r.world
      then (result s true (codes "OE already Active"), r)
      else if rd_is_active r.rd r.world
      then (result s true (codes "RD already Active"), r)
      else unless_failed s r (oe_login r.oe r.world)
          (λ r1. unless_failed s r1 (rd_login r1.rd r1.world) (λ r2. (passes s, r2)))

  unfoldable pub oe_logout : Option (OeClient W) → W → W
  oe_logout none w = w
  oe_logout (some c) w = (c.logout w).1

  unfoldable pub rd_logout : Option (RdClient W) → W → W
  rd_logout none w = w
  rd_logout (some c) w = (c.logout w).1

  unfoldable pub dc_logout : Option (DcClient W) → W → W
  dc_logout none w = w
  dc_logout (some c) w = (c.logout w).1

  unfoldable pub run_logout : Step → FixRunner W → StepResult × FixRunner W
  unfolding oe_logout rd_logout dc_logout
  run_logout s r =
      (passes s, record r { world = dc_logout r.dc (rd_logout r.rd (oe_logout r.oe r.world)) })

  -- The end of a step that makes one request: what is kept of it if it succeeds.
  unfoldable pub requested :
      Step
      → FixRunner W
      → Result (List ℕ) × W
      → (FixRunner W → FixRunner W)
      → StepResult × FixRunner W
  requested s r (ok id, w) keep = (passes s, keep (record r { world = w }))
  requested s r (err e, w) keep = (result s false (text e), record r { world = w })

  unfoldable pub amr_by :
      Step → FixAmrSubscribeArgs → FixRunner W → Option (RdClient W) → StepResult × FixRunner W
  unfolding requested
  amr_by s a r none = (result s false (codes "no RdClient"), r)
  amr_by s a r (some c) = requested s r (c.subscribe_all a.appl_req_id r.world) (λ r'. r')

  unfoldable pub run_amr : Step → FixAmrSubscribeArgs → FixRunner W → StepResult × FixRunner W
  unfolding amr_by
  run_amr s a r = amr_by s a r r.rd

  -- It only pauses.
  unfoldable pub run_wait_hb : Step → FixWaitHeartbeatArgs → FixRunner W → StepResult × FixRunner W
  run_wait_hb s a r = (passes s, r)

  -- `if (!id.empty()) token_index_[id] = info`
  unfoldable pub index_token : List ℕ → TokenInfo → FixRunner W → FixRunner W
  index_token id info r =
      if is_empty id then r else record r { token_index = insert id info r.token_index }

  unfoldable pub place_by :
      Step
      → FixPlaceArgs
      → FixRunner W
      → Option (OeClient W)
      → Option ℤ
      → Option (StepResult × FixRunner W)
  unfolding requested index_token place_args
  place_by s a r none price = some (result s false (codes "no OeClient"), r)
  place_by s a r (some c) none = none
  place_by s a r (some c) (some price) = some (
      requested s r (c.place (place_args a price) r.world) (
        index_token a.cl_ord_id
          (record { symbol = a.symbol; side = a.side; quantity = a.quantity })))

  -- Nothing if the reading of the price overflows.
  unfoldable pub run_place : Step → FixPlaceArgs → FixRunner W → Option (StepResult × FixRunner W)
  unfolding place_by parse_price
  run_place s a r = place_by s a r r.oe (parse_price a.price_str 3)

  unfoldable pub cancel_args : FixCancelArgs → FixRunner W → CancelArgs
  unfolding completed
  cancel_args a r =
      let ca : CancelArgs = record {
        cl_ord_id = a.cl_ord_id;
        orig_cl_ord_id = a.orig_cl_ord_id;
        symbol = a.symbol;
        side = a.side;
        quantity = a.quantity;
      } in
      if is_empty a.symbol && not (is_empty a.orig_cl_ord_id)
      then completed ca (lookup a.orig_cl_ord_id r.token_index)
      else ca

  unfoldable pub cancel_by :
      Step → CancelArgs → FixRunner W → Option (OeClient W) → StepResult × FixRunner W
  unfolding requested index_token
  cancel_by s ca r none = (result s false (codes "no OeClient"), r)
  cancel_by s ca r (some c) = requested s r (c.cancel ca r.world) (
      index_token ca.cl_ord_id
        (record { symbol = ca.symbol; side = ca.side; quantity = ca.quantity }))

  unfoldable pub run_cancel : Step → FixCancelArgs → FixRunner W → StepResult × FixRunner W
  unfolding cancel_args cancel_by
  run_cancel s a r = cancel_by s (cancel_args a r) r r.oe

  unfoldable pub replace_args : FixReplaceArgs → ℤ → FixRunner W → ReplaceArgs
  unfolding completed_replace ord_type_from
  replace_args a price r =
      let ra : ReplaceArgs = record {
        cl_ord_id = a.cl_ord_id;
        orig_cl_ord_id = a.orig_cl_ord_id;
        symbol = a.symbol;
        side = a.side;
        new_quantity = a.new_quantity;
        new_price = price;
        price_decimals = 3;
        ord_type = ord_type_from a.ord_type;
      } in
      if is_empty a.symbol && not (is_empty a.orig_cl_ord_id)
      then completed_replace ra (lookup a.orig_cl_ord_id r.token_index)
      else ra

  unfoldable pub replace_by :
      Step
      → FixReplaceArgs
      → FixRunner W
      → Option (OeClient W)
      → Option ℤ
      → Option (StepResult × FixRunner W)
  unfolding requested index_token replace_args
  replace_by s a r none price = some (result s false (codes "no OeClient"), r)
  replace_by s a r (some c) none = none
  replace_by s a r (some c) (some price) =
      let ra = replace_args a price r in
      some (
        requested s r (c.replace ra r.world) (
          index_token ra.cl_ord_id
            (record { symbol = ra.symbol; side = ra.side; quantity = ra.new_quantity })))

  -- Nothing if the reading of the price overflows.
  unfoldable pub run_replace :
      Step → FixReplaceArgs → FixRunner W → Option (StepResult × FixRunner W)
  unfolding replace_by parse_price
  run_replace s a r = replace_by s a r r.oe (parse_price a.price_str 3)
