-- ===== src/Runner/Steps.antt =====
-- include/bist/runner/replay.hpp: the actions of `ScenarioRunner`, but for the bursts. A request takes
-- one reading of the clock, which is the throttler's.
pub mod Resolve
use ouchservice.Prelude.{
  ℕ, zero, suc, ◌+◌, ◌*◌, ◌%◌, ◌^◌, Bool, true, false, not, ◌&&◌, ◌||◌, List, [], ◌∷◌, ◌++◌, Option,
  none, some, ◌⊎◌, inl, inr, if◌then◌else◌, ltb, length, replicate, String, codes, lookup, insert,
  bytes_eq, bytes_eq_instance,
}
use ouchservice.Prelude.Int.{ℤ, pos, int_eq}
use ouchservice.Core.Types.{Error, ErrorCategory, Result, ok, err, OpenClose, replace_keep}
use ouchservice.Core.Alpha.{OrderToken, order_token}
use ouchservice.Domain.Instrument.{Instrument, find_by_symbol, to_wire_price}
use ouchservice.Ouch.Codec.{token_set}
use ouchservice.Ouch.Messages.Outbound.{OrderRejected}
use ouchservice.Ouch.Session.State.{
  Session, SessionState, Outcome, returns, fails, out_of_bounds, first_or_zero, rest_of,
}
use ouchservice.Ouch.Session.Send.{begin_login, request_logout, is_active}
use ouchservice.Ouch.Client.{
  Client, PlaceArgs as ClientPlaceArgs, ReplaceArgs as ClientReplaceArgs,
  MassQuoteArgs as ClientQuoteArgs, QuoteEntryArgs, place, replace, cancel_by_token,
  cancel_by_order_id, mass_quote, is_empty,
}
use ouchservice.Mock.Gateway.Orders.{token_not_unique}
use ouchservice.Runner.Scenario.{
  LoginArgs, PlaceArgs, CancelByTokenArgs, CancelByOrderIdArgs, ReplaceArgs, QuoteEntrySpec,
  MassQuoteArgs, SwitchGatewayArgs, Expect, Step,
}
use ouchservice.Runner.Events.{SessionEvent}
use ouchservice.Runner.Replay.{
  Runner, StepResult, TransportControl, IndexedOrder, push_event, with_session, poll, with_clock,
  update_indices,
}

abbrev pub result : Step → Bool → List ℕ → StepResult
result s passed detail = record {
  id = s.id;
  action = s.action;
  passed = passed;
  detail = detail;
  elapsed_ns = pos 0;
}

abbrev pub passes : Step → StepResult
passes s = result s true []

abbrev pub text : Error → List ℕ
text e = codes e.detail ++ e.appended

abbrev pub with_client : Client → Runner → Runner
with_client c r = record r { client = c; clock = rest_of r.clock }

abbrev pub now : Runner → ℕ
now r = first_or_zero r.clock

-- `if (auto rr = client_...; !rr)`: the end of a step that makes one request.
unfoldable pub requested {ℓ} :
    {A : Type ℓ} → Step → Runner → Result A × Client → StepResult × Runner
requested s r (ok a, c) = (passes s, with_client c r)
requested s r (err e, c) = (result s false (text e), with_client c r)

unfoldable pub logged_out : Step → Runner → Outcome × Session → StepResult × Runner
logged_out s r (returns, session) = (passes s, with_session session r)
logged_out s r (fails e, session) = (result s false (text e), with_session session r)
logged_out s r (out_of_bounds, session) = (result s false [], with_session session r)

unfoldable pub run_logout : Step → Runner → StepResult × Runner
unfolding logged_out
run_logout s r = logged_out s r (request_logout r.client.session)

-- `ouch::PlaceArgs` of a step, with the order book and the price that the instrument gives.
unfoldable pub order_args : PlaceArgs → Instrument → ClientPlaceArgs
order_args a inst = record {
  symbol = a.symbol;
  order_book_id = inst.order_book_id;
  side = a.side;
  quantity = a.quantity;
  price = to_wire_price a.price_str inst.price_decimals;
  tif = a.tif;
  open_close = OpenClose.default_for_account;
  category = a.category;
  display_quantity = a.display_quantity;
  client_account = a.client_account;
  customer_info = a.customer_info;
  exchange_info = a.exchange_info;
  explicit_token = a.token;
  off_hours = 0;
}

abbrev pub expects_rejection : Option Expect → Bool
expects_rejection none = false
expects_rejection (some e) = bytes_eq e.msg (codes "order_rejected")

abbrev pub is_validation : ErrorCategory → Bool
is_validation ErrorCategory.validation = true
is_validation _ = false

-- The reject that `run_place` makes up.
unfoldable pub fake_rejection : List ℕ → ℕ → OrderRejected
fake_rejection token wall = record {
  message_type = b'J';
  timestamp_ns = wall % 2 ^ 64;
  order_token = token_set (order_token token);
  reject_code = token_not_unique;
}

unfoldable pub synthesize : List ℕ → Runner → Runner
unfolding push_event fake_rejection
synthesize token r =
    push_event (SessionEvent.rejected (fake_rejection token (first_or_zero r.wall_clock)))
      (record r { wall_clock = rest_of r.wall_clock })

unfoldable pub remember_token : ℤ → List ℕ → Runner → Runner
remember_token id token r =
    if is_empty token then r else record r { token_by_step_id = insert id token r.token_by_step_id }

unfoldable pub placed : Step → PlaceArgs → Runner → Result OrderToken × Client → StepResult × Runner
unfolding synthesize remember_token
placed s a r (ok t, c) = (passes s, remember_token s.id a.token (with_client c r))
placed s a r (err e, c) =
    if expects_rejection s.expect && is_validation e.category
    then (
      result s true (codes "synthesized -800002 reject (duplicate token caught locally)"),
      synthesize a.token (with_client c r),
    )
    else (result s false (codes "place failed: " ++ text e), with_client c r)

unfoldable pub place_on : Step → PlaceArgs → Runner → Option Instrument → StepResult × Runner
unfolding placed
place_on s a r none = (result s false (codes "unknown symbol: " ++ a.symbol), r)
place_on s a r (some inst) = placed s a r (place (now r) (order_args a inst) r.client)

unfoldable pub run_place : Step → PlaceArgs → Runner → StepResult × Runner
unfolding place_on
run_place s a r = place_on s a r (find_by_symbol a.symbol r.instruments)

unfoldable pub run_cancel_t : Step → CancelByTokenArgs → Runner → StepResult × Runner
unfolding requested
run_cancel_t s a r = requested s r (cancel_by_token (now r) a.token r.client)

-- The loop that drains the queue, for at most the given number of turns: nothing if it has not ended.
unfoldable pub drain : ℕ → List SessionEvent → Runner → Option Runner
drain zero evs r = none
drain (suc f) [] r = some (record r { events = [] })
drain (suc f) (ev ∷ evs) r =
    let r' = update_indices ev r in
    let turned = evs ++ (ev ∷ []) in
    let rest = drain f turned r' in
    if ltb 1024 (length turned) then some (record r' { events = turned }) else rest

unfoldable pub cancel_indexed : Step → List ℕ → Runner → Option IndexedOrder → StepResult × Runner
unfolding requested
cancel_indexed s token_ref r none =
    (result s false (codes "token_ref " ++ token_ref ++ codes " unknown to runner"), r)
cancel_indexed s token_ref r (some o) =
    requested s r (cancel_by_order_id (now r) o.order_book_id o.side o.order_id r.client)

unfoldable pub after_drain : Step → List ℕ → Option Runner → Option (StepResult × Runner)
unfolding cancel_indexed
after_drain s token_ref none = none
after_drain s token_ref (some r) =
    some (cancel_indexed s token_ref r (lookup token_ref r.token_index))

-- Nothing if the loop before the request does not end within `fuel` turns.
unfoldable pub run_cancel_id :
    ℕ → Step → CancelByOrderIdArgs → Runner → Option (StepResult × Runner)
unfolding drain after_drain
run_cancel_id fuel s a r = after_drain s a.token_ref (drain fuel r.events r)

-- The number of decimals of the instrument with no name, if there is one, and 3 if not.
unfoldable pub replace_decimals : List ℕ → Runner → ℕ
replace_decimals existing_token r =
    if is_empty existing_token
    then 3
    else elim (find_by_symbol [] r.instruments) [ none ↦ 3 | some inst ↦ inst.price_decimals ]

unfoldable pub replace_args : ReplaceArgs → ℕ → ClientReplaceArgs
replace_args a decimals = record {
  existing_token = a.existing_token;
  new_token = a.new_token;
  new_total_quantity = a.quantity;
  new_price = to_wire_price a.price_str decimals;
  open_close = replace_keep;
  category = a.category;
  display_quantity = a.display_quantity;
  client_account = a.client_account;
  customer_info = [];
  exchange_info = [];
}

unfoldable pub run_replace : Step → ReplaceArgs → Runner → StepResult × Runner
unfolding requested replace_decimals
run_replace s a r =
    requested s r (replace (now r) (replace_args a (replace_decimals a.existing_token r)) r.client)

unfoldable pub quote_args : QuoteEntrySpec → Instrument → QuoteEntryArgs
quote_args e inst = record {
  order_book_id = inst.order_book_id;
  bid_price = to_wire_price e.bid_px inst.price_decimals;
  bid_size = e.bid_size;
  offer_price = to_wire_price e.offer_px inst.price_decimals;
  offer_size = e.offer_size;
}

-- The loop over the entries: the arguments of each, or the first symbol that is unknown.
unfoldable pub resolve_entries : List QuoteEntrySpec → Runner → List ℕ ⊎ List QuoteEntryArgs
resolve_entries [] r = inr []
resolve_entries (e ∷ es) r =
    let rest = resolve_entries es r in
    elim (find_by_symbol e.symbol r.instruments) [
      | none ↦ inl e.symbol
      | some inst ↦ elim rest [ inl symbol ↦ inl symbol | inr qs ↦ inr (quote_args e inst ∷ qs) ]
    ]

unfoldable pub quote_on :
    Step → MassQuoteArgs → Runner → List ℕ ⊎ List QuoteEntryArgs → StepResult × Runner
unfolding requested
quote_on s a r (inl symbol) = (result s false (codes "unknown symbol in MassQuote: " ++ symbol), r)
quote_on s a r (inr entries) =
    let args : ClientQuoteArgs = record {
      token = a.token;
      category = a.category;
      client_account = a.afk;
      exchange_info = a.exchange_info;
      entries = entries;
    } in
    requested s r (mass_quote (now r) args r.client)

unfoldable pub run_quote : Step → MassQuoteArgs → Runner → StepResult × Runner
unfolding resolve_entries quote_on
run_quote s a r = quote_on s a r (resolve_entries a.entries r)
