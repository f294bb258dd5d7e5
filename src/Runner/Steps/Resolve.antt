-- ===== src/Runner/Steps/Resolve.antt =====
-- How `run_cancel_id` of include/bist/runner/replay.hpp finds the order of a token, and when it does
-- not come back.
use ouchservice.Prelude.{
  ℕ, zero, suc, ◌≤◌, ◌≡◌, refl, List, [], ◌∷◌, ◌++◌, none, some, length, length-append, arith, ap,
  sym, subst, ◌∙◌, lookup, lookup-insert_self, bytes_eq_instance,
}
use ouchservice.Prelude.Int.{ℤ}
use ouchservice.Core.Types.{to_wire, side_from_wire}
use ouchservice.Core.Alpha.{alpha_get, token_size}
use ouchservice.Ouch.Client.{cancel_by_order_id}
use ouchservice.Ouch.Messages.Outbound.{OrderAccepted}
use ouchservice.Ouch.Session.State.{rest_of}
use ouchservice.Runner.Scenario.{CancelByOrderIdArgs, Step}
use ouchservice.Runner.Events.{SessionEvent}
use ouchservice.Runner.Replay.{
  Runner, Waited, wait_for_event, update_indices, index_token, IndexedOrder,
}
use ouchservice.Runner.Replay.Wait.{wait_for_event-got}
use ouchservice.Runner.Steps.{requested, drain, after_drain, cancel_indexed, run_cancel_id, now}

-- A queue that is neither empty nor longer than 1024 events comes back to the same length.
drain-none :
    (fuel : ℕ) (evs : List SessionEvent) (r : Runner)
    → 1 ≤ length evs
    → length evs ≤ 1024
    → drain fuel evs r ≡ none
unfolding drain
drain-none zero evs r some_event short = refl
drain-none (suc f) [] r some_event short = absurd (omega (arith, some_event))
drain-none (suc f) (ev ∷ evs) r some_event short =
    let same = length-append evs (ev ∷ []) in
    let rest =
      drain-none f (evs ++ (ev ∷ [])) (update_indices ev r) (omega (arith, same))
        (omega (arith, same)) in
    ground (arith, same, rest)

-- A step that cancels by order id does not come back, whatever number of turns its first loop is given,
-- if events are waiting in the queue and these are at most 1024.
pub run_cancel_id-hangs :
    (fuel : ℕ) (s : Step) (a : CancelByOrderIdArgs) (r : Runner)
    → 1 ≤ length r.events
    → length r.events ≤ 1024
    → run_cancel_id fuel s a r ≡ none
unfolding run_cancel_id after_drain
run_cancel_id-hangs fuel s a r some_event short =
    ap (after_drain s a.token_ref) (drain-none fuel r.events r some_event short)

pub to_wire-side_from_wire : (c : ℕ) → to_wire (side_from_wire c) ≡ c
unfolding to_wire side_from_wire
to_wire-side_from_wire c = ground arith

drain-empty :
    (f : ℕ) (r : Runner)
    → r.events ≡ []
    → drain (suc f) r.events r ≡ some (record r { events = [] })
unfolding drain
drain-empty f r e = rw e refl

-- With an empty queue the step is the request for the order that the token stands for.
run_cancel_id-indexed :
    (fuel : ℕ) (s : Step) (a : CancelByOrderIdArgs) (r : Runner) (o : IndexedOrder)
    → r.events ≡ []
    → lookup a.token_ref r.token_index ≡ some o
    → run_cancel_id (suc fuel) s a r
      ≡ some (
          requested s
            (record r { events = [] })
            (cancel_by_order_id (now r) o.order_book_id o.side o.order_id r.client))
unfolding run_cancel_id after_drain cancel_indexed
run_cancel_id-indexed fuel s a r o e found =
    ap (after_drain s a.token_ref) (drain-empty fuel r e)
    ∙ ap (λ entry. some (cancel_indexed s a.token_ref (record r { events = [] }) entry)) found

update_indices-accepted :
    (m : OrderAccepted) (r : Runner)
    → lookup
        (alpha_get token_size m.order_token)
        (update_indices (SessionEvent.accepted m) r).token_index
      ≡ some (record {
        order_id = m.order_id;
        order_book_id = m.order_book_id;
        side = side_from_wire m.side;
      })
unfolding update_indices index_token
update_indices-accepted m r =
    lookup-insert_self (alpha_get token_size m.order_token) _ r.token_index

-- Once the only queued event, the acceptance of an order, has been waited for, the step that cancels
-- by that order's token asks the client to cancel the order id, the book and the side of the event.
pub run_cancel_id-accepted :
    (fuel : ℕ) (timeout_ms : ℤ) (s : Step) (r : Runner) (m : OrderAccepted)
    → r.events ≡ SessionEvent.accepted m ∷ []
    → (let (w, r') = wait_for_event timeout_ms r in
        run_cancel_id (suc fuel) s (record { token_ref = alpha_get token_size m.order_token }) r'
        ≡ some (
            requested s r' (
              cancel_by_order_id
                (now r')
                m.order_book_id
                (side_from_wire m.side)
                m.order_id
                r'.client)))
unfolding update_indices index_token
run_cancel_id-accepted fuel timeout_ms s r m e =
    let r1 : Runner = record r { events = []; clock = rest_of r.clock } in
    let r2 = update_indices (SessionEvent.accepted m) r1 in
    let ref : CancelByOrderIdArgs = record { token_ref = alpha_get token_size m.order_token } in
    subst
      (λ (p : Waited × Runner).
        run_cancel_id (suc fuel) s ref p.1
        ≡ some (
            requested s p.1 (
              cancel_by_order_id (now p.1) m.order_book_id (side_from_wire m.side) m.order_id
                p.1.client)))
      (sym (wait_for_event-got timeout_ms r (SessionEvent.accepted m) [] e))
      (run_cancel_id-indexed fuel s ref r2 _ refl (update_indices-accepted m r1))
