-- ===== src/Ouch/Client/Place.antt =====
-- Placing an order: the message on the wire, the order in the book, and the token of both.
use ouchservice.Prelude.{
  ℕ, ◌≡◌, ◌≢◌, refl, ap, true, false, List, [], ◌++◌, arith, take, some, contains, bytes_eq_iff,
  bytes_eq_instance, lookup-insert, Bool, String, ◌≤◌, length,
}
use ouchservice.Core.Types.{ErrorCategory, make_error, ok}
use ouchservice.Core.Alpha.{OrderToken, order_token, alpha_set, view, token_size}
use ouchservice.Domain.OrderBook.{enter, find}
use ouchservice.Domain.Throttler.{Throttler, try_acquire}
use ouchservice.Domain.TokenRegistry.{TokenRegistry, register_external}
use ouchservice.Ouch.Messages.Inbound.{enter_order_codec}
use ouchservice.Ouch.Session.State.{SessionState, Outcome, returns, fails, out_of_bounds}
use ouchservice.Ouch.Session.Send.{send_enter_order}
use ouchservice.Ouch.Session.Send.Frame.{header_bytes, send_unsequenced-frame}
use ouchservice.Ouch.Client.{
  Client, PlaceArgs, when_acquired, on_token, choose_token, place_with, place, sent, enter_order,
  pending_order, is_empty,
}

-- A granted request whose token is known.
place-granted :
    (now : ℕ) (args : PlaceArgs) (c : Client) (tok : OrderToken) (r : TokenRegistry)
    → (try_acquire 0 now c.throttler).0 ≡ true
    → choose_token "token already used: " args.explicit_token c.tokens ≡ (ok tok, r)
    → place now args c
      ≡ place_with args tok (record c { throttler = (try_acquire 0 now c.throttler).1; tokens = r })
unfolding place
place-granted now args c tok r granted chosen = go (try_acquire 0 now c.throttler) granted
  where
    go :
        (a : Bool × Throttler)
        → a.0 ≡ true
        → when_acquired a c
            (make_error ErrorCategory.throttled "throttler bucket empty (>= rate)")
            (λ c'.
              on_token
                (choose_token "token already used: " args.explicit_token c'.tokens)
                c'
                (place_with args))
          ≡ place_with args tok (record c { throttler = a.1; tokens = r })
    go (true, t) h = ap (λ k. on_token k (record c { throttler = t }) (place_with args)) chosen
    go (false, t) h = cc

sent-ok : (tok : OrderToken) (o : Outcome) → sent tok o ≡ ok tok → o ≡ returns
sent-ok tok returns h = refl
sent-ok tok (fails e) h = cc
sent-ok tok out_of_bounds h = cc

-- Once the throttler has granted the request and the token is chosen, the order is in the book under
-- the token's text, with its whole quantity open, whatever the session answers.
pub place-find :
    (now : ℕ) (args : PlaceArgs) (c : Client) (tok : OrderToken) (r : TokenRegistry)
    → (try_acquire 0 now c.throttler).0 ≡ true
    → choose_token "token already used: " args.explicit_token c.tokens ≡ (ok tok, r)
    → find (view tok) (place now args c).1.book
      ≡ some (record (pending_order args) { leaves = args.quantity })
place-find now args c tok r granted chosen = rw (place-granted now args c tok r granted chosen) (
    unfold place_with find enter pending_order in
    ground (
      arith,
      lookup-insert (view tok) (view tok) (record (pending_order args) { leaves = args.quantity })
          c.book,
      bytes_eq_iff (view tok) (view tok),
    ))

-- An order that the throttler grants and that is placed under `tok` without an error, in an active
-- session that keeps nothing back before or after, is on the wire as one frame: the header, then the
-- bytes of its message.
pub place-frame :
    (now : ℕ) (args : PlaceArgs) (c : Client) (tok : OrderToken) (r : TokenRegistry)
    → (try_acquire 0 now c.throttler).0 ≡ true
    → choose_token "token already used: " args.explicit_token c.tokens ≡ (ok tok, r)
    → c.session.state ≡ SessionState.active
    → c.session.out_pending ≡ []
    → (place now args c).0 ≡ ok tok
    → (place now args c).1.session.out_pending ≡ []
    → let payload = enter_order_codec.write (enter_order args tok) in
      (place now args c).1.session.wire ≡ c.session.wire ++ (header_bytes payload ++ payload)
place-frame now args c tok r granted chosen active none_kept good none_left =
    let run : place now args c ≡ _ = place-granted now args c tok r granted chosen in
    rw run (
      unfold place_with send_enter_order in
      send_unsequenced-frame (enter_order_codec.write (enter_order args tok)) c.session active
        none_kept (sent-ok tok _ (unfold place_with send_enter_order in rw run at good))
        (unfold place_with send_enter_order in rw run at none_left))

-- Two explicit texts of at least 14 bytes, none of them taken, that differ only after their 14th byte
-- are both accepted as new, and both give one and the same token.
pub choose_token-shared :
    (d e : String) (a b : List ℕ) (r : TokenRegistry)
    → is_empty a ≡ false
    → is_empty b ≡ false
    → a ≢ b
    → take token_size a ≡ take token_size b
    → token_size ≤ length a
    → token_size ≤ length b
    → contains a r.seen ≡ false
    → contains b r.seen ≡ false
    → let (first, r') = choose_token d a r in
      let (second, r'') = choose_token e b r' in
      (first ≡ ok (order_token a)) × (second ≡ ok (order_token a))
unfolding choose_token register_external contains
choose_token-shared d e a b r ha hb differ shared la lb fresh_a fresh_b =
    rw (ha, hb, fresh_a) (ground (arith, fresh_b, bytes_eq_iff a b, same))
  where
    same : order_token b ≡ order_token a
    same = unfold order_token alpha_set in ground (arith, shared)
