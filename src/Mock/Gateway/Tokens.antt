-- ===== src/Mock/Gateway/Tokens.antt =====
-- The tokens that are taken.
use ouchservice.Prelude.{
  ◌+◌, ◌%◌, ◌^◌, ◌≡◌, refl, ap, ◌∙◌, true, ◌∷◌, arith, Bool-cases, inl, inr, contains,
  bytes_eq_instance, bytes_eq_iff,
}
use ouchservice.Prelude.Int.{pos, ltb_ℤ}
use ouchservice.Ouch.Messages.Inbound.{EnterOrder}
use ouchservice.Ouch.Messages.Outbound.{order_accepted_codec}
use ouchservice.Mock.Gateway.State.{Gateway, wall_ns, clock_read}
use ouchservice.Mock.Gateway.Writes.{send_sequenced-seen_tokens}
use ouchservice.Mock.Gateway.Orders.{
  enter_order, accept_order, acceptance, reject, token_not_unique,
}

accept_order-seen_tokens :
    (m : EnterOrder) (g : Gateway) → (accept_order m g).seen_tokens ≡ g.seen_tokens
unfolding accept_order
accept_order-seen_tokens m g = ground (
  arith,
  send_sequenced-seen_tokens (order_accepted_codec.write (acceptance m g.order_id_seq (wall_ns g)))
      (clock_read (record g { order_id_seq = (g.order_id_seq + 1) % 2 ^ 64 })),
)

enter_order-seen_tokens :
    (m : EnterOrder) (g : Gateway) → contains m.order_token (enter_order m g).seen_tokens ≡ true
unfolding enter_order
enter_order-seen_tokens m g = elim (Bool-cases (contains m.order_token g.seen_tokens)) [
  | inl taken ↦ rw taken (unfold reject in rw (send_sequenced-seen_tokens _ (clock_read g)) taken)
  | inr fresh ↦ elim (Bool-cases (ltb_ℤ (pos 9000) m.price)) [
    | inl high ↦
        rw (fresh, high)
          (unfold reject in rw (send_sequenced-seen_tokens _ (clock_read taken)) there)
    | inr fair ↦ rw (fresh, fair) (rw (accept_order-seen_tokens m taken) there)
  ]
]
  where
    taken : Gateway
    taken = record g { seen_tokens = m.order_token ∷ g.seen_tokens }

    there : contains m.order_token (m.order_token ∷ g.seen_tokens) ≡ true
    there = unfold contains in ground (arith, bytes_eq_iff m.order_token m.order_token)

-- A token is taken after the first order under it, also if that was rejected for its price: the next
-- order under the token is rejected as not unique.
pub enter_order-enter_order :
    (m n : EnterOrder) (g : Gateway)
    → n.order_token ≡ m.order_token
    → enter_order n (enter_order m g) ≡ reject token_not_unique n (enter_order m g)
enter_order-enter_order m n g same =
    let taken : contains n.order_token (enter_order m g).seen_tokens ≡ true =
      ap (λ t. contains t (enter_order m g).seen_tokens) same ∙ enter_order-seen_tokens m g in
    refused (enter_order m g) taken
  where
    refused :
        (h : Gateway)
        → contains n.order_token h.seen_tokens ≡ true
        → enter_order n h ≡ reject token_not_unique n h
    refused h taken = unfold enter_order in rw taken refl
