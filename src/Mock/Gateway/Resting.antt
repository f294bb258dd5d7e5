-- ===== src/Mock/Gateway/Resting.antt =====
-- The orders that rest.
use ouchservice.Prelude.{
  ℕ, ◌<◌, ◌≡◌, refl, ◌∙◌, Bool, true, false, List, [], ◌∷◌, Option, none, some, if◌then◌else◌,
  lookup, bytes_eq_instance, length,
}
use ouchservice.Mock.Gateway.State.{Gateway, RestingOrder, clock_read}
use ouchservice.Mock.Gateway.Writes.{send_sequenced-seen_tokens, send_sequenced-resting}
use ouchservice.Mock.Gateway.Orders.{with_resting, emit_canceled, emit_all, inactivate_all_resting}

-- What is found under a token, if anything, has an order id below the bound.
abbrev pub FoundBelow : ℕ → Option RestingOrder → Type 0
FoundBelow bound none = Unit {0}
FoundBelow bound (some o) = o.order_id < bound

-- Every resting order has an id below the counter from which the next one is taken.
abbrev pub IdsBelow : Gateway → Type 0
IdsBelow g = (token : List ℕ) → FoundBelow g.order_id_seq (lookup token g.resting)

emit_all-resting :
    (os : List (List ℕ × RestingOrder)) (g : Gateway)
    → ((emit_all os g).resting ≡ g.resting) × ((emit_all os g).seen_tokens ≡ g.seen_tokens)
unfolding emit_all emit_canceled
emit_all-resting [] g = (refl, refl)
emit_all-resting ((token, o) ∷ os) g =
    let (same, seen) = emit_all-resting os (emit_canceled token o 4 g) in
    (
      same ∙ send_sequenced-resting _ (clock_read g),
      seen ∙ send_sequenced-seen_tokens _ (clock_read g),
    )

-- The inactivation at the end of the day counts every resting order of a connected client and leaves
-- none; their tokens stay taken.
pub inactivate_all_resting-resting :
    (g : Gateway)
    → g.is_connected ≡ true
    → let (count, g') = inactivate_all_resting g in
      (count ≡ length g.resting) × (g'.resting ≡ []) × (g'.seen_tokens ≡ g.seen_tokens)
unfolding inactivate_all_resting
inactivate_all_resting-resting g up = split g.is_connected up
  where
    split :
        (b : Bool)
        → b ≡ true
        → let r : ℕ × Gateway =
            if b then (length g.resting, emit_all g.resting (with_resting [] g)) else (0, g) in
          let (count, g') = r in
          (count ≡ length g.resting) × (g'.resting ≡ []) × (g'.seen_tokens ≡ g.seen_tokens)
    split true h =
        let (same, seen) = emit_all-resting g.resting (with_resting [] g) in (refl, same, seen)
    split false h = cc
