-- ===== src/Mock/Gateway/Replies.antt =====
-- The messages of the client at the gateway, and the gateway's answers at the client.
use ouchservice.Prelude.{
  ℕ, ◌^◌, ◌<◌, ◌≡◌, refl, sym, ap, ◌∙◌, List, [], arith, length, get_or, append-nil,
  bytes_eq_instance,
}
use ouchservice.Core.Codec.{Codec}
use ouchservice.Ouch.Messages.Inbound.{
  EnterOrder, ReplaceOrder, CancelOrder, CancelByOrderId, enter_order_codec, replace_order_codec,
  cancel_order_codec, cancel_by_order_id_codec, size-enter_order_codec, size-replace_order_codec,
  size-cancel_order_codec, size-cancel_by_order_id_codec,
}
use ouchservice.Ouch.Messages.Outbound.{order_accepted_codec}
use ouchservice.Ouch.Session.State.{Session, returns, Callback, call}
use ouchservice.Ouch.Session.Dispatch.{dispatch_ouch}
use ouchservice.Ouch.Session.Receive.Deliver.{accepted, reply_bytes, dispatch_ouch-reply_bytes}
use ouchservice.Mock.Gateway.State.{Gateway}
use ouchservice.Mock.Gateway.Orders.{
  enter_order, cancel_order, cancel_by_order_id, replace_order, acceptance,
}
use ouchservice.Mock.Gateway.Handle.{of_size, handle_type, handle_unsequenced_payload}

-- A message of the client about a single order.
pub data Message : Type 0 where
  enter : EnterOrder → Message
  cancel : CancelOrder → Message
  cancel_id : CancelByOrderId → Message
  amend : ReplaceOrder → Message

unfoldable pub message_bytes : Message → List ℕ
message_bytes (enter m) = enter_order_codec.write m
message_bytes (cancel m) = cancel_order_codec.write m
message_bytes (cancel_id m) = cancel_by_order_id_codec.write m
message_bytes (amend m) = replace_order_codec.write m

abbrev pub IsMessage : Message → Type 0
IsMessage (enter m) = (m.message_type ≡ b'O') × enter_order_codec.IsValid m
IsMessage (cancel m) = (m.message_type ≡ b'X') × cancel_order_codec.IsValid m
IsMessage (cancel_id m) = (m.message_type ≡ b'Y') × cancel_by_order_id_codec.IsValid m
IsMessage (amend m) = (m.message_type ≡ b'U') × replace_order_codec.IsValid m

unfoldable pub apply : Message → Gateway → Gateway
apply (enter m) g = enter_order m g
apply (cancel m) g = cancel_order m g
apply (cancel_id m) g = cancel_by_order_id m g
apply (amend m) g = replace_order m g

of_size-write :
    {A : Type 0} (c : Codec A) (f : A → Gateway → Gateway) (m : A) (g : Gateway)
    → c.IsValid m
    → of_size c f (c.write m) g ≡ (returns, f m g)
of_size-write c f m g v =
    ground
      (arith, c.length_write m v, ap c.read (sym (append-nil (c.write m))) ∙ c.read_write m [] v)

handle-typed :
    {A : Type 0} (c : Codec A) (f : A → Gateway → Gateway) (m : A) (t : ℕ) (g : Gateway)
    → c.IsValid m
    → 0 < c.size
    → get_or (c.write m) 0 0 ≡ t
    → handle_type t (c.write m) g ≡ of_size c f (c.write m) g
    → handle_unsequenced_payload (c.write m) g ≡ (returns, f m g)
unfolding handle_unsequenced_payload
handle-typed c f m t g v pos head typed =
    ground (
      arith,
      c.length_write m v,
      of_size-write c f m g v,
      ap (λ k. handle_type k (c.write m) g) head,
    )

-- Every well-formed message about a single order is read by the gateway with every field as it was
-- sent, and handled by the operation of its kind.
pub handle_unsequenced_payload-message_bytes :
    (q : Message) (g : Gateway)
    → IsMessage q
    → handle_unsequenced_payload (message_bytes q) g ≡ (returns, apply q g)
unfolding message_bytes apply
handle_unsequenced_payload-message_bytes (enter m) g v =
    handle-typed enter_order_codec enter_order m b'O' g v.1 (omega (arith, size-enter_order_codec))
      (unfold enter_order_codec in v.0) (unfold handle_type in refl)
handle_unsequenced_payload-message_bytes (cancel m) g v =
    handle-typed cancel_order_codec cancel_order m b'X' g v.1
      (omega (arith, size-cancel_order_codec)) (unfold cancel_order_codec in v.0)
      (unfold handle_type in refl)
handle_unsequenced_payload-message_bytes (cancel_id m) g v =
    handle-typed cancel_by_order_id_codec cancel_by_order_id m b'Y' g v.1
      (omega (arith, size-cancel_by_order_id_codec)) (unfold cancel_by_order_id_codec in v.0)
      (unfold handle_type in refl)
handle_unsequenced_payload-message_bytes (amend m) g v =
    handle-typed replace_order_codec replace_order m b'U' g v.1
      (omega (arith, size-replace_order_codec)) (unfold replace_order_codec in v.0)
      (unfold handle_type in refl)

-- The acceptance of a well-formed order arrives at the client's handler as the gateway made it, with
-- the token, the quantity and the price of the order.
pub dispatch_ouch-acceptance :
    (m : EnterOrder) (oid now : ℕ) (s : Session)
    → enter_order_codec.IsValid m
    → oid < 2 ^ 64
    → now < 2 ^ 64
    → let bytes = order_accepted_codec.write (acceptance m oid now) in
      dispatch_ouch bytes (length bytes) s
      ≡ (returns, call (Callback.on_accepted (acceptance m oid now)) s)
dispatch_ouch-acceptance m oid now s v fits_id fits_now =
    unfold reply_bytes in
    dispatch_ouch-reply_bytes (accepted (acceptance m oid now)) s (
      unfold acceptance in
      (
        refl,
        unfold order_accepted_codec enter_order_codec in
            (
              omega arith,
              (
                fits_now,
                (
                  v.1.0,
                  (
                    v.1.1.0,
                    (
                      v.1.1.1.0,
                      (
                        fits_id,
                        (
                          v.1.1.1.1.0,
                          (
                            v.1.1.1.1.1.0,
                            (
                              v.1.1.1.1.1.1.0,
                              (
                                v.1.1.1.1.1.1.1.0,
                                (
                                  v.1.1.1.1.1.1.1.1.0,
                                  (
                                    omega arith,
                                    (
                                      v.1.1.1.1.1.1.1.1.1.0,
                                      (
                                        v.1.1.1.1.1.1.1.1.1.1.0,
                                        (
                                          v.1.1.1.1.0,
                                          (
                                            v.1.1.1.1.1.1.1.1.1.1.1.0,
                                            (
                                              v.1.1.1.1.1.1.1.1.1.1.1.1.0,
                                              (
                                                v.1.1.1.1.1.1.1.1.1.1.1.1.1.0,
                                                (omega arith, (omega arith, refl)),
                                              ),
                                            ),
                                          ),
                                        ),
                                      ),
                                    ),
                                  ),
                                ),
                              ),
                            ),
                          ),
                        ),
                      ),
                    ),
                  ),
                ),
              ),
            ),
      ))
