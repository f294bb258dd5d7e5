-- ===== src/Ouch/Session/Receive/Deliver.antt =====
-- What arrives at the callbacks.
use ouchservice.Prelude.{
  ℕ, ◌<◌, ◌≡◌, refl, sym, ap, ◌∙◌, List, [], arith, length, get_or, append-nil,
}
use ouchservice.Core.Codec.{Codec}
use ouchservice.Ouch.Messages.Outbound.{
  OrderAccepted, OrderRejected, OrderReplaced, OrderCanceled, OrderExecuted, MassQuoteAck,
  MassQuoteRejection, order_accepted_codec, order_rejected_codec, order_replaced_codec,
  order_canceled_codec, order_executed_codec, mass_quote_ack_codec, mass_quote_rejection_codec,
  size-order_accepted_codec, size-order_rejected_codec, size-order_replaced_codec,
  size-order_canceled_codec, size-order_executed_codec, size-mass_quote_ack_codec,
  size-mass_quote_rejection_codec,
}
use ouchservice.Ouch.Session.State.{Session, returns, Callback, call}
use ouchservice.Ouch.Session.Dispatch.{deliver, dispatch_type, dispatch_ouch}

-- A message from the host.
pub data Reply : Type 0 where
  accepted : OrderAccepted → Reply
  rejected : OrderRejected → Reply
  replaced : OrderReplaced → Reply
  canceled : OrderCanceled → Reply
  executed : OrderExecuted → Reply
  mass_quote_ack : MassQuoteAck → Reply
  mass_quote_reject : MassQuoteRejection → Reply

-- Its bytes, its callback, and that its fields fit and its type byte is the one of its kind.
unfoldable pub reply_bytes : Reply → List ℕ
reply_bytes (accepted m) = order_accepted_codec.write m
reply_bytes (rejected m) = order_rejected_codec.write m
reply_bytes (replaced m) = order_replaced_codec.write m
reply_bytes (canceled m) = order_canceled_codec.write m
reply_bytes (executed m) = order_executed_codec.write m
reply_bytes (mass_quote_ack m) = mass_quote_ack_codec.write m
reply_bytes (mass_quote_reject m) = mass_quote_rejection_codec.write m

abbrev pub callback_of : Reply → Callback
callback_of (accepted m) = Callback.on_accepted m
callback_of (rejected m) = Callback.on_rejected m
callback_of (replaced m) = Callback.on_replaced m
callback_of (canceled m) = Callback.on_canceled m
callback_of (executed m) = Callback.on_executed m
callback_of (mass_quote_ack m) = Callback.on_mass_quote_ack m
callback_of (mass_quote_reject m) = Callback.on_mass_quote_reject m

abbrev pub IsReply : Reply → Type 0
IsReply (accepted m) = (m.message_type ≡ b'A') × order_accepted_codec.IsValid m
IsReply (rejected m) = (m.message_type ≡ b'J') × order_rejected_codec.IsValid m
IsReply (replaced m) = (m.message_type ≡ b'U') × order_replaced_codec.IsValid m
IsReply (canceled m) = (m.message_type ≡ b'C') × order_canceled_codec.IsValid m
IsReply (executed m) = (m.message_type ≡ b'E') × order_executed_codec.IsValid m
IsReply (mass_quote_ack m) = (m.message_type ≡ b'K') × mass_quote_ack_codec.IsValid m
IsReply (mass_quote_reject m) = (m.message_type ≡ b'R') × mass_quote_rejection_codec.IsValid m

-- What is written by a codec is delivered by it.
deliver-write :
    {A : Type 0} (c : Codec A) (h : A → Callback) (m : A) (s : Session)
    → c.IsValid m
    → deliver c h (c.write m) (length (c.write m)) s ≡ (returns, call (h m) s)
unfolding deliver
deliver-write c h m s v =
    ground
      (arith, c.length_write m v, ap c.read (sym (append-nil (c.write m))) ∙ c.read_write m [] v)

dispatch_ouch-typed :
    {A : Type 0} (c : Codec A) (h : A → Callback) (m : A) (t : ℕ) (s : Session)
    → c.IsValid m
    → 0 < c.size
    → get_or (c.write m) 0 0 ≡ t
    → dispatch_type t (c.write m) (length (c.write m)) s
      ≡ deliver c h (c.write m) (length (c.write m)) s
    → dispatch_ouch (c.write m) (length (c.write m)) s ≡ (returns, call (h m) s)
unfolding dispatch_ouch
dispatch_ouch-typed c h m t s v pos head typed = ground (
  arith,
  c.length_write m v,
  deliver-write c h m s v,
  ap (λ k. dispatch_type k (c.write m) (length (c.write m)) s) head,
)

-- Every well-formed message from the host is handed to the callback of its kind, with every field
-- as it was sent.
pub dispatch_ouch-reply_bytes :
    (r : Reply) (s : Session)
    → IsReply r
    → dispatch_ouch (reply_bytes r) (length (reply_bytes r)) s ≡ (returns, call (callback_of r) s)
unfolding reply_bytes
dispatch_ouch-reply_bytes (accepted m) s v =
    dispatch_ouch-typed order_accepted_codec Callback.on_accepted m b'A' s v.1
      (omega (arith, size-order_accepted_codec)) (unfold order_accepted_codec in v.0)
      (unfold dispatch_type in refl)
dispatch_ouch-reply_bytes (rejected m) s v =
    dispatch_ouch-typed order_rejected_codec Callback.on_rejected m b'J' s v.1
      (omega (arith, size-order_rejected_codec)) (unfold order_rejected_codec in v.0)
      (unfold dispatch_type in refl)
dispatch_ouch-reply_bytes (replaced m) s v =
    dispatch_ouch-typed order_replaced_codec Callback.on_replaced m b'U' s v.1
      (omega (arith, size-order_replaced_codec)) (unfold order_replaced_codec in v.0)
      (unfold dispatch_type in refl)
dispatch_ouch-reply_bytes (canceled m) s v =
    dispatch_ouch-typed order_canceled_codec Callback.on_canceled m b'C' s v.1
      (omega (arith, size-order_canceled_codec)) (unfold order_canceled_codec in v.0)
      (unfold dispatch_type in refl)
dispatch_ouch-reply_bytes (executed m) s v =
    dispatch_ouch-typed order_executed_codec Callback.on_executed m b'E' s v.1
      (omega (arith, size-order_executed_codec)) (unfold order_executed_codec in v.0)
      (unfold dispatch_type in refl)
dispatch_ouch-reply_bytes (mass_quote_ack m) s v =
    dispatch_ouch-typed mass_quote_ack_codec Callback.on_mass_quote_ack m b'K' s v.1
      (omega (arith, size-mass_quote_ack_codec)) (unfold mass_quote_ack_codec in v.0)
      (unfold dispatch_type in refl)
dispatch_ouch-reply_bytes (mass_quote_reject m) s v =
    dispatch_ouch-typed mass_quote_rejection_codec Callback.on_mass_quote_reject m b'R' s v.1
      (omega (arith, size-mass_quote_rejection_codec)) (unfold mass_quote_rejection_codec in v.0)
      (unfold dispatch_type in refl)
