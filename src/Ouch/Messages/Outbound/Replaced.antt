-- ===== src/Ouch/Messages/Outbound/Replaced.antt =====
-- Order Replaced and Order Canceled.
use ouchservice.Prelude.{ℕ, List, ◌≡◌, refl}
use ouchservice.Prelude.Int.{ℤ}
use ouchservice.Core.Codec.{Codec, byte, chars, unsigned, signed32, ◌⊗◌, via}

-- 4.2.3 Order Replaced
pub record OrderReplaced : Type 0 where
  pub message_type : ℕ
  pub timestamp_ns : ℕ
  pub replacement_order_token : List ℕ
  pub previous_order_token : List ℕ
  pub order_book_id : ℕ
  pub side : ℕ
  pub order_id : ℕ
  pub quantity : ℕ
  pub price : ℤ
  pub time_in_force : ℕ
  pub open_close : ℕ
  pub client_account : List ℕ
  pub order_state : ℕ
  pub customer_info : List ℕ
  pub exchange_info : List ℕ
  pub pre_trade_quantity : ℕ
  pub display_quantity : ℕ
  pub client_category : ℕ

unfoldable pub order_replaced_codec : Codec OrderReplaced
order_replaced_codec =
    via
      (byte
        ⊗ unsigned 8
        ⊗ chars 14
        ⊗ chars 14
        ⊗ unsigned 4
        ⊗ byte
        ⊗ unsigned 8
        ⊗ unsigned 8
        ⊗ signed32
        ⊗ byte
        ⊗ byte
        ⊗ chars 16
        ⊗ byte
        ⊗ chars 15
        ⊗ chars 32
        ⊗ unsigned 8
        ⊗ unsigned 8
        ⊗ byte)
      (λ m. (
        m.message_type,
        (
          m.timestamp_ns,
          (
            m.replacement_order_token,
            (
              m.previous_order_token,
              (
                m.order_book_id,
                (
                  m.side,
                  (
                    m.order_id,
                    (
                      m.quantity,
                      (
                        m.price,
                        (
                          m.time_in_force,
                          (
                            m.open_close,
                            (
                              m.client_account,
                              (
                                m.order_state,
                                (
                                  m.customer_info,
                                  (
                                    m.exchange_info,
                                    (m.pre_trade_quantity, (m.display_quantity, m.client_category)),
                                  ),
                                ),
                              ),
                            ),
                          ),
                        ),
                      ),
                    ),
                  ),
                ),
              ),
            ),
          ),
        ),
      ))
      (λ p. record {
        message_type = p.0;
        timestamp_ns = p.1.0;
        replacement_order_token = p.1.1.0;
        previous_order_token = p.1.1.1.0;
        order_book_id = p.1.1.1.1.0;
        side = p.1.1.1.1.1.0;
        order_id = p.1.1.1.1.1.1.0;
        quantity = p.1.1.1.1.1.1.1.0;
        price = p.1.1.1.1.1.1.1.1.0;
        time_in_force = p.1.1.1.1.1.1.1.1.1.0;
        open_close = p.1.1.1.1.1.1.1.1.1.1.0;
        client_account = p.1.1.1.1.1.1.1.1.1.1.1.0;
        order_state = p.1.1.1.1.1.1.1.1.1.1.1.1.0;
        customer_info = p.1.1.1.1.1.1.1.1.1.1.1.1.1.0;
        exchange_info = p.1.1.1.1.1.1.1.1.1.1.1.1.1.1.0;
        pre_trade_quantity = p.1.1.1.1.1.1.1.1.1.1.1.1.1.1.1.0;
        display_quantity = p.1.1.1.1.1.1.1.1.1.1.1.1.1.1.1.1.0;
        client_category = p.1.1.1.1.1.1.1.1.1.1.1.1.1.1.1.1.1;
      })
      (λ m. refl)

pub size-order_replaced_codec : order_replaced_codec.size ≡ 145
unfolding order_replaced_codec
size-order_replaced_codec = refl

-- 4.2.4 Order Canceled
pub record OrderCanceled : Type 0 where
  pub message_type : ℕ
  pub timestamp_ns : ℕ
  pub order_token : List ℕ
  pub order_book_id : ℕ
  pub side : ℕ
  pub order_id : ℕ
  pub reason : ℕ

unfoldable pub order_canceled_codec : Codec OrderCanceled
order_canceled_codec =
    via (byte ⊗ unsigned 8 ⊗ chars 14 ⊗ unsigned 4 ⊗ byte ⊗ unsigned 8 ⊗ byte)
      (λ m. (
        m.message_type,
        (m.timestamp_ns, (m.order_token, (m.order_book_id, (m.side, (m.order_id, m.reason))))),
      ))
      (λ p. record {
        message_type = p.0;
        timestamp_ns = p.1.0;
        order_token = p.1.1.0;
        order_book_id = p.1.1.1.0;
        side = p.1.1.1.1.0;
        order_id = p.1.1.1.1.1.0;
        reason = p.1.1.1.1.1.1;
      })
      (λ m. refl)

pub size-order_canceled_codec : order_canceled_codec.size ≡ 37
unfolding order_canceled_codec
size-order_canceled_codec = refl
