-- ===== src/Ouch/Messages/Outbound/Accepted.antt =====
-- Order Accepted and Order Rejected.
use ouchservice.Prelude.{ℕ, List, ◌≡◌, refl}
use ouchservice.Prelude.Int.{ℤ}
use ouchservice.Core.Codec.{Codec, byte, chars, unsigned, signed32, ◌⊗◌, via}

-- 4.2.1 Order Accepted
pub record OrderAccepted : Type 0 where
  pub message_type : ℕ
  pub timestamp_ns : ℕ
  pub order_token : List ℕ
  pub order_book_id : ℕ
  pub side : ℕ
  pub order_id : ℕ
  pub quantity : ℕ
  pub price : ℤ
  pub time_in_force : ℕ
  pub open_close : ℕ
  pub client_account : List ℕ
  pub order_state : ℕ
  pub customer_info : List ℕ
  pub exchange_info : List ℕ
  pub pre_trade_quantity : ℕ
  pub display_quantity : ℕ
  pub client_category : ℕ
  pub off_hours : ℕ
  pub smp_level : ℕ
  pub smp_method : ℕ
  pub smp_id : List ℕ

unfoldable pub order_accepted_codec : Codec OrderAccepted
order_accepted_codec =
    via
      (byte
        ⊗ unsigned 8
        ⊗ chars 14
        ⊗ unsigned 4
        ⊗ byte
        ⊗ unsigned 8
        ⊗ unsigned 8
        ⊗ signed32
        ⊗ byte
        ⊗ byte
        ⊗ chars 16
        ⊗ byte
        ⊗ chars 15
        ⊗ chars 32
        ⊗ unsigned 8
        ⊗ unsigned 8
        ⊗ byte
        ⊗ byte
        ⊗ byte
        ⊗ byte
        ⊗ chars 3)
      (λ m. (
        m.message_type,
        (
          m.timestamp_ns,
          (
            m.order_token,
            (
              m.order_book_id,
              (
                m.side,
                (
                  m.order_id,
                  (
                    m.quantity,
                    (
                      m.price,
                      (
                        m.time_in_force,
                        (
                          m.open_close,
                          (
                            m.client_account,
                            (
                              m.order_state,
                              (
                                m.customer_info,
                                (
                                  m.exchange_info,
                                  (
                                    m.pre_trade_quantity,
                                    (
                                      m.display_quantity,
                                      (
                                        m.client_category,
                                        (m.off_hours, (m.smp_level, (m.smp_method, m.smp_id))),
                                      ),
                                    ),
                                  ),
                                ),
                              ),
                            ),
                          ),
                        ),
                      ),
                    ),
                  ),
                ),
              ),
            ),
          ),
        ),
      ))
      (λ p. record {
        message_type = p.0;
        timestamp_ns = p.1.0;
        order_token = p.1.1.0;
        order_book_id = p.1.1.1.0;
        side = p.1.1.1.1.0;
        order_id = p.1.1.1.1.1.0;
        quantity = p.1.1.1.1.1.1.0;
        price = p.1.1.1.1.1.1.1.0;
        time_in_force = p.1.1.1.1.1.1.1.1.0;
        open_close = p.1.1.1.1.1.1.1.1.1.0;
        client_account = p.1.1.1.1.1.1.1.1.1.1.0;
        order_state = p.1.1.1.1.1.1.1.1.1.1.1.0;
        customer_info = p.1.1.1.1.1.1.1.1.1.1.1.1.0;
        exchange_info = p.1.1.1.1.1.1.1.1.1.1.1.1.1.0;
        pre_trade_quantity = p.1.1.1.1.1.1.1.1.1.1.1.1.1.1.0;
        display_quantity = p.1.1.1.1.1.1.1.1.1.1.1.1.1.1.1.0;
        client_category = p.1.1.1.1.1.1.1.1.1.1.1.1.1.1.1.1.0;
        off_hours = p.1.1.1.1.1.1.1.1.1.1.1.1.1.1.1.1.1.0;
        smp_level = p.1.1.1.1.1.1.1.1.1.1.1.1.1.1.1.1.1.1.0;
        smp_method = p.1.1.1.1.1.1.1.1.1.1.1.1.1.1.1.1.1.1.1.0;
        smp_id = p.1.1.1.1.1.1.1.1.1.1.1.1.1.1.1.1.1.1.1.1;
      })
      (λ m. refl)

pub size-order_accepted_codec : order_accepted_codec.size ≡ 137
unfolding order_accepted_codec
size-order_accepted_codec = refl

-- 4.2.2 Order Rejected
pub record OrderRejected : Type 0 where
  pub message_type : ℕ
  pub timestamp_ns : ℕ
  pub order_token : List ℕ
  pub reject_code : ℤ

unfoldable pub order_rejected_codec : Codec OrderRejected
order_rejected_codec =
    via (byte ⊗ unsigned 8 ⊗ chars 14 ⊗ signed32)
      (λ m. (m.message_type, (m.timestamp_ns, (m.order_token, m.reject_code))))
      (λ p. record {
        message_type = p.0;
        timestamp_ns = p.1.0;
        order_token = p.1.1.0;
        reject_code = p.1.1.1;
      })
      (λ m. refl)

pub size-order_rejected_codec : order_rejected_codec.size ≡ 27
unfolding order_rejected_codec
size-order_rejected_codec = refl
