-- ===== src/Ouch/Messages/Inbound/Orders.antt =====
-- Enter Order and Replace Order.
use ouchservice.Prelude.{ℕ, List, ◌≡◌, refl}
use ouchservice.Prelude.Int.{ℤ}
use ouchservice.Core.Codec.{Codec, byte, chars, unsigned, signed32, ◌⊗◌, via}

-- 4.1.1 Enter Order
pub record EnterOrder : Type 0 where
  pub message_type : ℕ
  pub order_token : List ℕ
  pub order_book_id : ℕ
  pub side : ℕ
  pub quantity : ℕ
  pub price : ℤ
  pub time_in_force : ℕ
  pub open_close : ℕ
  pub client_account : List ℕ
  pub customer_info : List ℕ
  pub exchange_info : List ℕ
  pub display_quantity : ℕ
  pub client_category : ℕ
  pub off_hours : ℕ
  pub smp_level : ℕ
  pub smp_method : ℕ
  pub smp_id : List ℕ
  pub reserved : List ℕ

unfoldable pub enter_order_codec : Codec EnterOrder
enter_order_codec =
    via
      (byte
        ⊗ chars 14
        ⊗ unsigned 4
        ⊗ byte
        ⊗ unsigned 8
        ⊗ signed32
        ⊗ byte
        ⊗ byte
        ⊗ chars 16
        ⊗ chars 15
        ⊗ chars 32
        ⊗ unsigned 8
        ⊗ byte
        ⊗ byte
        ⊗ byte
        ⊗ byte
        ⊗ chars 3
        ⊗ chars 2)
      (λ m. (
        m.message_type,
        (
          m.order_token,
          (
            m.order_book_id,
            (
              m.side,
              (
                m.quantity,
                (
                  m.price,
                  (
                    m.time_in_force,
                    (
                      m.open_close,
                      (
                        m.client_account,
                        (
                          m.customer_info,
                          (
                            m.exchange_info,
                            (
                              m.display_quantity,
                              (
                                m.client_category,
                                (
                                  m.off_hours,
                                  (m.smp_level, (m.smp_method, (m.smp_id, m.reserved))),
                                ),
                              ),
                            ),
                          ),
                        ),
                      ),
                    ),
                  ),
                ),
              ),
            ),
          ),
        ),
      ))
      (λ p. record {
        message_type = p.0;
        order_token = p.1.0;
        order_book_id = p.1.1.0;
        side = p.1.1.1.0;
        quantity = p.1.1.1.1.0;
        price = p.1.1.1.1.1.0;
        time_in_force = p.1.1.1.1.1.1.0;
        open_close = p.1.1.1.1.1.1.1.0;
        client_account = p.1.1.1.1.1.1.1.1.0;
        customer_info = p.1.1.1.1.1.1.1.1.1.0;
        exchange_info = p.1.1.1.1.1.1.1.1.1.1.0;
        display_quantity = p.1.1.1.1.1.1.1.1.1.1.1.0;
        client_category = p.1.1.1.1.1.1.1.1.1.1.1.1.0;
        off_hours = p.1.1.1.1.1.1.1.1.1.1.1.1.1.0;
        smp_level = p.1.1.1.1.1.1.1.1.1.1.1.1.1.1.0;
        smp_method = p.1.1.1.1.1.1.1.1.1.1.1.1.1.1.1.0;
        smp_id = p.1.1.1.1.1.1.1.1.1.1.1.1.1.1.1.1.0;
        reserved = p.1.1.1.1.1.1.1.1.1.1.1.1.1.1.1.1.1;
      })
      (λ m. refl)

pub size-enter_order_codec : enter_order_codec.size ≡ 114
unfolding enter_order_codec
size-enter_order_codec = refl

-- 4.1.2 Replace Order
pub record ReplaceOrder : Type 0 where
  pub message_type : ℕ
  pub existing_order_token : List ℕ
  pub replacement_order_token : List ℕ
  pub quantity : ℕ
  pub price : ℤ
  pub open_close : ℕ
  pub client_account : List ℕ
  pub customer_info : List ℕ
  pub exchange_info : List ℕ
  pub display_quantity : ℕ
  pub client_category : ℕ
  pub reserved : List ℕ

unfoldable pub replace_order_codec : Codec ReplaceOrder
replace_order_codec =
    via
      (byte
        ⊗ chars 14
        ⊗ chars 14
        ⊗ unsigned 8
        ⊗ signed32
        ⊗ byte
        ⊗ chars 16
        ⊗ chars 15
        ⊗ chars 32
        ⊗ unsigned 8
        ⊗ byte
        ⊗ chars 8)
      (λ m. (
        m.message_type,
        (
          m.existing_order_token,
          (
            m.replacement_order_token,
            (
              m.quantity,
              (
                m.price,
                (
                  m.open_close,
                  (
                    m.client_account,
                    (
                      m.customer_info,
                      (m.exchange_info, (m.display_quantity, (m.client_category, m.reserved))),
                    ),
                  ),
                ),
              ),
            ),
          ),
        ),
      ))
      (λ p. record {
        message_type = p.0;
        existing_order_token = p.1.0;
        replacement_order_token = p.1.1.0;
        quantity = p.1.1.1.0;
        price = p.1.1.1.1.0;
        open_close = p.1.1.1.1.1.0;
        client_account = p.1.1.1.1.1.1.0;
        customer_info = p.1.1.1.1.1.1.1.0;
        exchange_info = p.1.1.1.1.1.1.1.1.0;
        display_quantity = p.1.1.1.1.1.1.1.1.1.0;
        client_category = p.1.1.1.1.1.1.1.1.1.1.0;
        reserved = p.1.1.1.1.1.1.1.1.1.1.1;
      })
      (λ m. refl)

pub size-replace_order_codec : replace_order_codec.size ≡ 122
unfolding replace_order_codec
size-replace_order_codec = refl
