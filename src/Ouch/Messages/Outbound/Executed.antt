-- ===== src/Ouch/Messages/Outbound/Executed.antt =====
-- Order Executed and the answers to a Mass Quote.
use ouchservice.Prelude.{ℕ, List, ◌≡◌, refl}
use ouchservice.Prelude.Int.{ℤ}
use ouchservice.Core.Codec.{Codec, byte, chars, unsigned, signed32, ◌⊗◌, via}

-- 4.2.5 Order Executed
pub record OrderExecuted : Type 0 where
  pub message_type : ℕ
  pub timestamp_ns : ℕ
  pub order_token : List ℕ
  pub order_book_id : ℕ
  pub traded_quantity : ℕ
  pub trade_price : ℤ
  pub match_id : List ℕ
  pub client_category : ℕ
  pub reserved : List ℕ

unfoldable pub order_executed_codec : Codec OrderExecuted
order_executed_codec =
    via
      (byte
        ⊗ unsigned 8
        ⊗ chars 14
        ⊗ unsigned 4
        ⊗ unsigned 8
        ⊗ signed32
        ⊗ chars 12
        ⊗ byte
        ⊗ chars 16)
      (λ m. (
        m.message_type,
        (
          m.timestamp_ns,
          (
            m.order_token,
            (
              m.order_book_id,
              (m.traded_quantity, (m.trade_price, (m.match_id, (m.client_category, m.reserved)))),
            ),
          ),
        ),
      ))
      (λ p. record {
        message_type = p.0;
        timestamp_ns = p.1.0;
        order_token = p.1.1.0;
        order_book_id = p.1.1.1.0;
        traded_quantity = p.1.1.1.1.0;
        trade_price = p.1.1.1.1.1.0;
        match_id = p.1.1.1.1.1.1.0;
        client_category = p.1.1.1.1.1.1.1.0;
        reserved = p.1.1.1.1.1.1.1.1;
      })
      (λ m. refl)

pub size-order_executed_codec : order_executed_codec.size ≡ 68
unfolding order_executed_codec
size-order_executed_codec = refl

-- 4.2.6 Mass Quote Acknowledgement
pub record MassQuoteAck : Type 0 where
  pub message_type : ℕ
  pub timestamp_ns : ℕ
  pub order_token : List ℕ
  pub order_book_id : ℕ
  pub quantity : ℕ
  pub traded_quantity : ℕ
  pub price : ℤ
  pub side : ℕ
  pub quote_status : ℕ

unfoldable pub mass_quote_ack_codec : Codec MassQuoteAck
mass_quote_ack_codec =
    via
      (byte
        ⊗ unsigned 8
        ⊗ chars 14
        ⊗ unsigned 4
        ⊗ unsigned 8
        ⊗ unsigned 8
        ⊗ signed32
        ⊗ byte
        ⊗ unsigned 4)
      (λ m. (
        m.message_type,
        (
          m.timestamp_ns,
          (
            m.order_token,
            (
              m.order_book_id,
              (m.quantity, (m.traded_quantity, (m.price, (m.side, m.quote_status)))),
            ),
          ),
        ),
      ))
      (λ p. record {
        message_type = p.0;
        timestamp_ns = p.1.0;
        order_token = p.1.1.0;
        order_book_id = p.1.1.1.0;
        quantity = p.1.1.1.1.0;
        traded_quantity = p.1.1.1.1.1.0;
        price = p.1.1.1.1.1.1.0;
        side = p.1.1.1.1.1.1.1.0;
        quote_status = p.1.1.1.1.1.1.1.1;
      })
      (λ m. refl)

pub size-mass_quote_ack_codec : mass_quote_ack_codec.size ≡ 52
unfolding mass_quote_ack_codec
size-mass_quote_ack_codec = refl

-- 4.2.7 Mass Quote Rejection
pub record MassQuoteRejection : Type 0 where
  pub message_type : ℕ
  pub timestamp_ns : ℕ
  pub order_token : List ℕ
  pub order_book_id : ℕ
  pub reject_code : ℤ

unfoldable pub mass_quote_rejection_codec : Codec MassQuoteRejection
mass_quote_rejection_codec =
    via (byte ⊗ unsigned 8 ⊗ chars 14 ⊗ unsigned 4 ⊗ signed32)
      (λ m. (m.message_type, (m.timestamp_ns, (m.order_token, (m.order_book_id, m.reject_code)))))
      (λ p. record {
        message_type = p.0;
        timestamp_ns = p.1.0;
        order_token = p.1.1.0;
        order_book_id = p.1.1.1.0;
        reject_code = p.1.1.1.1;
      })
      (λ m. refl)

pub size-mass_quote_rejection_codec : mass_quote_rejection_codec.size ≡ 31
unfolding mass_quote_rejection_codec
size-mass_quote_rejection_codec = refl
