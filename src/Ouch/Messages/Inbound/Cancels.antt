-- ===== src/Ouch/Messages/Inbound/Cancels.antt =====
-- The cancels and the parts of a Mass Quote.
use ouchservice.Prelude.{ℕ, List, ◌≡◌, refl}
use ouchservice.Prelude.Int.{ℤ}
use ouchservice.Core.Codec.{Codec, byte, chars, unsigned, signed32, ◌⊗◌, via}

-- 4.1.3 Cancel Order
pub record CancelOrder : Type 0 where
  pub message_type : ℕ
  pub order_token : List ℕ

unfoldable pub cancel_order_codec : Codec CancelOrder
cancel_order_codec =
    via (byte ⊗ chars 14) (λ m. (m.message_type, m.order_token))
      (λ p. record { message_type = p.0; order_token = p.1 }) (λ m. refl)

pub size-cancel_order_codec : cancel_order_codec.size ≡ 15
unfolding cancel_order_codec
size-cancel_order_codec = refl

-- 4.1.4 Cancel By Order ID
pub record CancelByOrderId : Type 0 where
  pub message_type : ℕ
  pub order_book_id : ℕ
  pub side : ℕ
  pub order_id : ℕ

unfoldable pub cancel_by_order_id_codec : Codec CancelByOrderId
cancel_by_order_id_codec =
    via (byte ⊗ unsigned 4 ⊗ byte ⊗ unsigned 8)
      (λ m. (m.message_type, (m.order_book_id, (m.side, m.order_id))))
      (λ p. record {
        message_type = p.0;
        order_book_id = p.1.0;
        side = p.1.1.0;
        order_id = p.1.1.1;
      })
      (λ m. refl)

pub size-cancel_by_order_id_codec : cancel_by_order_id_codec.size ≡ 14
unfolding cancel_by_order_id_codec
size-cancel_by_order_id_codec = refl

-- 4.1.5 Mass Quote, its header
pub record MassQuoteHeader : Type 0 where
  pub message_type : ℕ
  pub order_token : List ℕ
  pub client_category : ℕ
  pub client_account : List ℕ
  pub exchange_info : List ℕ
  pub no_quote_entries : ℕ

unfoldable pub mass_quote_header_codec : Codec MassQuoteHeader
mass_quote_header_codec =
    via (byte ⊗ chars 14 ⊗ byte ⊗ chars 16 ⊗ chars 16 ⊗ unsigned 2)
      (λ m. (
        m.message_type,
        (
          m.order_token,
          (m.client_category, (m.client_account, (m.exchange_info, m.no_quote_entries))),
        ),
      ))
      (λ p. record {
        message_type = p.0;
        order_token = p.1.0;
        client_category = p.1.1.0;
        client_account = p.1.1.1.0;
        exchange_info = p.1.1.1.1.0;
        no_quote_entries = p.1.1.1.1.1;
      })
      (λ m. refl)

pub size-mass_quote_header_codec : mass_quote_header_codec.size ≡ 50
unfolding mass_quote_header_codec
size-mass_quote_header_codec = refl

-- 4.1.5 Mass Quote, one entry
pub record QuoteEntry : Type 0 where
  pub order_book_id : ℕ
  pub bid_price : ℤ
  pub offer_price : ℤ
  pub bid_size : ℕ
  pub offer_size : ℕ

unfoldable pub quote_entry_codec : Codec QuoteEntry
quote_entry_codec =
    via (unsigned 4 ⊗ signed32 ⊗ signed32 ⊗ unsigned 8 ⊗ unsigned 8)
      (λ m. (m.order_book_id, (m.bid_price, (m.offer_price, (m.bid_size, m.offer_size)))))
      (λ p. record {
        order_book_id = p.0;
        bid_price = p.1.0;
        offer_price = p.1.1.0;
        bid_size = p.1.1.1.0;
        offer_size = p.1.1.1.1;
      })
      (λ m. refl)

pub size-quote_entry_codec : quote_entry_codec.size ≡ 28
unfolding quote_entry_codec
size-quote_entry_codec = refl
