-- ===== src/App/Ptrm.antt =====
-- include/bist/risk/ptrm.hpp and src/risk/ptrm.cpp: the pre-trade risk gate.
use ouchservice.Prelude.{ℕ, ◌≡◌, ◌≢◌, refl, ◌↔◌, ◌++◌, Bool, true, false, List, [], codes, arith}
use ouchservice.Prelude.Int.{ℤ}
use ouchservice.Core.Types.{Side}

pub data PtrmMode : Type 0 where
  disabled log_only enforce : PtrmMode

pub data RxCategory : Type 0 where
  none position_limit order_rate_limit order_quantity_limit order_value_limit loss_limit
        margin_call_exceeded restricted_instrument account_suspended price_collar kill_switch
        other :
      RxCategory

unfoldable pub rx_name : RxCategory → List ℕ
rx_name RxCategory.none = codes "ok"
rx_name RxCategory.position_limit = codes "position_limit"
rx_name RxCategory.order_rate_limit = codes "order_rate_limit"
rx_name RxCategory.order_quantity_limit = codes "order_qty_limit"
rx_name RxCategory.order_value_limit = codes "order_value_limit"
rx_name RxCategory.loss_limit = codes "loss_limit"
rx_name RxCategory.margin_call_exceeded = codes "margin_call"
rx_name RxCategory.restricted_instrument = codes "restricted_instrument"
rx_name RxCategory.account_suspended = codes "account_suspended"
rx_name RxCategory.price_collar = codes "price_collar"
rx_name RxCategory.kill_switch = codes "kill_switch"
rx_name RxCategory.other = codes "rx_other"

pub record PreTradeOrder : Type 0 where
  pub symbol : List ℕ
  pub order_book_id : ℕ
  pub side : Side
  pub quantity : ℤ
  pub price : ℤ
  pub price_decimals : ℕ
  pub account : List ℕ

pub record PtrmDecision : Type 0 where
  pub allow : Bool
  pub rx : RxCategory
  pub detail : List ℕ

abbrev pub allowed : PtrmDecision
allowed = record { allow = true; rx = RxCategory.none; detail = [] }

-- `IPtrmGate`, by its `check`.
abbrev pub PtrmGate : Type 0
PtrmGate = PreTradeOrder → PtrmDecision

unfoldable pub always_accept : PtrmGate
always_accept o = allowed

unfoldable pub always_reject : RxCategory → List ℕ → PtrmGate
always_reject rx detail o = record { allow = false; rx = rx; detail = detail }

-- `PtrmRestClient::check`, a stub in the source.
unfoldable pub rest_client : PtrmMode → PtrmGate
rest_client PtrmMode.disabled o = allowed
rest_client _ o = record {
  allow = false;
  rx = RxCategory.other;
  detail =
      codes
        "PtrmRestClient stub: enable real REST integration before production deploy (see spec_ptrm.md)";
}

abbrev pub logged : PtrmDecision → Bool → PtrmDecision
logged d true = d
logged d false = record d { allow = true; detail = codes "[log_only] " ++ d.detail }

unfoldable pub evaluate : PtrmGate → PtrmMode → PreTradeOrder → PtrmDecision
evaluate gate PtrmMode.disabled o = allowed
evaluate gate PtrmMode.log_only o = logged (gate o) (gate o).allow
evaluate gate PtrmMode.enforce o = gate o

logged_lem :
    (d : PtrmDecision) (allow : Bool)
    → d.allow ≡ allow
    → ((logged d allow).allow ≢ false) × ((logged d allow).rx ≡ d.rx)
logged_lem d true e = (λ f. ground (arith, e, f), refl)
logged_lem d false e = (λ f. ground (arith, f), refl)

-- An order is refused exactly if the mode enforces the gate and the gate refuses it; whenever the gate
-- is asked at all, the category of its decision is kept.
pub evaluate_refuses :
    (gate : PtrmGate) (mode : PtrmMode) (o : PreTradeOrder)
    → (((evaluate gate mode o).allow ≡ false)
        ↔ ((mode ≡ PtrmMode.enforce) × ((gate o).allow ≡ false)))
      × (mode ≢ PtrmMode.disabled → (evaluate gate mode o).rx ≡ (gate o).rx)
unfolding evaluate
evaluate_refuses gate PtrmMode.disabled o =
    ((λ e. ground (arith, e), λ h. ground (arith, h.0)), λ h. absurd (h refl))
evaluate_refuses gate PtrmMode.log_only o =
    let (never, kept) = logged_lem (gate o) (gate o).allow refl in
    ((λ e. absurd (never e), λ h. ground (arith, h.0)), λ h. kept)
evaluate_refuses gate PtrmMode.enforce o = ((λ e. (refl, e), λ h. h.1), λ h. refl)
