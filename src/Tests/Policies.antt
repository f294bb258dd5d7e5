-- ===== src/Tests/Policies.antt =====
-- The sequence file and the reconnect loop.
use ouchservice.Prelude.{ℕ, ◌≡◌, ◌≢◌, ◌⊎◌, refl, List, [], ◌∷◌, ◌++◌, none, some, codes, arith}
use ouchservice.Prelude.Int.{pos}
use ouchservice.Core.Types.{ErrorCategory, make_error, Result, err, ok, Side}
use ouchservice.Observability.SequenceStore.{
  SequenceStore, SaveReply, line_of, load, save, save_if_due,
}
use ouchservice.Observability.SequenceStore.Saved.{Holds, Behind, save-load, save_if_due-Behind}
use ouchservice.App.Reconnect.{default_policy, reconnect_with_deadline}
use ouchservice.App.Reconnect.Deadline.{Ends, reconnect_with_deadline-Ends}
use ouchservice.App.Ptrm.{PreTradeOrder}

abbrev store : List SaveReply → SequenceStore
store replies = record {
  file = some (line_of (codes "AB1") 500);
  tmp = none;
  tmp_name = codes "seq.tmp";
  unreadable = none;
  what = codes "stoull";
  replies = replies;
  clock = 7_000_000 ∷ 8_000_000 ∷ [];
  last_saved_seq = 500;
  last_save_ns = 6_000_000;
}

holds : (replies : List SaveReply) → Holds (codes "AB1") 500 (store replies)
holds replies = (refl, refl, ((refl, refl), ((refl, refl), ((refl, refl), tt))), omega arith)

save-load_example :
    let (result, s') = save (codes "AB2") 612 (store (SaveReply.cannot_write [] ∷ [])) in
    ((result ≡ ok tt) × (load s' ≡ (ok tt, codes "AB2", 612)))
    ⊎ ((result ≢ ok tt) × (load s' ≡ (ok tt, codes "AB1", 500)))
save-load_example =
    save-load (codes "AB1") (codes "AB2") 500 612 (store (SaveReply.cannot_write [] ∷ []))
      (holds (SaveReply.cannot_write [] ∷ [])) ((refl, refl), ((refl, refl), ((refl, refl), tt)))
      (omega arith)

save_if_due-Behind_example :
    Behind (codes "AB1") (codes "AB2") 612 100 (save_if_due (codes "AB2") 612 100 100 (store []))
save_if_due-Behind_example =
    save_if_due-Behind (codes "AB1") (codes "AB2") 612 100 100 (store []) (holds [])
      ((refl, refl), ((refl, refl), ((refl, refl), tt))) (omega arith) (omega arith) refl

abbrev refused : ℕ → ℕ → Result (Unit {0}) × ℕ
refused n w = (err (make_error ErrorCategory.io "connection refused"), w)

reconnect_with_deadline-Ends_example : Ends refused (
    reconnect_with_deadline refused
      (5 ∷ (1_000_000 ∷ []) ++ (30_000_000_005 ∷ 30_000_000_006 ∷ []))
      default_policy
      0)
reconnect_with_deadline-Ends_example =
    reconnect_with_deadline-Ends refused default_policy 5 (1_000_000 ∷ []) 30_000_000_005
      30_000_000_006 [] 0 (omega arith) (omega arith)

abbrev order : PreTradeOrder
order = record {
  symbol = codes "ACSEL";
  order_book_id = 70616;
  side = Side.buy;
  quantity = pos 100;
  price = pos 6000;
  price_decimals = 3;
  account = [];
}
