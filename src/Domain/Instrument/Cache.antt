-- ===== src/Domain/Instrument/Cache.antt =====
-- What is found after an instrument is put.
use ouchservice.Prelude.{
  ℕ, ◌≡◌, ◌≢◌, List, some, arith, if◌then◌else◌, ◌==◌, lookup-insert, bytes_eq, bytes_eq_instance,
  bytes_eq_iff, nat_eq,
}
use ouchservice.Domain.Instrument.{
  Instrument, InstrumentCache, put, find_by_symbol, find_by_book_id,
}

-- An instrument that is put is found under its symbol and under its book; under other symbols and
-- books is found what was there before.
pub put-find :
    (s : List ℕ) (id : ℕ) (i : Instrument) (c : InstrumentCache)
    → let c' = (put i c).1 in
      (find_by_symbol s c' ≡ (if bytes_eq i.symbol s then some i else find_by_symbol s c))
      × (find_by_book_id id c' ≡ (if i.order_book_id == id then some i else find_by_book_id id c))
unfolding put find_by_symbol find_by_book_id
put-find s id i c =
    (lookup-insert i.symbol s i c.by_symbol, lookup-insert i.order_book_id id i c.by_book_id)

-- An instrument that replaces another one of its symbol leaves that one behind under its old book.
pub put-stale :
    (old new : Instrument) (c : InstrumentCache)
    → new.symbol ≡ old.symbol
    → new.order_book_id ≢ old.order_book_id
    → let c' = (put new (put old c).1).1 in
      (find_by_symbol old.symbol c' ≡ some new) × (find_by_book_id old.order_book_id c' ≡ some old)
put-stale old new c same moved =
    let first = put-find old.symbol old.order_book_id old c in
    let second = put-find old.symbol old.order_book_id new (put old c).1 in
    (
      ground (arith, second.0, bytes_eq_iff new.symbol old.symbol, same),
      ground (arith, second.1, first.1),
    )
