-- ===== src/Domain/Throttler.antt =====
-- include/bist/domain/throttler.hpp: the rolling-window rate limiter. Every field is a uint64_t;
-- sums keep their wrap-around. A time of 0 stands for "read the monotonic clock", whose value is
-- the argument `clock`.
pub mod Window
pub mod Stands
pub mod Refine
pub mod History
use ouchservice.Prelude.{
  ℕ, ◌+◌, ◌-◌, ◌*◌, ◌/◌, ◌%◌, ◌^◌, ◌<◌, Bool, true, false, List, [], ◌∷◌, ltb, leb, ◌==◌,
  if◌then◌else◌, get_or, set, replicate,
}

-- kWindowNs, kWindowCount, kNoWindow
abbrev pub window_ns : ℕ
window_ns = 100_000_000

abbrev pub window_count : ℕ
window_count = 10

abbrev pub no_window : ℕ
no_window = 2 ^ 64 - 1

pub record Slot : Type 0 where
  pub window_id : ℕ
  pub count : ℕ

pub record Throttler : Type 0 where
  pub limit : ℕ
  pub slots : List Slot

abbrev pub empty_slot : Slot
empty_slot = record { window_id = no_window; count = 0 }

-- The constructor: the smaller of the two budgets, and none at a rate of 0.
unfoldable pub throttler : ℕ → ℕ → Throttler
throttler capacity tokens_per_sec = record {
  limit =
      if tokens_per_sec == 0
      then 0
      else if ltb capacity tokens_per_sec
      then capacity
      else tokens_per_sec;
  slots = replicate window_count empty_slot;
}

abbrev pub window_id_of : ℕ → ℕ
window_id_of now_ns = now_ns / window_ns

-- What one slot adds to the total of `used_in_rolling_second`; the three `continue`s add nothing.
abbrev pub slot_use : Slot → ℕ → ℕ
slot_use s current =
    if s.window_id == no_window
    then 0
    else if ltb current s.window_id
    then 0
    else if leb window_count (current - s.window_id)
    then 0
    else s.count

unfoldable pub used_loop : ℕ → List Slot → ℕ → ℕ
used_loop total [] current = total
used_loop total (s ∷ ss) current = used_loop ((total + slot_use s current) % 2 ^ 64) ss current

unfoldable pub used_in_rolling_second : Throttler → ℕ → ℕ
used_in_rolling_second t current = used_loop 0 t.slots current

-- `now_ns ? now_ns : monotonic_ns()`
abbrev pub effective_time : ℕ → ℕ → ℕ
effective_time now_ns clock = if now_ns == 0 then clock else now_ns

-- The slot of the current window, emptied if it still holds an older window.
unfoldable pub rotate : List Slot → ℕ → List Slot
rotate slots current =
    let i = current % window_count in
    if (get_or slots i empty_slot).window_id == current
    then slots
    else set slots i (record { window_id = current; count = 0 })

unfoldable pub bump : List Slot → ℕ → List Slot
bump slots current =
    let i = current % window_count in
    let s = get_or slots i empty_slot in set slots i (record s { count = (s.count + 1) % 2 ^ 64 })

-- `try_acquire` once the window is known.
unfoldable pub acquire_at : ℕ → Throttler → Bool × Throttler
unfolding used_in_rolling_second
acquire_at current t =
    let rotated = rotate t.slots current in
    if t.limit == 0
    then (false, t)
    else if leb t.limit (used_in_rolling_second (record t { slots = rotated }) current)
    then (false, record t { slots = rotated })
    else (true, record t { slots = bump rotated current })

unfoldable pub try_acquire : ℕ → ℕ → Throttler → Bool × Throttler
unfolding acquire_at
try_acquire now_ns clock t = acquire_at (window_id_of (effective_time now_ns clock)) t

unfoldable pub reset : Throttler → Throttler
reset t = record t { slots = replicate window_count empty_slot }

unfoldable pub available : ℕ → ℕ → Throttler → ℕ
available now_ns clock t =
    let current = window_id_of (effective_time now_ns clock) in
    let used = used_in_rolling_second t current in
    if t.limit == 0 then 0 else if leb t.limit used then 0 else t.limit - used

unfoldable pub capacity : Throttler → ℕ
capacity t = t.limit
