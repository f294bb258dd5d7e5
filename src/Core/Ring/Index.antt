-- ===== src/Core/Ring/Index.antt =====
-- Remainders of counters that wrap at 2^64, by a power of two.
use ouchservice.Prelude.{
  ℕ, zero, suc, ◌+◌, ◌-◌, ◌*◌, ◌/◌, ◌%◌, ◌^◌, ◌≤◌, ◌<◌, ◌≡◌, ◌≢◌, arith, ap, sym, ◌∙◌, dec_lt,
  subst,
}
use Prim.Native.Nat.{◌∣◌}
use native.Mathlib.Nat.{
  mod-mod_of_dvd, mod-add-div, add-mul-mod_self_left, mod-eq_of_lt, mod-lt, pow-suc,
  dvd-mul_right_of_dvd, dvd_refl, pow-le-pow_right, one-le-pow, mod-eq-sub-mod,
}

-- Numbers less than `c` apart have different remainders by `c`.
pub apart : (a d c : ℕ) → 0 < d → d < c → a % c ≢ (a + d) % c
apart a d c positive small same =
    let r : ℕ = a % c in
    let below : r < c = mod-lt a (omega arith) in
    let sum : a % c ≡ (r + d) % c =
      same
      ∙ ap (λ (s : ℕ). s % c) {x = a + d} {y = r + d + c * (a / c)} (omega (arith, mod-add-div a c))
      ∙ add-mul-mod_self_left (r + d) c (a / c) in
    elim (dec_lt (r + d) c) [
      | yes short ↦ omega (arith, positive, sum ∙ mod-eq_of_lt short)
      | no long ↦
          let once : (r + d - c) % c ≡ r + d - c = mod-eq_of_lt (omega arith) in
          omega (arith, sum ∙ mod-eq-sub-mod {n = r + d} {m = c} (omega arith) ∙ once)
    ]

divides : (k d : ℕ) → 2 ^ k ∣ 2 ^ (d + k)
divides k zero =
    subst (λ (e : ℕ). 2 ^ k ∣ 2 ^ e) {x = k} {y = 0 + k} (omega arith) (dvd_refl (2 ^ k))
divides k (suc d) =
    subst (λ n. 2 ^ k ∣ n) {x = 2 ^ (d + k) * 2} {y = 2 ^ (suc d + k)}
      (sym (pow-suc 2 (d + k))
        ∙ ap (λ (e : ℕ). 2 ^ e) {x = suc (d + k)} {y = suc d + k} (omega arith))
      (dvd-mul_right_of_dvd (2 ^ k) (divides k d) 2)

-- The remainder of a counter does not feel its wrap-around.
pub index_wrapped : (k n : ℕ) → k ≤ 63 → n % 2 ^ 64 % 2 ^ k ≡ n % 2 ^ k
index_wrapped k n h =
    mod-mod_of_dvd (2 ^ k) {b = 2 ^ 64} n (
      subst (λ (e : ℕ). 2 ^ k ∣ 2 ^ e) {x = 64 - k + k} {y = 64} (omega arith) (divides k (64 - k)))

pub capacity_bounds : (k : ℕ) → k ≤ 63 → (1 ≤ 2 ^ k) × (2 ^ k ≤ 2 ^ 63)
capacity_bounds k h = (one-le-pow k 2 (omega arith), pow-le-pow_right (omega arith) h)
