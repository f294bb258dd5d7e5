-- ===== src/Domain/TokenRegistry/Unique.antt =====
-- When the tokens of a registry differ, and when they do not.
use ouchservice.Prelude.{
  ℕ, ◌+◌, ◌-◌, ◌/◌, ◌%◌, ◌^◌, ◌≤◌, ◌<◌, ◌≡◌, refl, sym, ap, ◌∙◌, List, [], ◌∷◌, ◌++◌, arith, take,
  drop, length, length-append, take-all_le, bytes_eq_instance, take-append, drop-append,
  take-append_le, replicate, append_assoc,
}
use ouchservice.Prelude.Decimal.{
  digits, length-digits, print_padded, print_padded_fits, digits-injective,
}
use ouchservice.Core.Alpha.{OrderToken, order_token, token_size, alpha_set}
use ouchservice.Domain.TokenRegistry.{c_string, sequential_token}

-- The text is not cut if prefix and number fit.
text_fits :
    (prefix : List ℕ) (n : ℕ)
    → length (c_string prefix) ≤ 3
    → n < 10 ^ 11
    → take token_size (c_string prefix ++ print_padded 11 n) ≡ c_string prefix ++ digits 11 n
text_fits prefix n short small =
    ap (λ t. take token_size (c_string prefix ++ t)) (print_padded_fits 10 n small)
    ∙ take-all_le token_size (c_string prefix ++ digits 11 n)
        (omega (arith, length-append (c_string prefix) (digits 11 n), length-digits 11 n))

-- Texts of one length that fit are told apart by their padded fields.
alpha_set-injective :
    (n : ℕ) (a b : List ℕ)
    → length a ≤ n
    → length a ≡ length b
    → alpha_set n a ≡ alpha_set n b
    → a ≡ b
unfolding alpha_set
alpha_set-injective n a b fits same e =
    sym (front a fits) ∙ ap (take (length a)) e ∙ rw same (front b (omega (arith, same)))
  where
    front :
        (t : List ℕ)
        → length t ≤ n
        → take (length t) (take n t ++ replicate (n - length t) b' ') ≡ t
    front t h =
        rw (take-all_le n t h) (take-append (length t) t (replicate (n - length t) b' ') refl)

-- Numbers below 10^11 have different tokens under a prefix of at most three bytes.
pub sequential_token-injective :
    (prefix : List ℕ) (m n : ℕ)
    → length (c_string prefix) ≤ 3
    → m < 10 ^ 11
    → n < 10 ^ 11
    → sequential_token prefix m ≡ sequential_token prefix n
    → m ≡ n
unfolding sequential_token order_token
sequential_token-injective prefix m n short hm hn e = digits-injective 11 m n hm hn (
    sym (drop-append (length p) p (digits 11 m) refl)
    ∙ ap (drop (length p))
        (alpha_set-injective token_size _ _ (omega (arith, size m)) (size m ∙ sym (size n)) fields)
    ∙ drop-append (length p) p (digits 11 n) refl)
  where
    p : List ℕ
    p = c_string prefix

    size : (k : ℕ) → length (p ++ digits 11 k) ≡ length p + 11
    size k = omega (arith, length-append p (digits 11 k), length-digits 11 k)

    fields : alpha_set token_size (p ++ digits 11 m) ≡ alpha_set token_size (p ++ digits 11 n)
    fields =
        ap (alpha_set token_size) (sym (text_fits prefix m short hm))
        ∙ ap (λ (t : OrderToken). t.bytes) e
        ∙ ap (alpha_set token_size) (text_fits prefix n short hn)

-- Under a prefix of four bytes or more the last digit of a number below 10^11 is cut off: numbers that
-- differ in it alone have the same token.
pub sequential_token-long_prefix :
    (prefix : List ℕ) (m n : ℕ)
    → 4 ≤ length (c_string prefix)
    → m < 10 ^ 11
    → n < 10 ^ 11
    → m / 10 ≡ n / 10
    → sequential_token prefix m ≡ sequential_token prefix n
unfolding sequential_token digits
sequential_token-long_prefix prefix m n long hm hn e =
    ap order_token (cut m hm ∙ ap (λ k. take token_size (p ++ digits 10 k)) e ∙ sym (cut n hn))
  where
    p : List ℕ
    p = c_string prefix

    cut :
        (k : ℕ)
        → k < 10 ^ 11
        → take token_size (p ++ print_padded 11 k) ≡ take token_size (p ++ digits 10 (k / 10))
    cut k h =
        ap (λ t. take token_size (p ++ t)) (print_padded_fits 10 k h)
        ∙ ap (take token_size) (sym (append_assoc p (digits 10 (k / 10)) ((b'0' + k % 10) ∷ [])))
        ∙ take-append_le token_size (p ++ digits 10 (k / 10)) ((b'0' + k % 10) ∷ [])
            (omega (arith, length-append p (digits 10 (k / 10)), length-digits 10 (k / 10)))
