-- ===== src/Ouch/Session/Send/Login.antt =====
-- The sequence number of a login request.
use ouchservice.Prelude.{
  ℕ, ◌+◌, ◌/◌, ◌%◌, ◌^◌, ◌<◌, ◌≡◌, refl, ap, ◌∙◌, [], ◌∷◌, ◌++◌, arith, take, take-append,
}
use ouchservice.Prelude.Decimal.{
  digits, length-digits, print_padded_fits, strtoull, strtoull-digits, read_digits,
}
use ouchservice.Ouch.Session.Send.{sequence_field}

-- The field holds the digits of the number without the last one, and a NUL.
pub sequence_field-digits : (n : ℕ) → n < 2 ^ 64 → sequence_field n ≡ digits 19 (n / 10) ++ (0 ∷ [])
unfolding sequence_field digits
sequence_field-digits n h =
    ap (λ t. take 19 t ++ (0 ∷ [])) (print_padded_fits 19 n (omega arith))
    ∙ ap (λ t. t ++ (0 ∷ []))
        (take-append 19 (digits 19 (n / 10)) ((b'0' + n % 10) ∷ []) (length-digits 19 (n / 10)))

-- Read as a number, the sequence field of a login request is a tenth of the sequence that was asked
-- for.
pub strtoull-sequence_field : (n : ℕ) → n < 2 ^ 64 → strtoull (sequence_field n) ≡ n / 10
strtoull-sequence_field n h =
    ap strtoull (sequence_field-digits n h)
    ∙ strtoull-digits 18 (n / 10) (0 ∷ []) (omega arith) (omega arith)
        (λ acc. unfold read_digits in refl)
