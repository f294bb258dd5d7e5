-- ===== src/Observability/SequenceStore/Line.antt =====
-- The line of a sequence file, written and read back.
use ouchservice.Prelude.{
  ℕ, zero, suc, ◌+◌, ◌/◌, ◌%◌, ◌^◌, ◌<◌, max, ◌≡◌, refl, true, false, List, [], ◌∷◌, ◌++◌, some,
  ◌==◌, All, arith, ap, sym, ◌∙◌, append-nil, lt→ltb,
}
use ouchservice.Prelude.Decimal.{
  digits, print_padded, count_digits, lt-pow-count_digits, read_digits, digits_head, is_digit,
  skip_spaces, is_space, read_digits-digits_zero,
}
use ouchservice.Observability.SequenceStore.{
  first_line, split_colon, unsigned_digits, signed_digits, stoull, line_of,
}

-- A byte that neither ends a line nor a session.
abbrev pub IsPlain : ℕ → Type 0
IsPlain c = ((c == 10) ≡ false) × ((c == b':') ≡ false)

All-append : (P : ℕ → Type 0) (xs ys : List ℕ) → All P xs → All P ys → All P (xs ++ ys)
All-append P [] ys hx hy = hy
All-append P (x ∷ xs) ys hx hy = (hx.0, All-append P xs ys hx.1 hy)

digit-IsPlain : (d : ℕ) → d < 10 → IsPlain (b'0' + d)
digit-IsPlain d h = (ground arith, ground arith)

digits-IsPlain : (w n : ℕ) → All IsPlain (digits w n)
unfolding digits
digits-IsPlain zero n = tt
digits-IsPlain (suc w) n =
    All-append IsPlain (digits w (n / 10)) _ (digits-IsPlain w (n / 10))
      (digit-IsPlain (n % 10) (omega arith), tt)

first_line-plain : (xs ys : List ℕ) → All IsPlain xs → first_line (xs ++ ys) ≡ xs ++ first_line ys
unfolding first_line
first_line-plain [] ys h = refl
first_line-plain (x ∷ xs) ys h = rw (h.0.0) (ap (λ zs. x ∷ zs) (first_line-plain xs ys h.1))

split_colon-plain :
    (xs ys : List ℕ) → All IsPlain xs → split_colon (xs ++ (b':' ∷ ys)) ≡ some (xs, ys)
unfolding split_colon
split_colon-plain [] ys h = refl
split_colon-plain (x ∷ xs) ys h = rw (h.0.1, split_colon-plain xs ys h.1) refl

-- Up to the end of the line, the session and the number are there.
pub split_colon-line_of :
    (session : List ℕ) (seq : ℕ)
    → All IsPlain session
    → split_colon (first_line (line_of session seq)) ≡ some (session, print_padded 1 seq)
unfolding line_of first_line print_padded
split_colon-line_of session seq h =
    let number = print_padded 1 seq in
    let one_line : first_line (number ++ (10 ∷ [])) ≡ number =
      first_line-plain number (10 ∷ []) (digits-IsPlain (max 1 (count_digits 19 seq)) seq)
      ∙ append-nil number in
    ap split_colon (
      first_line-plain session (b':' ∷ (number ++ (10 ∷ []))) h
      ∙ ap (λ t. session ++ (b':' ∷ t)) one_line)
    ∙ split_colon-plain session number h

no_space : (d : ℕ) → d < 10 → is_space (b'0' + d) ≡ false
no_space d h = ground arith

digit_signs :
    (d : ℕ)
    → d < 10
    → (((b'0' + d) == b'-') ≡ false) × (((b'0' + d) == b'+') ≡ false) × (is_digit (b'0' + d) ≡ true)
digit_signs d h = (ground arith, ground arith, ground arith)

stoull_of_digit :
    (d v : ℕ) (cs : List ℕ)
    → d < 10
    → read_digits 0 ((b'0' + d) ∷ cs) ≡ v
    → v < 2 ^ 64
    → stoull ((b'0' + d) ∷ cs) ≡ some v
unfolding stoull signed_digits unsigned_digits skip_spaces
stoull_of_digit d v cs h reads fits =
    let (minus, plus, is) = digit_signs d h in
    rw (no_space d h, minus, plus, is, reads, lt→ltb v (2 ^ 64) fits) refl

stoull-digits : (w n : ℕ) → n < 10 ^ suc w → n < 2 ^ 64 → stoull (digits (suc w) n) ≡ some n
stoull-digits w n small fits =
    let (d, cs, lt, e) = digits_head w n in
    ap stoull e
    ∙ stoull_of_digit d n cs lt
        (ap (read_digits 0) (sym e) ∙ read_digits-digits_zero (suc w) n small) fits

stoull-digits-max : (k n : ℕ) → n < 10 ^ k → n < 2 ^ 64 → stoull (digits (max 1 k) n) ≡ some n
stoull-digits-max zero n small fits =
    ap (λ w. stoull (digits w n)) {x = max 1 0} {y = 1} (omega arith)
    ∙ stoull-digits 0 n (omega (arith, small)) fits
stoull-digits-max (suc j) n small fits =
    ap (λ w. stoull (digits w n)) {x = max 1 (suc j)} {y = suc j} (omega arith)
    ∙ stoull-digits j n small fits

-- A number that fits is read back.
pub stoull-print_padded : (n : ℕ) → n < 2 ^ 64 → stoull (print_padded 1 n) ≡ some n
unfolding print_padded
stoull-print_padded n h =
    stoull-digits-max (count_digits 19 n) n (lt-pow-count_digits 19 n (omega arith)) h
