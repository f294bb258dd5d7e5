-- ===== src/Prelude/Decimal.antt =====
-- Decimal text: what `printf("%0*llu")` writes and `strtoull(..., 10)` reads.
use ouchservice.Prelude.Tests.{ltb, leb, ◌==◌, if◌then◌else◌}
use ouchservice.Prelude.Lists.{length, length-append}
use Prim.Native.Nat.{ℕ, zero, suc, ◌+◌, ◌-◌, ◌*◌, ◌/◌, ◌%◌, ◌^◌, ◌≤◌, ◌<◌, max}
use mathlib.Core.Path.{◌≡◌, refl, sym, ap, ◌∙◌}
use mathlib.Core.Bool.{Bool, ◌&&◌, ◌||◌}
use mathlib.Core.List.{List, [], ◌∷◌, ◌++◌, append_assoc, append-nil}
use native.Mathlib.Nat.{pow-suc}
use native.Mathlib.Omega.{arith}

-- The last `w` decimal digits of `n`, the first digit first.
unfoldable pub digits : ℕ → ℕ → List ℕ
digits zero n = []
digits (suc w) n = digits w (n / 10) ++ ((b'0' + n % 10) ∷ [])

-- How many digits `n` is written with; a uint64 has 20 at most.
unfoldable pub count_digits : ℕ → ℕ → ℕ
count_digits zero n = 1
count_digits (suc f) n = let rest = count_digits f (n / 10) in if ltb n 10 then 1 else suc rest

-- `%0<w>llu`: at least `w` digits, padded with zeros on the left.
unfoldable pub print_padded : ℕ → ℕ → List ℕ
unfolding count_digits digits
print_padded w n = digits (max w (count_digits 19 n)) n

pub length-digits : (w n : ℕ) → length (digits w n) ≡ w
unfolding digits
length-digits zero n = refl
length-digits (suc w) n =
    omega
      (arith, length-append (digits w (n / 10)) ((b'0' + n % 10) ∷ []), length-digits w (n / 10))

-- `n` is written with enough digits, and with no more than it needs.
pub lt-pow-count_digits : (f n : ℕ) → n < 10 ^ suc f → n < 10 ^ count_digits f n
unfolding count_digits
lt-pow-count_digits zero n h = h
lt-pow-count_digits (suc f) n h = ground (
  arith,
  lt-pow-count_digits f (n / 10),
  pow-suc 10 (suc f),
  pow-suc 10 (count_digits f (n / 10)),
)

pub count_digits-le : (w f n : ℕ) → n < 10 ^ suc w → count_digits f n ≤ suc w
unfolding count_digits
count_digits-le w zero n h = omega arith
count_digits-le zero (suc f) n h = ground arith
count_digits-le (suc w) (suc f) n h =
    ground (arith, count_digits-le w f (n / 10), pow-suc 10 (suc w))

-- A number that fits is printed with exactly the width asked for.
pub print_padded_fits : (w n : ℕ) → n < 10 ^ suc w → print_padded (suc w) n ≡ digits (suc w) n
unfolding print_padded
print_padded_fits w n h =
    ap (λ k. digits k n) {x = max (suc w) (count_digits 19 n)} {y = suc w}
      (omega (arith, count_digits-le w 19 n h))

abbrev pub is_digit : ℕ → Bool
is_digit c = leb b'0' c && leb c b'9'

unfoldable pub read_digits : ℕ → List ℕ → ℕ
read_digits acc [] = acc
read_digits acc (c ∷ cs) =
    let rest = read_digits (acc * 10 + (c - b'0')) cs in if is_digit c then rest else acc

-- `isspace` of the C locale.
abbrev pub is_space : ℕ → Bool
is_space c = c == 32 || (leb 9 c && leb c 13)

unfoldable pub skip_spaces : List ℕ → List ℕ
skip_spaces [] = []
skip_spaces (c ∷ cs) = let rest = skip_spaces cs in if is_space c then rest else c ∷ cs

-- An overflow gives ULLONG_MAX.
abbrev pub saturate : ℕ → ℕ
saturate v = if ltb v (2 ^ 64) then v else 2 ^ 64 - 1

unfoldable pub read_signed : List ℕ → ℕ
unfolding read_digits
read_signed [] = 0
read_signed (c ∷ cs) =
    if c == b'-'
    then (let v = read_digits 0 cs in if ltb v (2 ^ 64) then (2 ^ 64 - v) % 2 ^ 64 else 2 ^ 64 - 1)
    else if c == b'+'
    then saturate (read_digits 0 cs)
    else saturate (read_digits 0 (c ∷ cs))

unfoldable pub strtoull : List ℕ → ℕ
unfolding skip_spaces read_signed
strtoull text = read_signed (skip_spaces text)

read_digits-digit :
    (acc d : ℕ) (tail : List ℕ)
    → d < 10
    → read_digits acc ((b'0' + d) ∷ tail) ≡ read_digits (acc * 10 + d) tail
unfolding read_digits
read_digits-digit acc d tail h = ground arith

pub read_digits-digits :
    (w n acc : ℕ) (tail : List ℕ)
    → n < 10 ^ w
    → read_digits acc (digits w n ++ tail) ≡ read_digits (acc * 10 ^ w + n) tail
unfolding digits
read_digits-digits zero n acc tail h =
    ap (λ k. read_digits k tail) {x = acc} {y = acc * 10 ^ 0 + n} (omega arith)
read_digits-digits (suc w) n acc tail h =
    rw (append_assoc (digits w (n / 10)) ((b'0' + n % 10) ∷ []) tail) (
      read_digits-digits w (n / 10) acc ((b'0' + n % 10) ∷ tail) (omega (arith, pow-suc 10 w))
      ∙ read_digits-digit (acc * 10 ^ w + n / 10) (n % 10) tail (omega arith)
      ∙ ap (λ k. read_digits k tail) {x = (acc * 10 ^ w + n / 10) * 10 + n % 10}
          {y = acc * 10 ^ suc w + n}
          (omega (arith, pow-suc 10 w, ap (λ (t : ℕ). acc * t) (pow-suc 10 w))))

pub read_digits-digits_zero : (w n : ℕ) → n < 10 ^ w → read_digits 0 (digits w n) ≡ n
unfolding read_digits
read_digits-digits_zero w n h =
    ap (read_digits 0) (sym (append-nil (digits w n))) ∙ read_digits-digits w n 0 [] h ∙ omega arith

-- Equal texts stand for equal numbers.
pub digits-injective : (w m n : ℕ) → m < 10 ^ w → n < 10 ^ w → digits w m ≡ digits w n → m ≡ n
digits-injective w m n hm hn e =
    sym (read_digits-digits_zero w m hm) ∙ ap (read_digits 0) e ∙ read_digits-digits_zero w n hn

-- A text that begins with a digit is read as its digits.
pub strtoull_of_digit :
    (d : ℕ) (cs : List ℕ)
    → d < 10
    → strtoull ((b'0' + d) ∷ cs) ≡ saturate (read_digits 0 ((b'0' + d) ∷ cs))
unfolding strtoull
strtoull_of_digit d cs h = ground arith

pub digits_head :
    (w n : ℕ) → (d : ℕ) × (cs : List ℕ) × (d < 10) × (digits (suc w) n ≡ (b'0' + d) ∷ cs)
unfolding digits
digits_head zero n = (n % 10, [], omega arith, refl)
digits_head (suc w) n =
    let (d, cs, small, e) = digits_head w (n / 10) in
    (d, cs ++ ((b'0' + n % 10) ∷ []), small, ap (λ t. t ++ ((b'0' + n % 10) ∷ [])) e)

-- The digits of a number, read up to a byte that is no digit, give the number.
pub strtoull-digits :
    (w n : ℕ) (tail : List ℕ)
    → n < 10 ^ suc w
    → n < 2 ^ 64
    → ((acc : ℕ) → read_digits acc tail ≡ acc)
    → strtoull (digits (suc w) n ++ tail) ≡ n
strtoull-digits w n tail h small stops =
    let (d, cs, lt, e) = digits_head w n in
    ap (λ t. strtoull (t ++ tail)) e
    ∙ strtoull_of_digit d (cs ++ tail) lt
    ∙ ap (λ t. saturate (read_digits 0 (t ++ tail))) (sym e)
    ∙ ap saturate (read_digits-digits (suc w) n 0 tail h ∙ stops (0 * 10 ^ suc w + n))
    ∙ ground arith
