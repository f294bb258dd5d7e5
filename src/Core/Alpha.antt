-- ===== src/Core/Alpha.antt =====
-- Fixed-width text: `OrderToken` of include/bist/core/types.hpp and the alpha fields of
-- include/bist/ouch/codec.hpp. Bytes are numbers, a text is a list of bytes.
pub mod Trim
use ouchservice.Prelude.{
  ℕ, zero, suc, ◌-◌, ◌≡◌, List, ◌++◌, arith, Bool, if◌then◌else◌, ◌==◌, get_or, take, replicate,
  length, bytes_eq,
}

-- A copy of at most `n` bytes, padded with spaces: the two loops of `alpha_set`.
unfoldable pub alpha_set : ℕ → List ℕ → List ℕ
alpha_set n src = take n src ++ replicate (n - length src) b' '

-- `while (n > 0 && src[n - 1] == ' ') --n;`
unfoldable pub trimmed_length : List ℕ → ℕ → ℕ
trimmed_length src zero = 0
trimmed_length src (suc n) =
    let shorter = trimmed_length src n in if get_or src n 0 == b' ' then shorter else suc n

unfoldable pub alpha_get : ℕ → List ℕ → List ℕ
unfolding trimmed_length
alpha_get n src = take (trimmed_length src n) src

abbrev pub token_size : ℕ
token_size = 14

-- `OrderToken`, by its storage of 14 bytes.
pub record OrderToken : Type 0 where
  pub bytes : List ℕ

unfoldable pub order_token : List ℕ → OrderToken
unfolding alpha_set
order_token text = record { bytes = alpha_set token_size text }

unfoldable pub view : OrderToken → List ℕ
unfolding alpha_get
view t = alpha_get token_size t.bytes

unfoldable pub token_eq : OrderToken → OrderToken → Bool
token_eq a b = bytes_eq a.bytes b.bytes
