-- ===== src/Core/Codec.antt =====
-- Packed structs: how a value is laid out in bytes, and how `memcpy` reads it back. A struct of
-- include/bist/ouch/messages.hpp is built from its fields in declaration order by `◌⊗◌`.
use ouchservice.Prelude.{
  ℕ, ◌+◌, ◌^◌, ◌≤◌, ◌<◌, ◌≡◌, refl, ap, ap₂, ◌∙◌, List, [], ◌∷◌, ◌++◌, arith, length, length-append,
  take, drop, take-append, drop-append, take-append_le, drop-append_le, length-drop, append_assoc,
  get_or,
}
use ouchservice.Prelude.Int.{ℤ, FitsI32, to_u32, to_i32, to_u32-lt, to_i32-to_u32}
use ouchservice.Core.Endian.{be_set, be_get, length-be_set, be_get-be_set}

-- `read` looks at the first `size` bytes. Beyond the end of the input it would find zeros; the code
-- compares sizes before it copies.
pub record Codec (A : Type 0) : Type 1 where
  pub size : ℕ
  pub write : A → List ℕ
  pub read : List ℕ → A
  pub IsValid : A → Type 0
  pub length_write : (a : A) → IsValid a → length (write a) ≡ size
  pub read_write : (a : A) (rest : List ℕ) → IsValid a → read (write a ++ rest) ≡ a
  pub read_prefix : (bs more : List ℕ) → size ≤ length bs → read (bs ++ more) ≡ read bs

pub get_or-append :
    (d : ℕ) (bs more : List ℕ) → 1 ≤ length bs → get_or (bs ++ more) 0 d ≡ get_or bs 0 d
get_or-append d [] more h = absurd (omega arith)
get_or-append d (b ∷ bs) more h = refl

-- `char` and `std::uint8_t`
abbrev pub byte : Codec ℕ
byte = record {
  size = 1;
  write = λ b. b ∷ [];
  read = λ bs. get_or bs 0 0;
  IsValid = λ b. b < 256;
  length_write = λ b h. refl;
  read_write = λ b rest h. refl;
  read_prefix = get_or-append 0;
}

-- `char[n]` and `std::uint8_t[n]`
abbrev pub chars : ℕ → Codec (List ℕ)
chars n = record {
  size = n;
  write = λ bs. bs;
  read = take n;
  IsValid = λ bs. length bs ≡ n;
  length_write = λ bs h. h;
  read_write = λ bs rest h. take-append n bs rest h;
  read_prefix = λ bs more h. take-append_le n bs more h;
}

pub read_write-unsigned :
    (w v : ℕ) (rest : List ℕ) → v < 256 ^ w → be_get (take w (be_set w v ++ rest)) ≡ v
read_write-unsigned w v rest h =
    ap be_get (take-append w (be_set w v) rest (length-be_set w v)) ∙ be_get-be_set w v h

-- `be_u16`, `be_u32`, `be_u64`: an unsigned value of `w` bytes
abbrev pub unsigned : ℕ → Codec ℕ
unsigned w = record {
  size = w;
  write = be_set w;
  read = λ bs. be_get (take w bs);
  IsValid = λ v. v < 256 ^ w;
  length_write = λ v h. length-be_set w v;
  read_write = read_write-unsigned w;
  read_prefix = λ bs more h. ap be_get (take-append_le w bs more h);
}

-- `be_i32`
abbrev pub signed32 : Codec ℤ
signed32 = record {
  size = 4;
  write = λ a. be_set 4 (to_u32 a);
  read = λ bs. to_i32 (be_get (take 4 bs));
  IsValid = FitsI32;
  length_write = λ a h. length-be_set 4 (to_u32 a);
  read_write = λ a rest h.
      ap to_i32 (read_write-unsigned 4 (to_u32 a) rest (to_u32-lt a)) ∙ to_i32-to_u32 a h;
  read_prefix = λ bs more h. ap (λ t. to_i32 (be_get t)) (take-append_le 4 bs more h);
}

-- One field after another.
infixr 60 ◌⊗◌
abbrev pub ◌⊗◌ : {A B : Type 0} → Codec A → Codec B → Codec (A × B)
c ⊗ d = record {
  size = c.size + d.size;
  write = λ p. c.write p.0 ++ d.write p.1;
  read = λ bs. (c.read bs, d.read (drop c.size bs));
  IsValid = λ p. c.IsValid p.0 × d.IsValid p.1;
  length_write = λ p h.
      length-append (c.write p.0) (d.write p.1)
      ∙ ap₂ ◌+◌ (c.length_write p.0 h.0) (d.length_write p.1 h.1);
  read_write = λ p rest h. λ i. (
    (ap c.read (append_assoc (c.write p.0) (d.write p.1) rest)
          ∙ c.read_write p.0 (d.write p.1 ++ rest) h.0)
        i,
    (ap (λ bs. d.read (drop c.size bs)) (append_assoc (c.write p.0) (d.write p.1) rest)
          ∙ ap d.read
              (drop-append c.size (c.write p.0) (d.write p.1 ++ rest) (c.length_write p.0 h.0))
          ∙ d.read_write p.1 rest h.1)
        i,
  );
  read_prefix = λ bs more h.
      let left : c.size ≤ length bs = omega arith in
      let right : d.size ≤ length (drop c.size bs) = omega (arith, length-drop c.size bs) in
      λ i. (
        c.read_prefix bs more left i,
        (ap d.read (drop-append_le c.size bs more left) ∙ d.read_prefix (drop c.size bs) more right)
            i,
      );
}

-- A record type for a tuple of fields.
abbrev pub via :
    {A B : Type 0} → Codec B → (to : A → B) (from : B → A) → ((a : A) → from (to a) ≡ a) → Codec A
via c to from back = record {
  size = c.size;
  write = λ a. c.write (to a);
  read = λ bs. from (c.read bs);
  IsValid = λ a. c.IsValid (to a);
  length_write = λ a h. c.length_write (to a) h;
  read_write = λ a rest h. ap from (c.read_write (to a) rest h) ∙ back a;
  read_prefix = λ bs more h. ap from (c.read_prefix bs more h);
}
