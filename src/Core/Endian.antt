-- ===== src/Core/Endian.antt =====
-- include/bist/core/endian.hpp: `BigEndian<T>`, a scalar as bytes in network order. `set` swaps the
-- bytes of a little-endian host before the copy, `get` after it, so on either kind of host the most
-- significant byte comes first.
use ouchservice.Prelude.{
  ℕ, zero, suc, ◌+◌, ◌*◌, ◌/◌, ◌%◌, ◌^◌, ◌<◌, ◌≡◌, refl, ap, sym, ◌∙◌, List, [], ◌∷◌, ◌++◌, arith,
  length, length-append, append_assoc, append-nil,
}
use native.Mathlib.Nat.{pow-suc}

-- `BigEndian<T>::set`, for a `T` of `w` bytes.
unfoldable pub be_set : ℕ → ℕ → List ℕ
be_set zero v = []
be_set (suc w) v = be_set w (v / 256) ++ (v % 256 ∷ [])

unfoldable pub be_get_from : ℕ → List ℕ → ℕ
be_get_from acc [] = acc
be_get_from acc (b ∷ bs) = be_get_from (acc * 256 + b) bs

-- `BigEndian<T>::get`
unfoldable pub be_get : List ℕ → ℕ
unfolding be_get_from
be_get bytes = be_get_from 0 bytes

pub length-be_set : (w v : ℕ) → length (be_set w v) ≡ w
unfolding be_set
length-be_set zero v = refl
length-be_set (suc w) v =
    omega (arith, length-append (be_set w (v / 256)) (v % 256 ∷ []), length-be_set w (v / 256))

be_get_from-be_set :
    (w v acc : ℕ) (tail : List ℕ)
    → v < 256 ^ w
    → be_get_from acc (be_set w v ++ tail) ≡ be_get_from (acc * 256 ^ w + v) tail
unfolding be_set be_get_from
be_get_from-be_set zero v acc tail h =
    ap (λ k. be_get_from k tail) {x = acc} {y = acc * 256 ^ 0 + v} (omega arith)
be_get_from-be_set (suc w) v acc tail h =
    ap (be_get_from acc) (append_assoc (be_set w (v / 256)) (v % 256 ∷ []) tail)
    ∙ be_get_from-be_set w (v / 256) acc (v % 256 ∷ tail) (omega (arith, pow-suc 256 w))
    ∙ ap (λ k. be_get_from k tail) {x = (acc * 256 ^ w + v / 256) * 256 + v % 256}
        {y = acc * 256 ^ suc w + v}
        (omega (arith, pow-suc 256 w, ap (λ (t : ℕ). acc * t) (pow-suc 256 w)))

-- A value that fits is read back.
pub be_get-be_set : (w v : ℕ) → v < 256 ^ w → be_get (be_set w v) ≡ v
unfolding be_get be_get_from
be_get-be_set w v h =
    ap (be_get_from 0) (sym (append-nil (be_set w v))) ∙ be_get_from-be_set w v 0 [] h ∙ omega arith
