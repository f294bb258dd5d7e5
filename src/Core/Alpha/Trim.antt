-- ===== src/Core/Alpha/Trim.antt =====
-- What reading a padded field gives back: the text without its trailing spaces.
use ouchservice.Prelude.{
  ℕ, zero, suc, ◌-◌, ◌≤◌, ◌<◌, ◌≡◌, ◌≢◌, refl, sym, ap, ◌∙◌, List, [], ◌∷◌, ◌++◌, arith,
  if◌then◌else◌, ◌==◌, Bool-cases, inl, inr, get_or, take, replicate, length, length-append,
  length-take, length-replicate, append-nil, take-all, append_assoc,
}
use ouchservice.Core.Alpha.{alpha_set, alpha_get, trimmed_length, order_token, view, token_size}

unfoldable pub trim_right : List ℕ → List ℕ
trim_right [] = []
trim_right (c ∷ cs) = elim (trim_right cs) [
  | [] ↦ if c == b' ' then [] else c ∷ []
  | d ∷ ds ↦ c ∷ d ∷ ds
]

trim_right-space : (cs : List ℕ) → trim_right (cs ++ (b' ' ∷ [])) ≡ trim_right cs
unfolding trim_right
trim_right-space [] = refl
trim_right-space (c ∷ cs) = ground (arith, trim_right-space cs)

pub trim_right-other :
    (cs : List ℕ) (c : ℕ) → c ≢ b' ' → trim_right (cs ++ (c ∷ [])) ≡ cs ++ (c ∷ [])
unfolding trim_right
trim_right-other [] c h = ground arith
trim_right-other (d ∷ []) c h = ground arith
trim_right-other (d ∷ e ∷ cs) c h = ground (arith, trim_right-other (e ∷ cs) c h)

trim_right-spaces : (n : ℕ) (cs : List ℕ) → trim_right (cs ++ replicate n b' ') ≡ trim_right cs
trim_right-spaces zero cs = ap trim_right (append-nil cs)
trim_right-spaces (suc n) cs =
    ap trim_right (sym (append_assoc cs (b' ' ∷ []) (replicate n b' ')))
    ∙ trim_right-spaces n (cs ++ (b' ' ∷ []))
    ∙ trim_right-space cs

take-suc :
    (n : ℕ) (xs : List ℕ) → n < length xs → take (suc n) xs ≡ take n xs ++ (get_or xs n 0 ∷ [])
take-suc n [] h = elim h [ ]
take-suc zero (x ∷ xs) h = refl
take-suc (suc n) (x ∷ xs) h = ap (◌∷◌ x) (take-suc n xs (omega arith))

-- The loop over the end of the field trims the first `n` bytes.
pub take-trimmed_length :
    (n : ℕ) (xs : List ℕ) → n ≤ length xs → take (trimmed_length xs n) xs ≡ trim_right (take n xs)
unfolding trimmed_length
take-trimmed_length zero xs h = unfold trim_right in refl
take-trimmed_length (suc n) xs h = elim (Bool-cases (get_or xs n 0 == b' ')) [
  | inl space ↦
      let e : get_or xs n 0 ≡ b' ' = ground arith in
      rw space (
        take-trimmed_length n xs (omega arith)
        ∙ sym (rw (take-suc n xs h, e) (trim_right-space (take n xs))))
  | inr other ↦
      rw (other, take-suc n xs h)
        (sym (trim_right-other (take n xs) (get_or xs n 0) (ground arith)))
]

pub length-alpha_set : (n : ℕ) (src : List ℕ) → length (alpha_set n src) ≡ n
unfolding alpha_set
length-alpha_set n src = omega (
  arith,
  length-append (take n src) (replicate (n - length src) b' '),
  length-take n src,
  length-replicate {A = ℕ} (n - length src) b' ',
)

pub alpha_get-alpha_set :
    (n : ℕ) (src : List ℕ) → alpha_get n (alpha_set n src) ≡ trim_right (take n src)
unfolding alpha_get
alpha_get-alpha_set n src =
    take-trimmed_length n (alpha_set n src) (omega (arith, length-alpha_set n src))
    ∙ ap trim_right (take-all n (alpha_set n src) (length-alpha_set n src))
    ∙ unfold alpha_set in trim_right-spaces (n - length src) (take n src)

-- The view of a token is the first 14 bytes of the text that it was made from, without the spaces at
-- their end.
pub view-order_token : (text : List ℕ) → view (order_token text) ≡ trim_right (take token_size text)
unfolding view order_token
view-order_token text = alpha_get-alpha_set token_size text

pub length-order_token : (text : List ℕ) → length (order_token text).bytes ≡ token_size
unfolding order_token
length-order_token text = length-alpha_set token_size text
