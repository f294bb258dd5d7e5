-- ===== src/Domain/TokenRegistry/Allocate.antt =====
-- Runs of `allocate`, and how it goes together with external tokens.
use ouchservice.Prelude.{
  ℕ, zero, suc, ◌+◌, ◌%◌, ◌^◌, ◌≤◌, ◌<◌, ◌≡◌, ◌≢◌, refl, sym, ap, ◌∙◌, true, false, List, [], ◌∷◌,
  arith, length, contains, All, All-map, not, bytes_eq_iff, bytes_eq_instance,
}
use ouchservice.Core.Alpha.{OrderToken, view}
use ouchservice.Domain.TokenRegistry.{
  TokenRegistry, c_string, sequential_token, allocate, register_external,
}
use ouchservice.Domain.TokenRegistry.Unique.{sequential_token-injective}

-- A run of allocations.
unfoldable pub allocate_many : ℕ → TokenRegistry → List OrderToken
allocate_many zero r = []
allocate_many (suc k) r = let (tok, r') = allocate r in tok ∷ allocate_many k r'

abbrev pub Distinct : List OrderToken → Type 0
Distinct [] = Unit
Distinct (t ∷ ts) = All (λ u. t ≢ u) ts × Distinct ts

allocate-next :
    (r : TokenRegistry)
    → r.sequence + 1 < 2 ^ 64
    → ((allocate r).0 ≡ sequential_token r.prefix (r.sequence + 1))
      × ((allocate r).1.sequence ≡ r.sequence + 1)
      × ((allocate r).1.prefix ≡ r.prefix)
unfolding allocate
allocate-next r h = (ap (sequential_token r.prefix) (omega arith), omega arith, refl)

-- The tokens of a run are those of later numbers.
record IsLater (prefix : List ℕ) (lo : ℕ) (t : OrderToken) : Type 0 where
  number : ℕ
  is_token : t ≡ sequential_token prefix number
  above : lo < number
  small : number < 10 ^ 11

allocate_many-IsLater :
    (k lo : ℕ) (prefix : List ℕ) (r : TokenRegistry)
    → r.prefix ≡ prefix
    → r.sequence + k < 10 ^ 11
    → lo ≤ r.sequence
    → All (IsLater prefix lo) (allocate_many k r)
unfolding allocate_many
allocate_many-IsLater zero lo prefix r same room le = tt
allocate_many-IsLater (suc k) lo prefix r same room le =
    let (tok, seq, kept) = allocate-next r (omega arith) in
    (
      record {
        number = r.sequence + 1;
        is_token = tok ∙ ap (λ p. sequential_token p (r.sequence + 1)) same;
        above = omega arith;
        small = omega arith;
      },
      allocate_many-IsLater k lo prefix (allocate r).1 (kept ∙ same) (omega (arith, seq))
          (omega (arith, seq)),
    )

-- A run of allocations hands out pairwise different tokens, as long as the numbers stay below
-- 10^11 and the prefix has at most three bytes.
pub allocate_many-Distinct :
    (k : ℕ) (r : TokenRegistry)
    → length (c_string r.prefix) ≤ 3
    → r.sequence + k < 10 ^ 11
    → Distinct (allocate_many k r)
unfolding allocate_many
allocate_many-Distinct zero r short room = tt
allocate_many-Distinct (suc k) r short room = (
  All-map differ (allocate_many k r') (
      allocate_many-IsLater k (r.sequence + 1) r.prefix r' next.2 (omega (arith, next.1))
        (omega (arith, next.1))),
  allocate_many-Distinct k (allocate r).1
      (omega (arith, short, ap (λ p. length (c_string p)) next.2)) (omega (arith, next.1)),
)
  where
    r' : TokenRegistry
    r' = (allocate r).1

    next :
        ((allocate r).0 ≡ sequential_token r.prefix (r.sequence + 1))
        × (r'.sequence ≡ r.sequence + 1)
        × (r'.prefix ≡ r.prefix)
    next = allocate-next r (omega arith)

    differ : (u : OrderToken) → IsLater r.prefix (r.sequence + 1) u → (allocate r).0 ≡ u → ⊥
    differ u later e =
        let same : r.sequence + 1 ≡ later.number =
          sequential_token-injective r.prefix (r.sequence + 1) later.number short (omega arith)
            later.small (sym next.0 ∙ e ∙ later.is_token) in
        omega (arith, later.above)

-- `allocate` does not look whether the token is taken: if the next token is free and a caller
-- registers it, the registration succeeds and `allocate` then hands the same token out.
pub allocate-register_external :
    (tok : List ℕ) (r : TokenRegistry)
    → tok ≡ view (sequential_token r.prefix ((r.sequence + 1) % 2 ^ 64))
    → contains tok r.seen ≡ false
    → let (fresh, r') = register_external tok r in
      (fresh ≡ true) × (contains tok r'.seen ≡ true) × (view (allocate r').0 ≡ tok)
unfolding register_external allocate contains
allocate-register_external tok r e h = ground (arith, bytes_eq_iff tok tok)

-- An external token is accepted exactly if it is not taken, it is taken from then on, and the next
-- attempt to register it is refused and changes nothing.
pub register_external-once :
    (tok : List ℕ) (r : TokenRegistry)
    → let (fresh, r') = register_external tok r in
      (fresh ≡ not (contains tok r.seen))
      × (contains tok r'.seen ≡ true)
      × (register_external tok r' ≡ (false, r'))
unfolding register_external contains
register_external-once tok r = ground (arith, bytes_eq_iff tok tok)

-- The text of an allocated token is taken: it is refused as an external token.
pub register_external-allocate :
    (r : TokenRegistry) → (register_external (view (allocate r).0) (allocate r).1).0 ≡ false
unfolding register_external allocate contains
register_external-allocate r =
    ground (arith, bytes_eq_iff (view (allocate r).0) (view (allocate r).0))
