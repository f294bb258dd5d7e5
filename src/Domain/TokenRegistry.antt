-- ===== src/Domain/TokenRegistry.antt =====
-- include/bist/domain/token_registry.hpp: order tokens and the order ids they were given.
pub mod Unique
pub mod Allocate
use ouchservice.Prelude.{
  ℕ, ◌+◌, ◌%◌, ◌^◌, Bool, true, false, List, [], ◌∷◌, ◌++◌, Option, none, some, if◌then◌else◌, ◌==◌,
  take, lookup, insert, contains, bytes_eq_instance,
}
use ouchservice.Prelude.Decimal.{print_padded}
use ouchservice.Core.Alpha.{OrderToken, order_token, view, token_size}

-- `seen` is the set, `token_to_orderid` the map.
pub record TokenRegistry : Type 0 where
  pub prefix : List ℕ
  pub sequence : ℕ
  pub seen : List (List ℕ)
  pub token_to_orderid : List (List ℕ × ℕ)

unfoldable pub registry : List ℕ → TokenRegistry
registry prefix = record { prefix = prefix; sequence = 0; seen = []; token_to_orderid = [] }

-- What `%s` prints: the bytes before the first NUL.
unfoldable pub c_string : List ℕ → List ℕ
c_string [] = []
c_string (c ∷ cs) = elim (c == 0) [ true ↦ [] | false ↦ c ∷ c_string cs ]

-- The token of a sequence number: `snprintf` cuts the text to the 14 bytes before the NUL.
unfoldable pub sequential_token : List ℕ → ℕ → OrderToken
unfolding c_string
sequential_token prefix seq = order_token (take token_size (c_string prefix ++ print_padded 11 seq))

unfoldable pub emplace : List ℕ → List (List ℕ) → List (List ℕ)
emplace tok seen = if contains tok seen then seen else tok ∷ seen

unfoldable pub allocate : TokenRegistry → OrderToken × TokenRegistry
unfolding sequential_token emplace
allocate r =
    let seq = (r.sequence + 1) % 2 ^ 64 in
    let tok = sequential_token r.prefix seq in
    (tok, record r { sequence = seq; seen = emplace (view tok) r.seen })

unfoldable pub register_external : List ℕ → TokenRegistry → Bool × TokenRegistry
unfolding emplace
register_external tok r =
    if contains tok r.seen then (false, r) else (true, record r { seen = emplace tok r.seen })

unfoldable pub map_to_order_id : List ℕ → ℕ → TokenRegistry → TokenRegistry
map_to_order_id tok id r = record r { token_to_orderid = insert tok id r.token_to_orderid }

abbrev pub or_zero : Option ℕ → ℕ
or_zero none = 0
or_zero (some id) = id

unfoldable pub order_id_of : List ℕ → TokenRegistry → ℕ
order_id_of tok r = or_zero (lookup tok r.token_to_orderid)
