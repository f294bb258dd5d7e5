-- ===== src/Runner/Fields.antt =====
-- include/bist/runner/replay.hpp: fields of an event as text, and what a step expects of them.
use ouchservice.Prelude.{
  ℕ, zero, suc, List, [], ◌∷◌, ◌++◌, Option, none, some, if◌then◌else◌, ◌==◌, ◌||◌, Bool, get_or,
  take, length, bytes_eq, codes, String,
}
use ouchservice.Prelude.Int.{ℤ, pos, negsuc}
use ouchservice.Prelude.Decimal.{print_padded}
use ouchservice.Core.Types.{Side, to_wire}

-- `while (n > 0 && (buf[n - 1] == ' ' || buf[n - 1] == '\0')) --n;`
unfoldable pub filled_length : List ℕ → ℕ → ℕ
filled_length buf zero = 0
filled_length buf (suc n) =
    let shorter = filled_length buf n in
    if get_or buf n 0 == b' ' || get_or buf n 0 == 0 then shorter else suc n

unfoldable pub trim_fixed_alpha : List ℕ → List ℕ
unfolding filled_length
trim_fixed_alpha buf = take (filled_length buf (length buf)) buf

unfoldable pub side_field : Side → List ℕ
side_field s = to_wire s ∷ []

-- `std::to_string` of an unsigned and of a signed number.
unfoldable pub to_string : ℕ → List ℕ
to_string n = print_padded 1 n

unfoldable pub to_string_ℤ : ℤ → List ℕ
unfolding to_string
to_string_ℤ (pos n) = to_string n
to_string_ℤ (negsuc n) = b'-' ∷ to_string (suc n)

-- The chains of `if (key == ...) return ...`: the first line whose keys have this one.
unfoldable pub is_key : List ℕ → List String → Bool
is_key key [] = Bool.false
is_key key (k ∷ ks) = bytes_eq key (codes k) || is_key key ks

unfoldable pub field_of : List (List String × List ℕ) → List ℕ → Option (List ℕ)
unfolding is_key
field_of [] key = none
field_of ((keys, value) ∷ rest) key = if is_key key keys then some value else field_of rest key

-- What a check gives: `true`, or `false` with the detail it writes.
pub data Verdict : Type 0 where
  matches : Verdict
  differs : List ℕ → Verdict

abbrev pub no_field : List ℕ → List ℕ
no_field key = codes "event has no expected field '" ++ key ++ codes "'"

abbrev pub mismatch : List ℕ → List ℕ → List ℕ → List ℕ
mismatch key expected actual =
    codes "field mismatch for '"
    ++ key
    ++ codes "': expected '"
    ++ expected
    ++ codes "', got '"
    ++ actual
    ++ codes "'"

-- One turn of the loop, `rest` being those that follow.
abbrev pub field_matches : List ℕ → List ℕ → Option (List ℕ) → Verdict → Verdict
field_matches key expected none rest = differs (no_field key)
field_matches key expected (some actual) rest =
    if bytes_eq actual expected then rest else differs (mismatch key expected actual)

unfoldable pub expected_fields_match : List (List ℕ × List ℕ) → (List ℕ → Option (List ℕ)) → Verdict
expected_fields_match [] lookup = matches
expected_fields_match ((key, expected) ∷ fields) lookup =
    let rest = expected_fields_match fields lookup in field_matches key expected (lookup key) rest
