-- ===== src/Config/Checks/Shift.antt =====
-- A port out of range in the file (src/config/config.cpp).
use ouchservice.Prelude.{
  ℕ, suc, ◌-◌, ◌≤◌, ◌<◌, ◌^◌, ◌≡◌, refl, true, false, Bool, not, ◌&&◌, List, [], ◌∷◌, ◌++◌, Option,
  some, if◌then◌else◌, ltb, leb, length, length-append, get_or, All, arith, ap, ◌∙◌, map,
}
use ouchservice.Prelude.Int.{ℤ, pos}
use ouchservice.Core.Types.{ok}
use ouchservice.Ouch.Client.{is_empty}
use ouchservice.Config.{OuchCfg}
use ouchservice.Config.Load.{ports_of, load_ports}
use ouchservice.Config.Checks.{resolve_ouch_endpoint}
use ouchservice.Config.Checks.Valid.{IsPort}

abbrev pub element : ℕ → Option ℤ
element p = some (pos p)

ports_of-in_range :
    (xs : List ℕ) (vs : List (Option ℤ))
    → All IsPort xs
    → ports_of (map element xs ++ vs) ≡ xs ++ ports_of vs
unfolding ports_of
ports_of-in_range [] vs h = refl
ports_of-in_range (x ∷ xs) vs h =
    let small : leb x 65535 ≡ true = ground (arith, h.0) in
    rw small (ap (λ ps. x ∷ ps) (ports_of-in_range xs vs h.1))

ports_of-skip :
    (bad y : ℕ) (vs : List (Option ℤ))
    → 2 ^ 16 ≤ bad
    → IsPort y
    → ports_of (element bad ∷ element y ∷ vs) ≡ y ∷ ports_of vs
unfolding ports_of
ports_of-skip bad y vs large fits =
    let out : leb bad 65535 ≡ false = ground (arith, large) in
    let small : leb y 65535 ≡ true = ground (arith, fits) in rw (out, small) refl

get_or-behind : (xs ys : List ℕ) (y : ℕ) → get_or (xs ++ (y ∷ ys)) (length xs) 0 ≡ y
get_or-behind [] ys y = refl
get_or-behind (x ∷ xs) ys y = get_or-behind xs ys y

resolve_ouch_endpoint-ok :
    (c : OuchCfg) (n : ℕ) (secondary : Bool)
    → n < length c.ports
    → resolve_ouch_endpoint c (pos (suc n)) secondary
      ≡ ok (record {
        host =
            if secondary && not (is_empty c.host_secondary)
            then c.host_secondary
            else c.host_primary;
        port = get_or c.ports n 0;
      })
unfolding resolve_ouch_endpoint
resolve_ouch_endpoint-ok c n secondary h =
    let first : ltb (suc n) 1 ≡ false = ground arith in
    let last : ltb (length c.ports) (suc n) ≡ false = ground (arith, h) in
    let behind : suc n - 1 ≡ n = omega arith in rw (first, last, behind) refl

-- If the file gives the first partitions ports below 65536, the next partition a port of 65536 or more,
-- and the one after it a port below 65536, then the partition with the port that is too large is
-- resolved without an error to the port of the one after it, since the loader drops the entry.
pub resolve_ouch_endpoint-shifted :
    (c : OuchCfg) (xs : List ℕ) (bad y : ℕ) (vs : List (Option ℤ)) (secondary : Bool)
    → All IsPort xs
    → 2 ^ 16 ≤ bad
    → IsPort y
    → resolve_ouch_endpoint
        (record c {
          ports = load_ports (some (map element xs ++ (element bad ∷ element y ∷ vs))) c.ports;
        })
        (pos (suc (length xs)))
        secondary
      ≡ ok (record {
        host =
            if secondary && not (is_empty c.host_secondary)
            then c.host_secondary
            else c.host_primary;
        port = y;
      })
unfolding load_ports
resolve_ouch_endpoint-shifted c xs bad y vs secondary small large fits =
    let loaded : ports_of (map element xs ++ (element bad ∷ element y ∷ vs))
        ≡ xs ++ (y ∷ ports_of vs) =
      ports_of-in_range xs (element bad ∷ element y ∷ vs) small
      ∙ ap (λ ps. xs ++ ps) (ports_of-skip bad y vs large fits) in
    ap
      (λ (ps : List ℕ).
        resolve_ouch_endpoint (record c { ports = ps }) (pos (suc (length xs))) secondary)
      loaded
    ∙ resolve_ouch_endpoint-ok (record c { ports = xs ++ (y ∷ ports_of vs) }) (length xs) secondary
        (omega (arith, length-append xs (y ∷ ports_of vs)))
    ∙ ap
        (λ p. ok (record {
          host =
              if secondary && not (is_empty c.host_secondary)
              then c.host_secondary
              else c.host_primary;
          port = p;
        }))
        (get_or-behind xs (ports_of vs) y)
