-- ===== src/Config/Checks/Valid.antt =====
-- What a loaded configuration can be relied on for.
use ouchservice.Prelude.{
  ℕ, ◌^◌, ◌≤◌, ◌<◌, ◌≡◌, ◌≢◌, refl, true, false, Bool, List, [], ◌∷◌, Option, none, some,
  if◌then◌else◌, ◌==◌, leb, length, All, arith, subst,
}
use ouchservice.Prelude.Int.{ℤ, pos, negsuc}
use ouchservice.Core.Types.{Error, ok}
use ouchservice.Ouch.Client.{is_empty}
use ouchservice.Config.{OuchCfg, FixCfg, UeaCfg, Config, default_config}
use ouchservice.Config.Load.{
  TomlTable, ports_of, load_ports, set_port, apply_uea, apply_ouch, apply_fix, apply,
}
use ouchservice.Config.Checks.{
  ParsedFile, validate, validated, load_local, load_config, parsed, parse_error, unreadable,
  checked,
}

abbrev pub IsPort : ℕ → Type 0
IsPort p = p < 2 ^ 16

if-holds {ℓ} :
    {A : Type ℓ} (P : A → Type 0) (b : Bool) (x y : A)
    → (b ≡ true → P x)
    → P y
    → P (if b then x else y)
if-holds P true x y hx hy = hx refl
if-holds P false x y hx hy = hy

ports_of-All : (vs : List (Option ℤ)) → All IsPort (ports_of vs)
unfolding ports_of
ports_of-All [] = tt
ports_of-All (none ∷ vs) = ports_of-All vs
ports_of-All (some (negsuc n) ∷ vs) = ports_of-All vs
ports_of-All (some (pos n) ∷ vs) =
    if-holds (All IsPort) (leb n 65535) (n ∷ ports_of vs) (ports_of vs)
      (λ small. (ground (arith, small), ports_of-All vs)) (ports_of-All vs)

load_ports-All :
    (vs : Option (List (Option ℤ))) (out : List ℕ) → All IsPort out → All IsPort (load_ports vs out)
unfolding load_ports
load_ports-All none out h = h
load_ports-All (some vs) out h = ports_of-All vs

set_port-IsPort : (v : Option ℤ) (dst : ℕ) → IsPort dst → IsPort (set_port v dst)
unfolding set_port
set_port-IsPort none dst h = h
set_port-IsPort (some v) dst h = omega arith

apply_uea-All :
    {D : Type 0} (t : TomlTable D) (c : UeaCfg)
    → All IsPort c.ports
    → All IsPort (apply_uea t c).ports
unfolding apply_uea
apply_uea-All t c h =
    if-holds (λ (u : UeaCfg). All IsPort u.ports) (t.is_table "ouch.uea") _ c
      (λ present. load_ports-All (t.array "ouch.uea.ports") c.ports h) h

-- Every port of the OUCH part has 16 bits, and every port of the FIX part.
abbrev pub OuchFits : OuchCfg → Type 0
OuchFits c = All IsPort c.ports × All IsPort c.uea.ports

abbrev pub FixFits : FixCfg → Type 0
FixFits c = IsPort c.oe_port × IsPort c.rd_port × IsPort c.dc_port

apply_ouch-OuchFits :
    {D : Type 0} (t : TomlTable D) (c : OuchCfg) → OuchFits c → OuchFits (apply_ouch t c)
unfolding apply_ouch
apply_ouch-OuchFits t c h =
    if-holds OuchFits (t.is_table "ouch") _ c
      (λ present. (load_ports-All (t.array "ouch.ports") c.ports h.0, apply_uea-All t c.uea h.1)) h

apply_fix-FixFits :
    {D : Type 0} (t : TomlTable D) (c : FixCfg) → FixFits c → FixFits (apply_fix t c)
unfolding apply_fix
apply_fix-FixFits t c h =
    if-holds FixFits (t.is_table "fix") _ c
      (λ present. (
        set_port-IsPort (t.int64 "fix.oe_port") c.oe_port h.0,
        set_port-IsPort (t.int64 "fix.rd_port") c.rd_port h.1,
        set_port-IsPort (t.int64 "fix.dc_port") c.dc_port h.2,
      ))
      h

-- What the validation asks for.
abbrev pub IsComplete : {D : Type 0} → Config D → Type 0
IsComplete c =
    (is_empty c.environment.name ≡ false)
    × (is_empty c.ouch.host_primary ≡ false)
    × (1 ≤ length c.ouch.ports)
    × (is_empty c.ouch.username ≡ false)
    × (is_empty c.ouch.password ≡ false)
    × (1 ≤ c.throttler.orders_per_sec)

guard :
    (b : Bool) (detail : Option Error) (rest : Option Error)
    → detail ≢ none
    → (if b then detail else rest) ≡ none
    → (b ≡ false) × (rest ≡ none)
guard true detail rest fails h = absurd (fails h)
guard false detail rest fails h = (refl, h)

fails_with : (e : Error) → ◌≢◌ {A = Option Error} (some e) none
fails_with e = λ h. ground (arith, h)

validate-IsComplete : {D : Type 0} (c : Config D) → validate c ≡ none → IsComplete c
unfolding validate
validate-IsComplete c h =
    let (name, h1) = guard _ _ _ (fails_with _) h in
    let (host, h2) = guard _ _ _ (fails_with _) h1 in
    let (ports, h3) = guard (length c.ouch.ports == 0) _ _ (fails_with _) h2 in
    let (username, h4) = guard _ _ _ (fails_with _) h3 in
    let (password, h5) = guard _ _ _ (fails_with _) h4 in
    let (orders, h6) = guard (c.throttler.orders_per_sec == 0) _ _ (fails_with _) h5 in
    (name, host, ground (arith, ports), username, password, ground (arith, orders))

checked-ok :
    {D : Type 0} (c cfg : Config D) (v : Option Error)
    → checked c v ≡ ok cfg
    → (v ≡ none) × (c ≡ cfg)
checked-ok c cfg none h = (refl, cc)
checked-ok c cfg (some e) h = cc

some_injective {ℓ} : {A : Type ℓ} {a b : A} → some a ≡ some b → a ≡ b
some_injective h = cc

module _ {D : Type 0} where
  abbrev pub IsUsable : Config D → Type 0
  IsUsable c = IsComplete c × OuchFits c.ouch × FixFits c.fix

  apply-Fits :
      (t : TomlTable D) (c : Config D)
      → OuchFits c.ouch × FixFits c.fix
      → OuchFits (apply t c).ouch × FixFits (apply t c).fix
  unfolding apply
  apply-Fits t c h = (apply_ouch-OuchFits t c.ouch h.0, apply_fix-FixFits t c.fix h.1)

  validated-IsUsable :
      (c cfg : Config D) → OuchFits c.ouch × FixFits c.fix → validated c ≡ ok cfg → IsUsable cfg
  unfolding validated
  validated-IsUsable c cfg fits h =
      let (passed, same) = checked-ok c cfg (validate c) h in
      subst IsUsable same (validate-IsComplete c passed, fits.0, fits.1)

  load_local-IsUsable :
      (path : List ℕ) (file : Option (ParsedFile D)) (c cfg : Config D)
      → OuchFits c.ouch × FixFits c.fix
      → load_local path file c ≡ some (ok cfg)
      → IsUsable cfg
  unfolding load_local
  load_local-IsUsable path none c cfg fits h = validated-IsUsable c cfg fits (some_injective h)
  load_local-IsUsable path (some (parsed t)) c cfg fits h =
      validated-IsUsable (apply t c) cfg (apply-Fits t c fits) (some_injective h)
  load_local-IsUsable path (some (parse_error what)) c cfg fits h = cc
  load_local-IsUsable path (some (unreadable what)) c cfg fits h = cc

  -- A configuration that is loaded without an error has a name, a host, a port, a user, a password and a
  -- rate of at least one order, and every port in it is below 65536, whatever the two files say.
  pub load_config-IsUsable :
      (zero : D) (path : List ℕ) (file : ParsedFile D) (local_path : List ℕ)
      (local_file : Option (ParsedFile D)) (cfg : Config D)
      → load_config zero path file local_path local_file ≡ some (ok cfg)
      → IsUsable cfg
  unfolding load_config
  load_config-IsUsable z path (parsed t) local_path local_file cfg h =
      load_local-IsUsable local_path local_file (apply t (default_config z)) cfg
        (apply-Fits t (default_config z) ((tt, tt), (omega arith, omega arith, omega arith))) h
  load_config-IsUsable z path (parse_error what) local_path local_file cfg h = cc
  load_config-IsUsable z path (unreadable what) local_path local_file cfg h = cc
