-- ===== src/Tests/Configs.antt =====
-- The loader and the endpoint of a partition.
use ouchservice.Prelude.{
  ℕ, ◌≡◌, refl, true, false, List, [], ◌∷◌, ◌++◌, Option, none, some, codes, arith, map,
}
use ouchservice.Prelude.Int.{ℤ, pos, negsuc, to_u64}
use ouchservice.Core.Types.{ok}
use ouchservice.Config.{Config, OuchCfg, default_config}
use ouchservice.Config.Load.{
  TomlTable, apply, apply_environment, apply_ouch, apply_uea, apply_fix, apply_throttler,
  load_ports, ports_of, set_port, set_if_present, set_if_nonempty,
}
use ouchservice.Config.Checks.{
  parsed, validate, validated, load_local, load_config, resolve_ouch_endpoint,
}
use ouchservice.Config.Checks.Valid.{IsUsable, load_config-IsUsable}
use ouchservice.Config.Checks.Shift.{element, resolve_ouch_endpoint-shifted}

-- Two files with every table: the first fills each entry, the second gives a password and new ports.
abbrev ports : List (Option ℤ)
ports = some (pos 20005) ∷ some (pos 70000) ∷ none ∷ some (negsuc 0) ∷ some (pos 20006) ∷ []

abbrev base : TomlTable ℕ
base = record {
  is_table = λ path. true;
  text = λ path. some (codes "member");
  flag = λ path. some true;
  int64 = λ path. some (negsuc 0);
  unsigned = λ path. some 100;
  double = λ path. some 7;
  array = λ path. some [];
}

abbrev local : TomlTable ℕ
local = record {
  is_table = λ path. true;
  text = λ path. some [];
  flag = λ path. none;
  int64 = λ path. none;
  unsigned = λ path. none;
  double = λ path. none;
  array = λ path. some ports;
}

abbrev loaded : Config ℕ
loaded = apply local (apply base (default_config 0))

loaded-ok :
    load_config 0 (codes "bist.toml") (parsed base) (codes "bist.local.toml") (some (parsed local))
    ≡ some (ok loaded)
unfolding load_config load_local validated validate apply apply_environment apply_ouch apply_uea
    apply_fix apply_throttler load_ports ports_of set_if_present set_if_nonempty
loaded-ok = refl

load_config-IsUsable_example : IsUsable loaded
load_config-IsUsable_example =
    load_config-IsUsable 0 (codes "bist.toml") (parsed base) (codes "bist.local.toml")
      (some (parsed local)) loaded loaded-ok

-- The kept ports of the local file.
loaded-ports : loaded.ouch.ports ≡ 20005 ∷ 20006 ∷ []
unfolding apply apply_ouch load_ports ports_of
loaded-ports = refl

-- A port of the FIX part is cut to 16 bits.
loaded-oe_port : loaded.fix.oe_port ≡ 65535
unfolding apply apply_fix set_port to_u64
loaded-oe_port = refl

abbrev no_ouch : OuchCfg
no_ouch = (default_config {D = ℕ} 0).ouch

resolve_ouch_endpoint-shifted_example :
    resolve_ouch_endpoint
      (record no_ouch {
        ports =
            load_ports (some (map element (20005 ∷ []) ++ (element 70000 ∷ element 20006 ∷ []))) [];
      })
      (pos 2)
      false
    ≡ ok (record { host = []; port = 20006 })
resolve_ouch_endpoint-shifted_example =
    resolve_ouch_endpoint-shifted no_ouch (20005 ∷ []) 70000 20006 [] false (omega arith, tt)
      (omega arith) (omega arith)
