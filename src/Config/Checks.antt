-- ===== src/Config/Checks.antt =====
-- src/config/config.cpp: the validation, the whole loader and the endpoint of a partition.
pub mod Valid
pub mod Shift
use ouchservice.Prelude.{
  ℕ, suc, ◌-◌, Bool, not, ◌&&◌, List, [], ◌∷◌, ◌++◌, Option, none, some, if◌then◌else◌, ◌==◌, ltb,
  length, get_or, codes, String,
}
use ouchservice.Prelude.Int.{ℤ, pos, negsuc}
use ouchservice.Core.Types.{Error, ErrorCategory, make_error, Result, ok, err}
use ouchservice.Ouch.Client.{is_empty}
use ouchservice.Config.{OuchCfg, Config, default_config}
use ouchservice.Config.Load.{TomlTable, apply}

abbrev pub invalid : String → Option Error
invalid detail = some (make_error ErrorCategory.validation detail)

-- `validate`: the error, if there is one.
unfoldable pub validate : {D : Type 0} → Config D → Option Error
validate c =
    if is_empty c.environment.name
    then invalid "config: [environment].name is empty"
    else if is_empty c.ouch.host_primary
    then invalid "config: [ouch].host_primary is empty"
    else if length c.ouch.ports == 0
    then invalid "config: [ouch].ports is empty"
    else if is_empty c.ouch.username
    then invalid "config: [ouch].username is empty (set in *.local.toml)"
    else if is_empty c.ouch.password
    then invalid "config: [ouch].password is empty (set in *.local.toml)"
    else if c.throttler.orders_per_sec == 0
    then invalid "config: [throttler].orders_per_sec must be > 0"
    else none

-- What the library makes of a file: a table, a syntax error, or another exception, with its text.
pub data ParsedFile (D : Type 0) : Type 0 where
  parsed : TomlTable D → ParsedFile D
  parse_error : List ℕ → ParsedFile D
  unreadable : List ℕ → ParsedFile D

abbrev pub parse_failed : List ℕ → List ℕ → Error
parse_failed path what = record {
  category = ErrorCategory.validation;
  detail = "toml parse failed for ";
  appended = path ++ codes ": " ++ what;
}

abbrev pub read_failed : List ℕ → List ℕ → Error
read_failed path what = record {
  category = ErrorCategory.io;
  detail = "failed to read ";
  appended = path ++ codes ": " ++ what;
}

module _ {D : Type 0} where
  abbrev pub checked : Config D → Option Error → Result (Config D)
  checked c none = ok c
  checked c (some e) = err e

  unfoldable pub validated : Config D → Result (Config D)
  unfolding validate
  validated c = checked c (validate c)

  -- The local file, if it exists. An exception of another kind than a syntax error is not caught there:
  -- the call then has no result.
  unfoldable pub load_local : List ℕ → Option (ParsedFile D) → Config D → Option (Result (Config D))
  unfolding validated apply
  load_local path none c = some (validated c)
  load_local path (some (parsed t)) c = some (validated (apply t c))
  load_local path (some (parse_error what)) c = some (err (parse_failed path what))
  load_local path (some (unreadable what)) c = none

  -- `load_config`, of the paths of the two files and what is in them; `zero` is 0.0.
  unfoldable pub load_config :
      D → List ℕ → ParsedFile D → List ℕ → Option (ParsedFile D) → Option (Result (Config D))
  unfolding load_local apply
  load_config zero path (parsed t) local_path local_file =
      load_local local_path local_file (apply t (default_config zero))
  load_config zero path (parse_error what) local_path local_file =
      some (err (parse_failed path what))
  load_config zero path (unreadable what) local_path local_file = some (err (read_failed path what))

pub record ResolvedEndpoint : Type 0 where
  pub host : List ℕ
  pub port : ℕ

abbrev pub out_of_range : Result ResolvedEndpoint
out_of_range = err (make_error ErrorCategory.validation "partition out of range for [ouch].ports")

unfoldable pub resolve_ouch_endpoint : OuchCfg → ℤ → Bool → Result ResolvedEndpoint
resolve_ouch_endpoint c (negsuc n) secondary = out_of_range
resolve_ouch_endpoint c (pos n) secondary =
    if ltb n 1
    then out_of_range
    else if ltb (length c.ports) n
    then out_of_range
    else ok (record {
      host =
          if secondary && not (is_empty c.host_secondary) then c.host_secondary else c.host_primary;
      port = get_or c.ports (n - 1) 0;
    })
