-- ===== src/Config/Load.antt =====
-- src/config/config.cpp: the loader. The TOML library and the file system are parameters: a table answers
-- what its node at a dotted path is, and the files come parsed.
use ouchservice.Prelude.{
  ℕ, ◌%◌, ◌^◌, Bool, List, [], ◌∷◌, Option, none, some, if◌then◌else◌, leb, String,
}
use ouchservice.Prelude.Int.{ℤ, pos, negsuc, to_u64, to_i32}
use ouchservice.Ouch.Client.{is_empty}
use ouchservice.Config.{
  EnvironmentCfg, UeaCfg, OuchCfg, FixPasswordCfg, FixChannelCfg, FixCfg, ThrottlerCfg, RiskCfg,
  RunnerCfg, LoggingCfg, ReactorCfg, Config,
}

-- `toml::table`: whether there is a table at a path, and the value there by its type. The elements of
-- an array are given by their int64 value, if they have one.
pub record TomlTable (D : Type 0) : Type 0 where
  pub is_table : String → Bool
  pub text : String → Option (List ℕ)
  pub flag : String → Option Bool
  pub int64 : String → Option ℤ
  pub unsigned : String → Option ℕ
  pub double : String → Option D
  pub array : String → Option (List (Option ℤ))

unfoldable pub set_if_present {ℓ} : {A : Type ℓ} → Option A → A → A
set_if_present none dst = dst
set_if_present (some v) dst = v

unfoldable pub set_if_nonempty : Option (List ℕ) → List ℕ → List ℕ
set_if_nonempty none dst = dst
set_if_nonempty (some v) dst = if is_empty v then dst else v

-- The values of an array that are in range, in their order.
unfoldable pub ports_of : List (Option ℤ) → List ℕ
ports_of [] = []
ports_of (none ∷ vs) = ports_of vs
ports_of (some (negsuc n) ∷ vs) = ports_of vs
ports_of (some (pos n) ∷ vs) = let rest = ports_of vs in if leb n 65535 then n ∷ rest else rest

unfoldable pub load_ports : Option (List (Option ℤ)) → List ℕ → List ℕ
unfolding ports_of
load_ports none out = out
load_ports (some vs) out = ports_of vs

-- `static_cast<std::uint16_t>`
unfoldable pub set_port : Option ℤ → ℕ → ℕ
set_port none dst = dst
set_port (some v) dst = to_u64 v % 2 ^ 16

unfoldable pub set_int : Option ℤ → ℤ → ℤ
set_int none dst = dst
set_int (some v) dst = to_i32 (to_u64 v % 2 ^ 32)

module _ {D : Type 0} where
  unfoldable pub apply_environment : TomlTable D → EnvironmentCfg → EnvironmentCfg
  unfolding set_if_present set_if_nonempty
  apply_environment t c =
      if t.is_table "environment"
      then record {
        name = set_if_nonempty (t.text "environment.name") c.name;
        description = set_if_nonempty (t.text "environment.description") c.description;
        weekend = set_if_present (t.flag "environment.weekend") c.weekend;
      }
      else c

  unfoldable pub apply_uea : TomlTable D → UeaCfg → UeaCfg
  unfolding load_ports set_if_nonempty
  apply_uea t c =
      if t.is_table "ouch.uea"
      then record {
        host = set_if_nonempty (t.text "ouch.uea.host") c.host;
        ports = load_ports (t.array "ouch.uea.ports") c.ports;
      }
      else c

  unfoldable pub apply_ouch : TomlTable D → OuchCfg → OuchCfg
  unfolding load_ports set_if_present set_if_nonempty apply_uea
  apply_ouch t c =
      if t.is_table "ouch"
      then record {
        host_primary = set_if_nonempty (t.text "ouch.host_primary") c.host_primary;
        host_secondary = set_if_nonempty (t.text "ouch.host_secondary") c.host_secondary;
        ports = load_ports (t.array "ouch.ports") c.ports;
        heartbeat_ms = set_if_present (t.unsigned "ouch.heartbeat_ms") c.heartbeat_ms;
        username = set_if_nonempty (t.text "ouch.username") c.username;
        password = set_if_nonempty (t.text "ouch.password") c.password;
        session = set_if_nonempty (t.text "ouch.session") c.session;
        sequence = set_if_present (t.unsigned "ouch.sequence") c.sequence;
        cod_reconnect_deadline_ms =
            set_if_present (t.unsigned "ouch.cod_reconnect_deadline_ms")
              c.cod_reconnect_deadline_ms;
        uea = apply_uea t c.uea;
      }
      else c

  abbrev pub apply_password : TomlTable D → FixPasswordCfg → FixPasswordCfg
  apply_password t c =
      if t.is_table "fix.password"
      then record {
        current = set_if_nonempty (t.text "fix.password.current") c.current;
        next = set_if_nonempty (t.text "fix.password.next") c.next;
      }
      else c

  -- `load_channel`, with the paths of the table and of its three entries.
  abbrev pub load_channel :
      TomlTable D → String → String → String → String → FixChannelCfg → FixChannelCfg
  load_channel t table sender target user c =
      if t.is_table table
      then record {
        sender_comp_id = set_if_nonempty (t.text sender) c.sender_comp_id;
        target_comp_id = set_if_nonempty (t.text target) c.target_comp_id;
        username = set_if_nonempty (t.text user) c.username;
      }
      else c

  unfoldable pub apply_fix : TomlTable D → FixCfg → FixCfg
  unfolding set_port set_if_present set_if_nonempty
  apply_fix t c =
      if t.is_table "fix"
      then record {
        host_primary = set_if_nonempty (t.text "fix.host_primary") c.host_primary;
        host_colo = set_if_nonempty (t.text "fix.host_colo") c.host_colo;
        oe_port = set_port (t.int64 "fix.oe_port") c.oe_port;
        rd_port = set_port (t.int64 "fix.rd_port") c.rd_port;
        dc_port = set_port (t.int64 "fix.dc_port") c.dc_port;
        sender_comp_id = set_if_nonempty (t.text "fix.sender_comp_id") c.sender_comp_id;
        target_comp_id = set_if_nonempty (t.text "fix.target_comp_id") c.target_comp_id;
        username = set_if_nonempty (t.text "fix.username") c.username;
        data_dictionary = set_if_nonempty (t.text "fix.data_dictionary") c.data_dictionary;
        transport_dictionary =
            set_if_nonempty (t.text "fix.transport_dictionary") c.transport_dictionary;
        heartbeat_secs = set_if_present (t.unsigned "fix.heartbeat_secs") c.heartbeat_secs;
        session_storage = set_if_nonempty (t.text "fix.session_storage") c.session_storage;
        password = apply_password t c.password;
        oe =
            load_channel t "fix.oe" "fix.oe.sender_comp_id" "fix.oe.target_comp_id"
              "fix.oe.username" c.oe;
        rd =
            load_channel t "fix.rd" "fix.rd.sender_comp_id" "fix.rd.target_comp_id"
              "fix.rd.username" c.rd;
        dc =
            load_channel t "fix.dc" "fix.dc.sender_comp_id" "fix.dc.target_comp_id"
              "fix.dc.username" c.dc;
      }
      else c

  unfoldable pub apply_throttler : TomlTable D → ThrottlerCfg → ThrottlerCfg
  unfolding set_if_present
  apply_throttler t c =
      if t.is_table "throttler"
      then record {
        orders_per_sec = set_if_present (t.unsigned "throttler.orders_per_sec") c.orders_per_sec;
      }
      else c

  unfoldable pub apply_risk : TomlTable D → RiskCfg D → RiskCfg D
  unfolding set_if_present
  apply_risk t c =
      if t.is_table "risk"
      then record {
        max_qty_per_order =
            set_if_present (t.unsigned "risk.max_qty_per_order") c.max_qty_per_order;
        max_open_orders = set_if_present (t.unsigned "risk.max_open_orders") c.max_open_orders;
        allowed_price_min_tl =
            set_if_present (t.double "risk.allowed_price_min_tl") c.allowed_price_min_tl;
        allowed_price_max_tl =
            set_if_present (t.double "risk.allowed_price_max_tl") c.allowed_price_max_tl;
      }
      else c

  unfoldable pub apply_runner : TomlTable D → RunnerCfg → RunnerCfg
  unfolding set_if_present
  apply_runner t c =
      if t.is_table "runner"
      then record {
        default_timeout_ms =
            set_if_present (t.unsigned "runner.default_timeout_ms") c.default_timeout_ms;
        abort_on_failure = set_if_present (t.flag "runner.abort_on_failure") c.abort_on_failure;
      }
      else c

  unfoldable pub apply_logging : TomlTable D → LoggingCfg → LoggingCfg
  unfolding set_if_present set_if_nonempty
  apply_logging t c =
      if t.is_table "logging"
      then record {
        level = set_if_nonempty (t.text "logging.level") c.level;
        directory = set_if_nonempty (t.text "logging.directory") c.directory;
        audit_dir = set_if_nonempty (t.text "logging.audit_dir") c.audit_dir;
        rotate_at_size_mb =
            set_if_present (t.unsigned "logging.rotate_at_size_mb") c.rotate_at_size_mb;
        keep_files = set_if_present (t.unsigned "logging.keep_files") c.keep_files;
      }
      else c

  unfoldable pub apply_reactor : TomlTable D → ReactorCfg → ReactorCfg
  unfolding set_if_present set_int
  apply_reactor t c =
      if t.is_table "reactor"
      then record {
        hot_cpu_pin = set_int (t.int64 "reactor.hot_cpu_pin") c.hot_cpu_pin;
        busy_poll = set_if_present (t.flag "reactor.busy_poll") c.busy_poll;
        tcp_nodelay = set_if_present (t.flag "reactor.tcp_nodelay") c.tcp_nodelay;
        recv_buf_bytes = set_if_present (t.unsigned "reactor.recv_buf_bytes") c.recv_buf_bytes;
        send_buf_bytes = set_if_present (t.unsigned "reactor.send_buf_bytes") c.send_buf_bytes;
      }
      else c

  unfoldable pub apply : TomlTable D → Config D → Config D
  unfolding apply_environment apply_ouch apply_fix apply_throttler apply_risk apply_runner
      apply_logging apply_reactor
  apply t c = record {
    environment = apply_environment t c.environment;
    ouch = apply_ouch t c.ouch;
    fix = apply_fix t c.fix;
    throttler = apply_throttler t c.throttler;
    risk = apply_risk t c.risk;
    runner = apply_runner t c.runner;
    logging = apply_logging t c.logging;
    reactor = apply_reactor t c.reactor;
  }
