-- ===== src/Config.antt =====
-- include/bist/config/config.hpp: the typed configuration. `D` is the type of the floating point numbers.
pub mod Load
pub mod Checks
use ouchservice.Prelude.{ℕ, Bool, true, false, List, []}
use ouchservice.Prelude.Int.{ℤ, negsuc}
use ouchservice.Prelude.{codes}

pub record EnvironmentCfg : Type 0 where
  pub name : List ℕ
  pub description : List ℕ
  pub weekend : Bool

pub record UeaCfg : Type 0 where
  pub host : List ℕ
  pub ports : List ℕ

pub record OuchCfg : Type 0 where
  pub host_primary : List ℕ
  pub host_secondary : List ℕ
  pub ports : List ℕ
  pub heartbeat_ms : ℕ
  pub username : List ℕ
  pub password : List ℕ
  pub session : List ℕ
  pub sequence : ℕ
  pub cod_reconnect_deadline_ms : ℕ
  pub uea : UeaCfg

pub record FixPasswordCfg : Type 0 where
  pub current : List ℕ
  pub next : List ℕ

pub record FixChannelCfg : Type 0 where
  pub sender_comp_id : List ℕ
  pub target_comp_id : List ℕ
  pub username : List ℕ

pub record FixCfg : Type 0 where
  pub host_primary : List ℕ
  pub host_colo : List ℕ
  pub oe_port : ℕ
  pub rd_port : ℕ
  pub dc_port : ℕ
  pub sender_comp_id : List ℕ
  pub target_comp_id : List ℕ
  pub username : List ℕ
  pub data_dictionary : List ℕ
  pub transport_dictionary : List ℕ
  pub heartbeat_secs : ℕ
  pub session_storage : List ℕ
  pub password : FixPasswordCfg
  pub oe : FixChannelCfg
  pub rd : FixChannelCfg
  pub dc : FixChannelCfg

pub record ThrottlerCfg : Type 0 where
  pub orders_per_sec : ℕ

pub record RiskCfg (D : Type 0) : Type 0 where
  pub max_qty_per_order : ℕ
  pub max_open_orders : ℕ
  pub allowed_price_min_tl : D
  pub allowed_price_max_tl : D

pub record RunnerCfg : Type 0 where
  pub default_timeout_ms : ℕ
  pub abort_on_failure : Bool

pub record LoggingCfg : Type 0 where
  pub level : List ℕ
  pub directory : List ℕ
  pub audit_dir : List ℕ
  pub rotate_at_size_mb : ℕ
  pub keep_files : ℕ

pub record ReactorCfg : Type 0 where
  pub hot_cpu_pin : ℤ
  pub busy_poll : Bool
  pub tcp_nodelay : Bool
  pub recv_buf_bytes : ℕ
  pub send_buf_bytes : ℕ

pub record Config (D : Type 0) : Type 0 where
  pub environment : EnvironmentCfg
  pub ouch : OuchCfg
  pub fix : FixCfg
  pub throttler : ThrottlerCfg
  pub risk : RiskCfg D
  pub runner : RunnerCfg
  pub logging : LoggingCfg
  pub reactor : ReactorCfg

abbrev pub no_channel : FixChannelCfg
no_channel = record { sender_comp_id = []; target_comp_id = []; username = [] }

-- A default-constructed `Config`; `zero` is 0.0.
abbrev pub default_config : {D : Type 0} → D → Config D
default_config zero = record {
  environment = record { name = []; description = []; weekend = false };
  ouch = record {
    host_primary = [];
    host_secondary = [];
    ports = [];
    heartbeat_ms = 800;
    username = [];
    password = [];
    session = [];
    sequence = 0;
    cod_reconnect_deadline_ms = 30_000;
    uea = record { host = []; ports = [] };
  };
  fix = record {
    host_primary = [];
    host_colo = [];
    oe_port = 0;
    rd_port = 0;
    dc_port = 0;
    sender_comp_id = [];
    target_comp_id = [];
    username = [];
    data_dictionary = [];
    transport_dictionary = [];
    heartbeat_secs = 30;
    session_storage = [];
    password = record { current = []; next = [] };
    oe = no_channel;
    rd = no_channel;
    dc = no_channel;
  };
  throttler = record { orders_per_sec = 100 };
  risk = record {
    max_qty_per_order = 0;
    max_open_orders = 0;
    allowed_price_min_tl = zero;
    allowed_price_max_tl = zero;
  };
  runner = record { default_timeout_ms = 5000; abort_on_failure = true };
  logging = record {
    level = codes "info";
    directory = [];
    audit_dir = [];
    rotate_at_size_mb = 256;
    keep_files = 30;
  };
  reactor = record {
    hot_cpu_pin = negsuc 0;
    busy_poll = false;
    tcp_nodelay = true;
    recv_buf_bytes = 1_048_576;
    send_buf_bytes = 1_048_576;
  };
}
