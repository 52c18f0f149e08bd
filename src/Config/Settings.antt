-- ===== src/Config/Settings.antt =====
-- config.rs, config/tls_mode.rs and the arguments of config/cfg_toml.rs, cfg_env.rs and cfg_arg.rs:
-- what is configured, and its defaults. A path, an address and a level are texts.
use nut_webgui.Prelude.{ℕ, Bool, if◌then◌else◌, Option, none, some, [], map}
use nut_webgui.Upsmc.Text.{Bytes, codes, text_eq}
use nut_webgui.Upsmc.Dict.{Dict}
use nut_webgui.Http.Api.{to_ascii_lowercase}

pub data TlsMode : Type 0 where
  disable strict skip_verify : TlsMode

-- `TlsMode::from_str`; `none` is `InvalidTlsModeError`.
unfoldable pub tls_mode_from_str : Bytes → Option TlsMode
tls_mode_from_str s =
    let lower = map to_ascii_lowercase s in
    if text_eq lower (codes "disable")
    then some disable
    else if text_eq lower (codes "skip")
    then some skip_verify
    else if text_eq lower (codes "strict")
    then some strict
    else none

unfoldable pub tls_mode_as_str : TlsMode → Bytes
tls_mode_as_str disable = codes "disable"
tls_mode_as_str strict = codes "strict"
tls_mode_as_str skip_verify = codes "skip"

pub record HttpServerConfig : Type 0 where
  pub listen : Bytes
  pub port : ℕ
  pub base_path : Bytes
  pub worker_count : Option ℕ

pub record UpsdConfig : Type 0 where
  pub poll_freq : ℕ
  pub poll_interval : ℕ
  pub addr : Bytes
  pub port : ℕ
  pub user : Option Bytes
  pub pass : Option Bytes
  pub max_conn : ℕ
  pub tls_mode : TlsMode

pub record ServerConfig : Type 0 where
  pub config_file : Option Bytes
  pub default_theme : Option Bytes
  pub log_level : Bytes
  pub server_key : Bytes
  pub http_server : HttpServerConfig
  pub upsd : Dict UpsdConfig
  pub users_file : Option Bytes

abbrev pub default_upsd_key : Bytes
default_upsd_key = codes "default"

unfoldable pub default_http_server : HttpServerConfig
default_http_server = record {
  listen = codes "0.0.0.0";
  port = 9_000;
  base_path = [];
  worker_count = none;
}

unfoldable pub default_upsd : UpsdConfig
default_upsd = record {
  poll_freq = 30;
  poll_interval = 2;
  addr = codes "localhost";
  port = 3_493;
  user = none;
  pass = none;
  max_conn = 4;
  tls_mode = disable;
}

-- `ServerConfig::default`, with what `rand_server_key_256bit` returns.
unfoldable pub default_config : Bytes → ServerConfig
default_config random_key = record {
  config_file = none;
  default_theme = none;
  log_level = codes "info";
  server_key = random_key;
  http_server = default_http_server;
  upsd = [];
  users_file = none;
}

-- What a layer says of one upsd.
pub record UpsdConfigSection : Type 0 where
  pub address : Option Bytes
  pub password : Option Bytes
  pub poll_freq : Option ℕ
  pub poll_interval : Option ℕ
  pub port : Option ℕ
  pub username : Option Bytes
  pub max_connection : Option ℕ
  pub tls_mode : Option TlsMode

pub record HttpServerConfigSection : Type 0 where
  pub listen : Option Bytes
  pub port : Option ℕ
  pub base_path : Option Bytes
  pub worker_count : Option ℕ

pub record ServerTomlArgs : Type 0 where
  pub default_theme : Option Bytes
  pub log_level : Option Bytes
  pub http_server : Option HttpServerConfigSection
  pub upsd : Option (Dict UpsdConfigSection)
  pub users_file : Option Bytes

-- The variables of an upsd are one record, `upsd`, here.
pub record ServerEnvArgs : Type 0 where
  pub config_file : Option Bytes
  pub default_theme : Option Bytes
  pub log_level : Option Bytes
  pub server_key : Option Bytes
  pub http_server : HttpServerConfigSection
  pub auth_users_file : Option Bytes
  pub upsd_name : Option Bytes
  pub upsd : UpsdConfigSection

pub record ServerCliArgs : Type 0 where
  pub http_server : HttpServerConfigSection
  pub log_level : Option Bytes
  pub default_theme : Option Bytes
  pub config_file : Option Bytes
  pub allow_env : Bool
  pub server_key : Option Bytes
  pub with_auth : Option Bytes
