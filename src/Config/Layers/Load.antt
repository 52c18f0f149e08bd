-- ===== src/Config/Layers/Load.antt =====
-- load_configs of main.rs: which layers are read, and their order.
use nut_webgui.Prelude.{if◌then◌else◌, Option, none, some}
use nut_webgui.Upsmc.Text.{Bytes}
use nut_webgui.Auth.Outcome.{Outcome, done, failed}
use nut_webgui.Config.Settings.{
  ServerConfig, ServerTomlArgs, ServerEnvArgs, ServerCliArgs, HttpServerConfigSection,
  UpsdConfigSection, default_config,
}
use nut_webgui.Config.Layers.{override_opt, toml_layer, env_layer, cli_layer, fallback_layer}

pub data ConfigError : Type 0 where
  env_error toml_error : ConfigError

abbrev pub no_http : HttpServerConfigSection
no_http = record { listen = none; port = none; base_path = none; worker_count = none }

abbrev pub no_upsd : UpsdConfigSection
no_upsd = record {
  address = none;
  password = none;
  poll_freq = none;
  poll_interval = none;
  port = none;
  username = none;
  max_connection = none;
  tls_mode = none;
}

-- `ServerTomlArgs::default` and `ServerEnvArgs::default`.
abbrev pub default_toml : ServerTomlArgs
default_toml = record {
  default_theme = none;
  log_level = none;
  http_server = none;
  upsd = none;
  users_file = none;
}

abbrev pub default_env : ServerEnvArgs
default_env = record {
  config_file = none;
  default_theme = none;
  log_level = none;
  server_key = none;
  http_server = no_http;
  auth_users_file = none;
  upsd_name = none;
  upsd = no_upsd;
}

unfoldable pub apply_layers : Bytes → ServerTomlArgs → ServerEnvArgs → ServerCliArgs → ServerConfig
apply_layers random_key toml env cli =
    fallback_layer (cli_layer cli (env_layer env (toml_layer toml (default_config random_key))))

-- What `ServerTomlArgs::load` returns for a path and what `ServerEnvArgs::load` returns are given;
-- `none` is their error.
unfoldable pub with_env :
    Bytes
    → ServerCliArgs
    → (Bytes → Option ServerTomlArgs)
    → ServerEnvArgs
    → Outcome ConfigError ServerConfig
with_env random_key cli load_toml env = elim (override_opt env.config_file cli.config_file) [
  | none ↦ done (apply_layers random_key default_toml env cli)
  | some path ↦ elim (load_toml path) [
    | none ↦ failed toml_error
    | some toml ↦ done (apply_layers random_key toml env cli)
  ]
]

unfoldable pub load_configs :
    Bytes
    → ServerCliArgs
    → Option ServerEnvArgs
    → (Bytes → Option ServerTomlArgs)
    → Outcome ConfigError ServerConfig
load_configs random_key cli env load_toml = elim (if cli.allow_env then env else some default_env) [
  | none ↦ failed env_error
  | some args ↦ with_env random_key cli load_toml args
]
