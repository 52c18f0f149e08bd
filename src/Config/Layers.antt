-- ===== src/Config/Layers.antt =====
-- config.rs, config/cfg_toml.rs, cfg_env.rs, cfg_arg.rs, cfg_fallback.rs, tls_mode.rs and load_configs
-- of main.rs: the configuration from its layers. What the three parsers return is given; a path, an
-- address and a level are texts.
pub mod Load
pub mod Connection
pub mod Upsd
pub mod Laws
mod Tests
use nut_webgui.Prelude.{
  ℕ, Bool, true, false, ◌&&◌, not, if◌then◌else◌, Option, none, some, List, [], ◌∷◌, map,
}
use nut_webgui.Upsmc.Text.{Bytes, codes, text_eq}
use nut_webgui.Upsmc.Dict.{Dict, lookup, insert, update, is_some}
use nut_webgui.Http.Api.{to_ascii_lowercase}
use nut_webgui.Config.Settings.{
  TlsMode, tls_mode_from_str, tls_mode_as_str, HttpServerConfig, UpsdConfig, ServerConfig,
  default_upsd_key, default_http_server, default_upsd, default_config, UpsdConfigSection,
  HttpServerConfigSection, ServerTomlArgs, ServerEnvArgs, ServerCliArgs, disable, strict,
  skip_verify,
}

-- The two rules of `override_opt_field!`.
unfoldable pub override_opt {ℓ} : {A : Type ℓ} → Option A → Option A → Option A
override_opt field none = field
override_opt field (some value) = some value

unfoldable pub override_inner {ℓ} : {A : Type ℓ} → A → Option A → A
override_inner field none = field
override_inner field (some value) = value

unfoldable pub override_upsd : UpsdConfig → UpsdConfigSection → UpsdConfig
override_upsd cfg val = record {
  poll_freq = override_inner cfg.poll_freq val.poll_freq;
  poll_interval = override_inner cfg.poll_interval val.poll_interval;
  addr = override_inner cfg.addr val.address;
  port = override_inner cfg.port val.port;
  user = override_opt cfg.user val.username;
  pass = override_opt cfg.pass val.password;
  max_conn = override_inner cfg.max_conn val.max_connection;
  tls_mode = override_inner cfg.tls_mode val.tls_mode;
}

unfoldable pub override_http : HttpServerConfig → HttpServerConfigSection → HttpServerConfig
override_http cfg val = record {
  listen = override_inner cfg.listen val.listen;
  port = override_inner cfg.port val.port;
  base_path = override_inner cfg.base_path val.base_path;
  worker_count = override_opt cfg.worker_count val.worker_count;
}

-- The loop of `ServerTomlArgs::apply_layer` over the sections.
unfoldable pub insert_sections : Dict UpsdConfigSection → Dict UpsdConfig → Dict UpsdConfig
insert_sections [] upsd = upsd
insert_sections (entry ∷ rest) upsd =
    insert_sections rest (insert entry.0 (override_upsd default_upsd entry.1) upsd)

unfoldable pub toml_layer : ServerTomlArgs → ServerConfig → ServerConfig
toml_layer self config = record config {
  default_theme = override_opt config.default_theme self.default_theme;
  log_level = override_inner config.log_level self.log_level;
  upsd = elim self.upsd [
    | none ↦ config.upsd
    | some sections ↦ insert_sections sections config.upsd
  ];
  http_server = elim self.http_server [
    | none ↦ config.http_server
    | some val ↦ override_http config.http_server val
  ];
  users_file = override_opt config.users_file self.users_file;
}

unfoldable pub upsd_key : ServerEnvArgs → Bytes
upsd_key self = override_inner default_upsd_key self.upsd_name

unfoldable pub env_upsd : ServerEnvArgs → Dict UpsdConfig → Dict UpsdConfig
env_upsd self upsd =
    let key = upsd_key self in
    let there =
      if is_some self.upsd.address && not (is_some (lookup key upsd))
      then insert key default_upsd upsd
      else upsd in
    update key (λ cfg. override_upsd cfg self.upsd) there

unfoldable pub env_layer : ServerEnvArgs → ServerConfig → ServerConfig
env_layer self config = record {
  config_file = override_opt config.config_file self.config_file;
  default_theme = override_opt config.default_theme self.default_theme;
  log_level = override_inner config.log_level self.log_level;
  server_key = override_inner config.server_key self.server_key;
  http_server = override_http config.http_server self.http_server;
  upsd = env_upsd self config.upsd;
  users_file = override_opt config.users_file self.auth_users_file;
}

unfoldable pub cli_layer : ServerCliArgs → ServerConfig → ServerConfig
cli_layer self config = record config {
  config_file = override_opt config.config_file self.config_file;
  default_theme = override_opt config.default_theme self.default_theme;
  log_level = override_inner config.log_level self.log_level;
  server_key = override_inner config.server_key self.server_key;
  http_server = override_http config.http_server self.http_server;
  users_file = override_opt config.users_file self.with_auth;
}

-- `FallbackArgs::apply_layer`.
unfoldable pub fallback_upsd : Dict UpsdConfig → Dict UpsdConfig
fallback_upsd [] = insert default_upsd_key default_upsd []
fallback_upsd (entry ∷ rest) = entry ∷ rest

unfoldable pub fallback_layer : ServerConfig → ServerConfig
fallback_layer config = record config { upsd = fallback_upsd config.upsd }
