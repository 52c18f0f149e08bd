-- ===== src/Config/Layers/Tests.antt =====
-- Runs of the layers on a file with one section and an environment with one variable.
use nut_webgui.Prelude.{◌≡◌, refl, true, none, some, [], ◌∷◌}
use nut_webgui.Upsmc.Text.{Bytes, codes, text_eq}
use nut_webgui.Upsmc.Dict.{lookup}
use nut_webgui.Http.Api.{to_ascii_lowercase}
use nut_webgui.Config.Settings.{
  ServerTomlArgs, ServerEnvArgs, ServerCliArgs, UpsdConfig, UpsdConfigSection, tls_mode_from_str,
  strict,
}
use nut_webgui.Config.Layers.Load.{apply_layers, no_http, no_upsd, default_toml}
use nut_webgui.Config.Layers.Upsd.{apply_layers-upsd, configured}
use nut_webgui.Config.Layers.Connection.{connection}

tls_strict : tls_mode_from_str (codes "Strict") ≡ some strict
unfolding tls_mode_from_str to_ascii_lowercase text_eq
tls_strict = refl

abbrev home : UpsdConfigSection
home = record no_upsd { address = some (codes "10.0.0.2") }

abbrev toml : ServerTomlArgs
toml = record {
  default_theme = some (codes "dark");
  log_level = none;
  http_server = some (record no_http { port = some 80 });
  upsd = some ((codes "home", home) ∷ []);
  users_file = none;
}

abbrev env : ServerEnvArgs
env = record {
  config_file = none;
  default_theme = some (codes "light");
  log_level = none;
  server_key = none;
  http_server = no_http;
  auth_users_file = none;
  upsd_name = none;
  upsd = record no_upsd { port = some 3_494 };
}

abbrev cli : ServerCliArgs
cli = record {
  http_server = no_http;
  log_level = none;
  default_theme = none;
  config_file = none;
  allow_env = true;
  server_key = none;
  with_auth = none;
}

-- The variable with the port is lost, as neither a section nor an address makes an entry for it.
apply_layers-upsd_example :
    ((other : Bytes) (cfg : UpsdConfig)
      → configured default_toml env tt other ≡ some cfg
      → lookup (codes "default") (apply_layers [] default_toml env cli).upsd
        ≡ configured default_toml env tt (codes "default"))
    × (((other : Bytes) → configured default_toml env tt other ≡ none)
        → (apply_layers [] default_toml env cli).upsd
          ≡ (codes "default", connection no_upsd no_upsd) ∷ [])
apply_layers-upsd_example = apply_layers-upsd default_toml env tt [] cli (codes "default")
