-- ===== src/Config/Layers/Laws.antt =====
-- config.rs: which layer decides a setting of the server.
use nut_webgui.Prelude.{Option, none, some, and_then, List, [], ◌∷◌}
use nut_webgui.Upsmc.Text.{codes}
use nut_webgui.Config.Settings.{HttpServerConfigSection, HttpServerConfig}

-- The first value that a list of layers gives.
unfoldable pub first_of {ℓ} : {A : Type ℓ} → List (Option A) → A → A
first_of [] default = default
first_of (some value ∷ rest) default = value
first_of (none ∷ rest) default = first_of rest default

unfoldable pub first_opt {ℓ} : {A : Type ℓ} → List (Option A) → Option A
first_opt [] = none
first_opt (some value ∷ rest) = some value
first_opt (none ∷ rest) = first_opt rest

-- The settings of the HTTP server that the file has.
abbrev in_file :
    {A : Type 0} → (HttpServerConfigSection → Option A) → Option HttpServerConfigSection → Option A
in_file field section = and_then section field

unfoldable pub merged_http :
    Option HttpServerConfigSection
    → HttpServerConfigSection
    → HttpServerConfigSection
    → HttpServerConfig
merged_http toml env cli = record {
  listen = first_of (cli.listen ∷ env.listen ∷ in_file (λ s. s.listen) toml ∷ []) (codes "0.0.0.0");
  port = first_of (cli.port ∷ env.port ∷ in_file (λ s. s.port) toml ∷ []) 9_000;
  base_path = first_of (cli.base_path ∷ env.base_path ∷ in_file (λ s. s.base_path) toml ∷ []) [];
  worker_count =
      first_opt (cli.worker_count ∷ env.worker_count ∷ in_file (λ s. s.worker_count) toml ∷ []);
}
