-- ===== src/Config/Layers/Upsd.antt =====
-- config.rs: the connections to upsd that the layers give.
use mathlib.Core.Option
use nut_webgui.Prelude.{
  ◌≡◌, refl, ap, subst, ◌∙◌, true, false, ◌&&◌, not, if◌then◌else◌, Option, none, some, [], ◌∷◌,
  Bool-cases, Option-cases, inl, inr,
}
use nut_webgui.Upsmc.Text.{Bytes, codes, text_eq, text_eq_iff}
use nut_webgui.Upsmc.Dict.{
  Dict, lookup, insert, is_some, lookup-insert, lookup-update, text_eq_self,
}
use nut_webgui.Config.Settings.{
  UpsdConfig, UpsdConfigSection, ServerTomlArgs, ServerEnvArgs, ServerCliArgs, default_upsd,
  default_config,
}
use nut_webgui.Config.Layers.{
  override_upsd, override_inner, override_opt, insert_sections, upsd_key, env_upsd, fallback_upsd,
  toml_layer, env_layer, cli_layer, fallback_layer,
}
use nut_webgui.Config.Layers.Connection.{
  connection, override_upsd-connection, is_named, connection_of,
}
use nut_webgui.Config.Layers.Load.{apply_layers, no_upsd}
use nut_webgui.Config.Layers.Laws.{first_of, first_opt}

-- No key stands twice, as in a HashMap.
abbrev pub IsMap : {V : Type 0} → Dict V → Type 0
IsMap [] = Unit
IsMap (entry ∷ rest) = (lookup entry.0 rest ≡ none) × IsMap rest

-- What the file and the environment say of a name, if they say anything at all.
unfoldable with_variables : ServerEnvArgs → Bytes → Option UpsdConfig → Option UpsdConfig
with_variables env name base =
    if text_eq (upsd_key env) name
    then elim base [
      | some cfg ↦ some (override_upsd cfg env.upsd)
      | none ↦ if is_some env.upsd.address then some (override_upsd default_upsd env.upsd) else none
    ]
    else base

module _ (env : ServerEnvArgs) (name : Bytes) (upsd : Dict UpsdConfig) where
  -- The map with the entry that an address creates.
  abbrev grown : Dict UpsdConfig
  grown =
      if is_some env.upsd.address && not (is_some (lookup (upsd_key env) upsd))
      then insert (upsd_key env) default_upsd upsd
      else upsd

  lookup-grown_other : text_eq (upsd_key env) name ≡ false → lookup name grown ≡ lookup name upsd
  lookup-grown_other k =
      elim (Bool-cases (is_some env.upsd.address && not (is_some (lookup (upsd_key env) upsd)))) [
        | inl g ↦ rw g (lookup-insert name (upsd_key env) default_upsd upsd ∙ rw k refl)
        | inr g ↦ rw g refl
      ]

  lookup-grown :
      text_eq (upsd_key env) name ≡ true
      → lookup name grown ≡ elim (lookup name upsd) [
        | some cfg ↦ some cfg
        | none ↦ if is_some env.upsd.address then some default_upsd else none
      ]
  lookup-grown k =
      let same = ap (λ x. lookup x upsd) ((text_eq_iff (upsd_key env) name).0 k) in
      elim (Bool-cases (is_some env.upsd.address)) [
        | inr a ↦ elim (Option-cases (lookup name upsd)) [
          | inl l ↦ rw (l, a) l
          | inr (cfg, l) ↦ rw (l, a) l
        ]
        | inl a ↦ elim (Option-cases (lookup name upsd)) [
          | inl l ↦
              rw (l, a, same ∙ l) (lookup-insert name (upsd_key env) default_upsd upsd ∙ rw k refl)
          | inr (cfg, l) ↦ rw (l, a, same ∙ l) l
        ]
      ]

  lookup-env_upsd : lookup name (env_upsd env upsd) ≡ with_variables env name (lookup name upsd)
  unfolding env_upsd with_variables
  lookup-env_upsd =
      let updated = lookup-update name (upsd_key env) (λ cfg. override_upsd cfg env.upsd) grown in
      elim (Bool-cases (text_eq (upsd_key env) name)) [
        | inr k ↦ updated ∙ rw (with_variables, k) (lookup-grown_other k)
        | inl k ↦
            let found : lookup name (env_upsd env upsd)
                ≡ Option.map (λ cfg. override_upsd cfg env.upsd)
                    (elim (lookup name upsd) [
                      | some cfg ↦ some cfg
                      | none ↦ if is_some env.upsd.address then some default_upsd else none
                    ]) =
              updated
              ∙ (rw k (ap (Option.map (λ cfg. override_upsd cfg env.upsd)) (lookup-grown k))) in
            elim (Option-cases (lookup name upsd)) [
              | inr (cfg, l) ↦ rw (with_variables, k, l) (rw l at found)
              | inl l ↦ elim (Bool-cases (is_some env.upsd.address)) [
                | inl a ↦ rw (with_variables, k, l, a) (rw (l, a) at found)
                | inr a ↦ rw (with_variables, k, l, a) (rw (l, a) at found)
              ]
            ]
      ]

-- What a section says of its name, and what was there else.
unfoldable section_or : Option UpsdConfigSection → Option UpsdConfig → Option UpsdConfig
section_or none base = base
section_or (some val) base = some (override_upsd default_upsd val)

lookup-insert_sections :
    (name : Bytes) (sections : Dict UpsdConfigSection) (upsd : Dict UpsdConfig)
    → IsMap sections
    → lookup name (insert_sections sections upsd)
      ≡ section_or (lookup name sections) (lookup name upsd)
unfolding insert_sections lookup section_or
lookup-insert_sections name [] upsd h = refl
lookup-insert_sections name (entry ∷ rest) upsd (n, h) =
    let cfg = override_upsd default_upsd entry.1 in
    let below = lookup-insert_sections name rest (insert entry.0 cfg upsd) h in
    elim (Bool-cases (text_eq entry.0 name)) [
      | inl t ↦
          let gone : lookup name rest ≡ none =
            subst (λ x. lookup x rest ≡ none) ((text_eq_iff entry.0 name).0 t) n in
          let now : lookup name (insert entry.0 cfg upsd) ≡ some cfg =
            lookup-insert name entry.0 cfg upsd ∙ rw t refl in
          rw t (below ∙ ap (λ o. section_or o (lookup name (insert entry.0 cfg upsd))) gone ∙ now)
      | inr t ↦
          let before : lookup name (insert entry.0 cfg upsd) ≡ lookup name upsd =
            lookup-insert name entry.0 cfg upsd ∙ rw t refl in
          rw t (below ∙ ap (section_or (lookup name rest)) before)
    ]

fallback_found :
    (name : Bytes) (cfg : UpsdConfig) (upsd : Dict UpsdConfig)
    → lookup name upsd ≡ some cfg
    → fallback_upsd upsd ≡ upsd
unfolding fallback_upsd lookup
fallback_found name cfg [] e = absurd (cc e)
fallback_found name cfg (entry ∷ rest) e = refl

none_found : (upsd : Dict UpsdConfig) → ((name : Bytes) → lookup name upsd ≡ none) → upsd ≡ []
unfolding lookup
none_found [] h = refl
none_found (entry ∷ rest) h =
    let e : lookup entry.0 (entry ∷ rest) ≡ none = h entry.0 in
    absurd (cc (rw (text_eq_self entry.0) at e))

abbrev pub sections_of : Option (Dict UpsdConfigSection) → Dict UpsdConfigSection
sections_of none = []
sections_of (some sections) = sections

merged_lem :
    (o : Option (Dict UpsdConfigSection))
    → elim o [ none ↦ [] | some sections ↦ insert_sections sections [] ]
      ≡ insert_sections (sections_of o) []
unfolding insert_sections
merged_lem none = refl
merged_lem (some sections) = refl

is_named_lem :
    (env : ServerEnvArgs) (name : Bytes) → is_named env.upsd_name name ≡ text_eq (upsd_key env) name
unfolding is_named upsd_key override_inner
is_named_lem env name = elim (Option-cases env.upsd_name) [
  | inl e ↦ rw (upsd_key, e, is_named) refl
  | inr (n, e) ↦ rw (upsd_key, e, is_named) refl
]

with_variables-connection_of :
    (env : ServerEnvArgs) (name : Bytes) (o : Option UpsdConfigSection)
    → with_variables env name (section_or o none)
      ≡ connection_of env.upsd (is_named env.upsd_name name) o
unfolding with_variables section_or connection_of default_upsd override_upsd override_inner
    override_opt
with_variables-connection_of env name (some section) =
    elim (Bool-cases (text_eq (upsd_key env) name)) [
      | inl k ↦ rw (is_named_lem env name, k) (ap some (override_upsd-connection env.upsd section))
      | inr k ↦ rw (is_named_lem env name, k) (ap some (override_upsd-connection no_upsd section))
    ]
with_variables-connection_of env name none = elim (Bool-cases (text_eq (upsd_key env) name)) [
  | inl k ↦ elim (Bool-cases (is_some env.upsd.address)) [
    | inl a ↦ rw (is_named_lem env name, k, a) (ap some (override_upsd-connection env.upsd no_upsd))
    | inr a ↦ rw (is_named_lem env name, k, a) refl
  ]
  | inr k ↦ rw (is_named_lem env name, k) refl
]

module _ (toml : ServerTomlArgs) (env : ServerEnvArgs) (h : IsMap (sections_of toml.upsd)) where
  -- The connection of a name that the file and the environment say.
  abbrev pub configured : Bytes → Option UpsdConfig
  configured name =
      connection_of env.upsd (is_named env.upsd_name name) (lookup name (sections_of toml.upsd))

  abbrev merged : Dict UpsdConfig
  merged = env_upsd env (insert_sections (sections_of toml.upsd) [])

  lookup-empty : (name : Bytes) → ◌≡◌ {A = Option UpsdConfig} (lookup name []) none
  unfolding lookup
  lookup-empty name = refl

  lookup-merged : (name : Bytes) → lookup name merged ≡ configured name
  lookup-merged name =
      lookup-env_upsd env name (insert_sections (sections_of toml.upsd) [])
      ∙ ap (with_variables env name) (
          lookup-insert_sections name (sections_of toml.upsd) [] h
          ∙ ap (section_or (lookup name (sections_of toml.upsd))) (lookup-empty name))
      ∙ with_variables-connection_of env name (lookup name (sections_of toml.upsd))

  upsd-merged :
      (random_key : Bytes) (cli : ServerCliArgs)
      → (apply_layers random_key toml env cli).upsd ≡ fallback_upsd merged
  unfolding apply_layers toml_layer env_layer cli_layer fallback_layer default_config
  upsd-merged random_key cli = ap (λ m. fallback_upsd (env_upsd env m)) (merged_lem toml.upsd)

  -- If no name stands twice in the file and the file and the environment configure any connection,
  -- the connections are those they configure: one for each section of the file, and one for the
  -- name in the environment, or else the name default, if the environment gives an address; each
  -- setting is that of the environment if the connection has its name, or else that of the
  -- section, or else the default. If they configure none, the only connection is the default one,
  -- whatever other variables are set.
  pub apply_layers-upsd :
      (random_key : Bytes) (cli : ServerCliArgs) (name : Bytes)
      → ((other : Bytes) (cfg : UpsdConfig)
          → configured other ≡ some cfg
          → lookup name (apply_layers random_key toml env cli).upsd ≡ configured name)
        × (((other : Bytes) → configured other ≡ none)
            → (apply_layers random_key toml env cli).upsd
              ≡ (codes "default", connection no_upsd no_upsd) ∷ [])
  unfolding connection default_upsd first_of first_opt
  apply_layers-upsd random_key cli name = (
    λ other cfg e.
        ap (lookup name)
          (upsd-merged random_key cli ∙ fallback_found other cfg merged (lookup-merged other ∙ e))
        ∙ lookup-merged name,
    λ missing.
        let empty : merged ≡ [] =
          none_found merged (λ other. lookup-merged other ∙ missing other) in
        upsd-merged random_key cli ∙ ap fallback_upsd empty ∙ (unfold fallback_upsd insert in refl),
  )
