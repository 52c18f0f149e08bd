-- ===== src/Config/Layers/Connection.antt =====
-- config.rs: what the file and the environment make of a connection, said without the layers.
use nut_webgui.Prelude.{sym, Bool, ◌≡◌, refl, ◌&&◌, if◌then◌else◌, Option, none, some, [], ◌∷◌}
use nut_webgui.Upsmc.Text.{Bytes, codes, text_eq}
use nut_webgui.Upsmc.Dict.{is_some}
use nut_webgui.Config.Settings.{UpsdConfig, disable, UpsdConfigSection, default_upsd}
use nut_webgui.Config.Layers.{override_upsd, override_inner, override_opt}
use nut_webgui.Config.Layers.Load.{no_upsd}
use nut_webgui.Config.Layers.Laws.{first_of, first_opt}

-- The connection of a section: each setting is that of the variables, or else that of the section,
-- or else a default.
unfoldable pub connection : UpsdConfigSection → UpsdConfigSection → UpsdConfig
connection variables section = record {
  poll_freq = first_of (variables.poll_freq ∷ section.poll_freq ∷ []) 30;
  poll_interval = first_of (variables.poll_interval ∷ section.poll_interval ∷ []) 2;
  addr = first_of (variables.address ∷ section.address ∷ []) (codes "localhost");
  port = first_of (variables.port ∷ section.port ∷ []) 3_493;
  user = first_opt (variables.username ∷ section.username ∷ []);
  pass = first_opt (variables.password ∷ section.password ∷ []);
  max_conn = first_of (variables.max_connection ∷ section.max_connection ∷ []) 4;
  tls_mode = first_of (variables.tls_mode ∷ section.tls_mode ∷ []) disable;
}

first_of-two :
    {A : Type 0} (default : A) (upper lower : Option A)
    → override_inner (override_inner default lower) upper ≡ first_of (upper ∷ lower ∷ []) default
unfolding override_inner first_of
first_of-two default (some u) lower = refl
first_of-two default none (some l) = refl
first_of-two default none none = refl

first_opt-two :
    {A : Type 0} (upper lower : Option A)
    → override_opt (override_opt none lower) upper ≡ first_opt (upper ∷ lower ∷ [])
unfolding override_opt first_opt
first_opt-two (some u) lower = refl
first_opt-two none (some l) = refl
first_opt-two none none = refl

pub override_upsd-connection :
    (variables section : UpsdConfigSection)
    → override_upsd (override_upsd default_upsd section) variables ≡ connection variables section
unfolding override_upsd default_upsd connection
override_upsd-connection variables section =
    rw
      (
        sym (first_of-two 30 variables.poll_freq section.poll_freq),
        sym (first_of-two 2 variables.poll_interval section.poll_interval),
        sym (first_of-two (codes "localhost") variables.address section.address),
        sym (first_of-two 3_493 variables.port section.port),
        sym (first_opt-two variables.username section.username),
        sym (first_opt-two variables.password section.password),
        sym (first_of-two 4 variables.max_connection section.max_connection),
        sym (first_of-two disable variables.tls_mode section.tls_mode),
      )
      refl

-- Whether the variables are about the connection of this name.
unfoldable pub is_named : Option Bytes → Bytes → Bool
is_named none name = text_eq (codes "default") name
is_named (some upsd_name) name = text_eq upsd_name name

-- What the variables and the section of a name make of it, if it has one.
unfoldable pub connection_of :
    UpsdConfigSection → Bool → Option UpsdConfigSection → Option UpsdConfig
connection_of variables named (some section) =
    some (connection (if named then variables else no_upsd) section)
connection_of variables named none =
    if named && is_some variables.address then some (connection variables no_upsd) else none
