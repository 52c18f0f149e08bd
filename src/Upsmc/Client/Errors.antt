-- ===== src/Upsmc/Client/Errors.antt =====
-- error.rs: the protocol errors and their texts.
use nut_webgui.Prelude.{
  map, ◌≡◌, refl, [], ◌∷◌, List, false, if◌then◌else◌, Bool-cases, inl, inr, any, arith,
}
use nut_webgui.Upsmc.Text.{Bytes, codes, text_eq, text_eq_iff}
use nut_webgui.Upsmc.Error.{
  ProtocolError, unknown, access_denied, already_attached, already_set_password,
  already_set_username, cmd_not_supported, date_stale, driver_not_connected, feature_not_configured,
  feature_not_supported, instcmd_failed, invalid_argument, invalid_password, invalid_username,
  invalid_value, password_required, readonly, set_failed, tls_already_enabled, tls_not_enabled,
  too_long, unknown_command, unknown_ups, username_required, var_not_supported,
}

unfoldable pub as_str : ProtocolError → Bytes
as_str (unknown value) = value
as_str access_denied = codes "ACCESS-DENIED"
as_str already_attached = codes "ALREADY-ATTACHED"
as_str already_set_password = codes "ALREADY-SET-PASSWORD"
as_str already_set_username = codes "ALREADY-SET-USERNAME"
as_str cmd_not_supported = codes "CMD-NOT-SUPPORTED"
as_str date_stale = codes "DATA-STALE"
as_str driver_not_connected = codes "DRIVER-NOT-CONNECTED"
as_str feature_not_configured = codes "FEATURE-NOT-CONFIGURED"
as_str feature_not_supported = codes "FEATURE-NOT-SUPPORTED"
as_str instcmd_failed = codes "INSTCMD-FAILED"
as_str invalid_argument = codes "INVALID-ARGUMENT"
as_str invalid_password = codes "INVALID-PASSWORD"
as_str invalid_username = codes "INVALID-USERNAME"
as_str invalid_value = codes "INVALID-VALUE"
as_str password_required = codes "PASSWORD-REQUIRED"
as_str readonly = codes "READONLY"
as_str set_failed = codes "SET-FAILED"
as_str tls_already_enabled = codes "TLS-ALREADY-ENABLED"
as_str tls_not_enabled = codes "TLS-NOT-ENABLED"
as_str too_long = codes "TOO-LONG"
as_str unknown_command = codes "UNKNOWN-COMMAND"
as_str unknown_ups = codes "UNKNOWN-UPS"
as_str username_required = codes "USERNAME-REQUIRED"
as_str var_not_supported = codes "VAR-NOT-SUPPORTED"

-- The arms of the `match` in their order.
abbrev pub variants : List ProtocolError
variants =
    access_denied ∷ already_attached ∷ already_set_password ∷ already_set_username
    ∷ cmd_not_supported ∷ date_stale ∷ driver_not_connected ∷ feature_not_configured
    ∷ feature_not_supported ∷ instcmd_failed ∷ invalid_argument ∷ invalid_password
    ∷ invalid_username ∷ invalid_value ∷ password_required ∷ readonly ∷ set_failed
    ∷ tls_already_enabled ∷ tls_not_enabled ∷ too_long ∷ unknown_command ∷ unknown_ups
    ∷ username_required ∷ var_not_supported ∷ []

unfoldable pub find_variant : Bytes → List ProtocolError → ProtocolError
find_variant value [] = unknown value
find_variant value (e ∷ es) = if text_eq (as_str e) value then e else find_variant value es

unfoldable pub protocol_error_from : Bytes → ProtocolError
protocol_error_from value = find_variant value variants

as_str-find_variant :
    (value : Bytes) (es : List ProtocolError) → as_str (find_variant value es) ≡ value
unfolding find_variant
as_str-find_variant value [] = unfold as_str in refl
as_str-find_variant value (e ∷ es) = elim (Bool-cases (text_eq (as_str e) value)) [
  | inl h ↦ rw h ((text_eq_iff (as_str e) value).0 h)
  | inr h ↦ rw h (as_str-find_variant value es)
]

find_variant_unknown :
    (value : Bytes) (es : List ProtocolError)
    → any (λ e. text_eq (as_str e) value) es ≡ false
    → find_variant value es ≡ unknown value
unfolding find_variant
find_variant_unknown value [] h = refl
find_variant_unknown value (e ∷ es) h = ground (arith, find_variant_unknown value es)

-- The error of a text has this text; a variant with a text of its own is the error of its text, and
-- so is `Unknown` for every text that is not that of a variant.
pub protocol_error_from-as_str :
    ((value : Bytes) → as_str (protocol_error_from value) ≡ value)
    × ((value : Bytes)
        → any (λ e. text_eq (as_str e) value) variants ≡ false
        → protocol_error_from (as_str (unknown value)) ≡ unknown value)
    × (map (λ e. protocol_error_from (as_str e)) variants ≡ variants)
unfolding protocol_error_from find_variant as_str text_eq
protocol_error_from-as_str = (
  λ value. as_str-find_variant value variants,
  λ value h. find_variant_unknown value variants h,
  refl,
)
