-- ===== src/Upsmc/Command.antt =====
-- command.rs: the text that each command sends. The printer of floats, with two
-- decimals in value.rs, is an argument; `none` is the panic of a slice in internal/escape.rs.
pub mod Lines
use mathlib.Core.Option
use nut_webgui.Prelude.{
  ℕ, zero, suc, ◌+◌, ◌/◌, ◌%◌, [], ◌∷◌, ◌++◌, Option, none, some, Bool, if◌then◌else◌, ltb,
  and_then,
}
use nut_webgui.Upsmc.Text.{Bytes, codes}
use nut_webgui.Upsmc.Escape.{escape_nut_str, as_ref}
use nut_webgui.Upsmc.Value.{Value, float, int, string, ℤ, pos, negsuc}

-- The structs of the commands, with their fields.
pub data Command (F : Type 0) : Type 0 where
  attach fsd get_ups_desc list_client list_cmd list_var list_rw : Bytes → Command F
  get_cmd_desc inst_cmd : Bytes → Bytes → Command F
  get_var_desc get_var_type get_var list_enum list_range : Bytes → Bytes → Command F
  password username : Bytes → Command F
  set_variable : Bytes → Bytes → Value F → Command F
  detach list_ups get_daemon_ver get_prot_ver start_tls : Command F

-- `to_string` of an integer: its decimal digits, of which 64 bits have at most 20.
unfoldable pub digits : ℕ → ℕ → Bytes → Bytes
digits zero n later = later
digits (suc fuel) n later =
    let now = (b'0' + n % 10) ∷ later in
    let more = digits fuel (n / 10) now in if ltb n 10 then now else more

unfoldable pub print_int : ℤ → Bytes
print_int (pos n) = digits 20 n []
print_int (negsuc n) = b'-' ∷ digits 20 (n + 1) []

-- `UpsName::as_escaped_str`.
unfoldable pub escaped_str : Bytes → Option Bytes
escaped_str t = Option.map as_ref (escape_nut_str t)

module _ {F : Type 0} (print_f64 : F → Bytes) where
  -- `Value::as_escaped_str`.
  unfoldable pub value_escaped_str : Value F → Option Bytes
  value_escaped_str (float x) = some (print_f64 x)
  value_escaped_str (int n) = some (print_int n)
  value_escaped_str (string t) = escaped_str t

  abbrev with_ups : Bytes → Bytes → Bytes → Option Bytes
  with_ups before ups after = Option.map (λ name. before ++ (name ++ after)) (escaped_str ups)

  abbrev end_line : Bytes
  end_line = codes "\n"

  -- A blank, a name and the end of the line.
  abbrev behind : Bytes → Bytes
  behind name = codes " " ++ (name ++ end_line)

  -- `Serialize::serialize`.
  unfoldable pub serialize : Command F → Option Bytes
  serialize (attach ups) = with_ups (codes "LOGIN ") ups end_line
  serialize (fsd ups) = with_ups (codes "FSD ") ups end_line
  serialize (get_ups_desc ups) = with_ups (codes "GET UPSDESC ") ups end_line
  serialize (list_client ups) = with_ups (codes "LIST CLIENT ") ups end_line
  serialize (list_cmd ups) = with_ups (codes "LIST CMD ") ups end_line
  serialize (list_var ups) = with_ups (codes "LIST VAR ") ups end_line
  serialize (list_rw ups) = with_ups (codes "LIST RW ") ups end_line
  serialize (get_cmd_desc ups cmd) = with_ups (codes "GET CMDDESC ") ups (behind cmd)
  serialize (inst_cmd ups cmd) = with_ups (codes "INSTCMD ") ups (behind cmd)
  serialize (get_var_desc ups var) = with_ups (codes "GET DESC ") ups (behind var)
  serialize (get_var_type ups var) = with_ups (codes "GET TYPE ") ups (behind var)
  serialize (get_var ups var) = with_ups (codes "GET VAR ") ups (behind var)
  serialize (list_enum ups var) = with_ups (codes "LIST ENUM ") ups (behind var)
  serialize (list_range ups var) = with_ups (codes "LIST RANGE ") ups (behind var)
  serialize (password text) = some (codes "PASSWORD " ++ (text ++ end_line))
  serialize (username text) = some (codes "USERNAME " ++ (text ++ end_line))
  serialize (set_variable ups var value) = and_then (value_escaped_str value) λ text.
      with_ups (codes "SET VAR ") ups
        (codes " " ++ (var ++ (codes " \"" ++ (text ++ codes "\"\n"))))
  serialize detach = some (codes "LOGOUT\n")
  serialize list_ups = some (codes "LIST UPS\n")
  serialize get_daemon_ver = some (codes "VER\n")
  serialize get_prot_ver = some (codes "NETVER\n")
  serialize start_tls = some (codes "STARTTLS\n")
