-- ===== src/Http/Writes/Tests.antt =====
-- Runs of the routes that change a device: a device with one variable of at most twenty bytes.
use nut_webgui.Upsmc.Escape.{finish_escape, is_special, escape_loop, escape_nut_str}
use nut_webgui.Prelude.{true, ◌≡◌, refl, ℕ, true, ◌==◌, leb, none, some, [], ◌∷◌}
use nut_webgui.Upsmc.Text.{Bytes, text_eq, codes}
use nut_webgui.Upsmc.Dict.{lookup}
use nut_webgui.Upsmc.Value.{Value}
use nut_webgui.Upsmc.Status.{is_whitespace}
use nut_webgui.Upsmc.Str.{trim_start_matches, trim_end_matches, trim_last, encode_utf8, as_bytes}
use nut_webgui.Upsmc.Client.{trim_bytes}
use nut_webgui.Upsmc.Command.{escaped_str, value_escaped_str, serialize}
use nut_webgui.Upsmc.Command
use nut_webgui.Auth.Utf8.{from_utf8, decode_loop, decode_byte, push_char}
use nut_webgui.Config.Settings.{UpsdConfig, disable}
use nut_webgui.Sync.State.{DaemonState, DeviceEntry, online, nocomm}
use nut_webgui.Sync.State
use nut_webgui.Http.Checks.{ProblemDetail, check_rw, Floats, check_value, check_string}
use nut_webgui.Http.Writes.{
  close_client, send_command, on_success, authenticate, after_login, with_auth_client,
  checked_action, Option, Upsd, Sent, patch_rw,
}
use nut_webgui.Http.Checks.Fits.{Fits}

-- Numbers in place of floats.
abbrev numbers : Floats ℕ
numbers = record { le = leb; eq = λ x y. x == y; of_int = λ n. 0; zero = 0 }

abbrev bx : DeviceEntry ℕ
bx = record {
  attached = [];
  commands = [];
  desc = [];
  last_modified = 0;
  name = codes "bx";
  rw_variables = (codes "ups.id", State.string 20) ∷ [];
  status = nocomm;
  variables = [];
}

abbrev state : DaemonState ℕ
state = record {
  devices = (codes "bx", bx) ∷ [];
  last_device_sync = none;
  status = online;
  prot_ver = none;
  ver = none;
}

abbrev config : UpsdConfig
config = record {
  poll_freq = 30;
  poll_interval = 2;
  addr = codes "localhost";
  port = 3_493;
  user = some (codes "admin");
  pass = some (codes "secret");
  max_conn = 4;
  tls_mode = disable;
}

abbrev accepts : Upsd
accepts sent line = none

abbrev no_digits : ℕ → Bytes
no_digits n = []

-- What upsd gets for a value with a line feed inside: the line behind it is a command of its own.
abbrev injection : Sent (Option ProblemDetail)
injection =
    patch_rw no_digits accepts numbers state config true (codes "bx") (codes "ups.id")
      (Value.string (codes "x\nFSD bx"))

injected : injection ≡ (
  some none,
  codes "USERNAME admin\nPASSWORD secret\nSET VAR bx ups.id \"x\nFSD bx\"\nLOGOUT\n",
)
unfolding patch_rw check_rw checked_action with_auth_client after_login authenticate on_success
    send_command close_client serialize value_escaped_str escaped_str escape_nut_str lookup text_eq
    check_value check_string trim_bytes trim_start_matches trim_end_matches trim_last is_whitespace
    from_utf8 decode_loop decode_byte push_char as_bytes encode_utf8 escape_loop is_special
    finish_escape
injected = refl

-- A text of three bytes is let through, as only its trimmed part is measured, and is sent as it is.
untrimmed : check_value numbers (State.string 2) (Value.string (codes "id ")) ≡ none
unfolding check_value check_string trim_bytes trim_start_matches trim_end_matches trim_last
    is_whitespace from_utf8 decode_loop decode_byte push_char as_bytes encode_utf8
untrimmed = refl
