-- ===== src/Http/Writes.antt =====
-- http/json_api/route.rs with route/rw.rs, instcmd.rs and fsd.rs, and client/client_auth.rs: the
-- requests that change a device, and what they send to upsd. What upsd answers, whether the pool has
-- a client, and the arithmetic and the printer of floats are arguments.
pub mod Laws
mod Tests
use mathlib.Core.Option
use nut_webgui.Prelude.{
  ℕ, Bool, true, false, ◌&&◌, ◌==◌, if◌then◌else◌, ltb, Option, none, some, List, [], ◌∷◌, ◌++◌,
  any, length,
}
use nut_webgui.Upsmc.Text.{Bytes, codes, text_eq}
use nut_webgui.Upsmc.Dict.{Dict, lookup}
use nut_webgui.Upsmc.Value.{Value, ℤ, pos, negsuc}
use nut_webgui.Upsmc.Error.{
  Error, io_error, parse_error, protocol_error, connection_pool_closed, empty_response,
  request_timeout,
}
use nut_webgui.Upsmc.Command.{
  Command, username, password, set_variable, inst_cmd, detach, serialize,
}
use nut_webgui.Upsmc.Command
use nut_webgui.Upsmc.Client.{trim_bytes}
use nut_webgui.Config.Settings.{UpsdConfig}
use nut_webgui.Sync.State.{DaemonState, DeviceEntry, VarDetail, number, enum, range}
use nut_webgui.Sync.State
use nut_webgui.Http.Checks.{
  Floats, ProblemDetail, problem, problem_of, int_eq, is_numeric, as_lossly_f64, value_eq,
  check_string, check_bounds, check_value, check_rw, check_instcmd, check_fsd,
}

-- What upsd answers to a text behind those that it has got on the connection: an error, or OK.
abbrev pub Upsd : Type 0
Upsd = Bytes → Bytes → Option Error

-- A result, or `none` where the call panics, and what upsd has got on the connection.
abbrev pub Sent : Type 0 → Type 0
Sent A = Option A × Bytes

module _ {F : Type 0} (print_f64 : F → Bytes) (upsd : Upsd) where
  unfoldable pub send_command : Command F → Bytes → Sent (Option Error)
  send_command cmd sent = elim (serialize print_f64 cmd) [
    | none ↦ (none, sent)
    | some line ↦ (some (upsd sent line), sent ++ line)
  ]

  -- `?` behind a call.
  unfoldable pub on_success :
      Sent (Option Error) → (Bytes → Sent (Option Error)) → Sent (Option Error)
  on_success (none, sent) k = (none, sent)
  on_success (some (some e), sent) k = (some (some e), sent)
  on_success (some none, sent) k = k sent

  -- `NutClient::authenticate`.
  unfoldable pub authenticate : Bytes → Bytes → Sent (Option Error)
  authenticate user pass =
      on_success (send_command (username user) []) (λ sent. send_command (password pass) sent)

  -- `close` behind the action of a route; its error is dropped.
  unfoldable pub close_client : Sent (Option Error) → Sent (Option ProblemDetail)
  close_client (none, sent) = (none, sent)
  close_client (some r, sent) = (some (Option.map problem_of r), (send_command detach sent).1)

  unfoldable pub after_login : Command F → Sent (Option Error) → Sent (Option ProblemDetail)
  after_login cmd (none, sent) = (none, sent)
  after_login cmd (some (some e), sent) =
      (some (some (problem (codes "Unable to authenticate") 500)), sent)
  after_login cmd (some none, sent) = close_client (send_command cmd sent)

  -- `request_auth_client!` and what a route does with the client; `has_client` says whether the pool
  -- has one.
  unfoldable pub with_auth_client : UpsdConfig → Bool → Command F → Sent (Option ProblemDetail)
  with_auth_client config has_client cmd = elim config.pass [
    | none ↦ (some (some (problem (codes "Insufficient UPSD configuration") 403)), [])
    | some pass ↦ elim config.user [
      | none ↦ (some (some (problem (codes "Insufficient UPSD configuration") 403)), [])
      | some user ↦
          if has_client
          then after_login cmd (authenticate user pass)
          else (some (some (problem (codes "Unable to get UPSD client") 500)), [])
    ]
  ]

  unfoldable pub checked_action :
      Option ProblemDetail → UpsdConfig → Bool → Command F → Sent (Option ProblemDetail)
  checked_action (some problem) config has_client cmd = (some (some problem), [])
  checked_action none config has_client cmd = with_auth_client config has_client cmd

  -- `rw::patch`, `instcmd::post` and `fsd::post` on the state of a namespace that is there; `none` is
  -- the status 202.
  unfoldable pub patch_rw :
      Floats F
      → DaemonState F
      → UpsdConfig
      → Bool
      → Bytes
      → Bytes
      → Value F
      → Sent (Option ProblemDetail)
  patch_rw floats state config has_client ups_name variable value =
      checked_action (check_rw floats state ups_name variable value) config has_client
        (set_variable ups_name variable value)

  unfoldable pub post_instcmd :
      DaemonState F → UpsdConfig → Bool → Bytes → Bytes → Sent (Option ProblemDetail)
  post_instcmd state config has_client ups_name cmd =
      checked_action (check_instcmd state ups_name cmd) config has_client (inst_cmd ups_name cmd)

  unfoldable pub post_fsd : DaemonState F → UpsdConfig → Bool → Bytes → Sent (Option ProblemDetail)
  post_fsd state config has_client ups_name =
      checked_action (check_fsd state ups_name) config has_client (Command.fsd ups_name)
