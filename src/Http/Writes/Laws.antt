-- ===== src/Http/Writes/Laws.antt =====
-- http/json_api/route/rw.rs, instcmd.rs and fsd.rs: what reaches upsd.
use nut_webgui.Prelude.{◌++◌, ◌≡◌, ◌⊎◌, Option, none, some, []}
use nut_webgui.Upsmc.Text.{codes, Bytes}
use nut_webgui.Upsmc.Value.{Value}
use nut_webgui.Upsmc.Error.{Error}
use nut_webgui.Upsmc.Command.{serialize, Command}
use nut_webgui.Config.Settings.{UpsdConfig}
use nut_webgui.Http.Checks.{ProblemDetail, problem_of}
use nut_webgui.Http.Writes.{Sent}
use nut_webgui.Http.Checks.Fits.{Fits}

-- The two lines of a login.
abbrev pub name_line : Bytes → Bytes
name_line user = codes "USERNAME " ++ (user ++ codes "\n")

abbrev pub password_line : Bytes → Bytes
password_line pass = codes "PASSWORD " ++ (pass ++ codes "\n")

module _ {F : Type 0} (print_f64 : F → Bytes) where
  -- What upsd gets for an action: nothing, a login that is refused, or the login, the text of the
  -- command and the end; the login is the configured one. The text is that of command.rs, in which
  -- a value keeps its line feeds.
  pub data Conversation (config : UpsdConfig) (cmd : Command F)
      : Option (Option ProblemDetail) → Bytes → Type 0 where
    silent : (p : ProblemDetail) → Conversation config cmd (some (some p)) []
    no_name :
        (p : ProblemDetail) {user : Bytes}
        → config.user ≡ some user
        → Conversation config cmd (some (some p)) (name_line user)
    no_password :
        (p : ProblemDetail) {user pass : Bytes}
        → config.user ≡ some user
        → config.pass ≡ some pass
        → Conversation config cmd (some (some p)) (name_line user ++ password_line pass)
    panicked :
        {user pass : Bytes}
        → config.user ≡ some user
        → config.pass ≡ some pass
        → serialize print_f64 cmd ≡ none
        → Conversation config cmd none (name_line user ++ password_line pass)
    refused :
        (e : Error) {user pass line : Bytes}
        → config.user ≡ some user
        → config.pass ≡ some pass
        → serialize print_f64 cmd ≡ some line
        → Conversation config cmd
            (some (some (problem_of e)))
            (((name_line user ++ password_line pass) ++ line) ++ codes "LOGOUT\n")
    accepted :
        {user pass line : Bytes}
        → config.user ≡ some user
        → config.pass ≡ some pass
        → serialize print_f64 cmd ≡ some line
        → Conversation config cmd
            (some none)
            (((name_line user ++ password_line pass) ++ line) ++ codes "LOGOUT\n")

  -- A conversation for an action, of which nothing is said unless `Allowed` holds.
  abbrev pub Guarded : UpsdConfig → Command F → Type 0 → Sent (Option ProblemDetail) → Type 0
  Guarded config cmd Allowed r = Conversation config cmd r.0 r.1 × ((r.1 ≡ []) ⊎ Allowed)
