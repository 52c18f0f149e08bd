-- ===== src/Upsmc/Command/Lines.antt =====
-- command.rs: how many lines a command sends.
use mathlib.Core.Option
use nut_webgui.Prelude.{
  append_assoc, ◌%◌, ℕ, zero, suc, ◌+◌, ◌/◌, ◌≡◌, refl, subst, true, false, ◌==◌, if◌then◌else◌,
  Bool-cases, ltb, [], ◌∷◌, ◌++◌, Option, none, some, All, inl, inr, arith,
}
use nut_webgui.Upsmc.Text.{Bytes, codes, is_ascii_whitespace}
use nut_webgui.Upsmc.Text.Slices.{Starts, IsText}
use nut_webgui.Upsmc.Escape.{is_special}
use nut_webgui.Upsmc.Escape.Laws.{escaped, as_ref-escape_nut_str}
use nut_webgui.Upsmc.Names.{is_ascii_rfc9271}
use nut_webgui.Upsmc.Names.Laws.{IsUpsName, IsName}
use nut_webgui.Upsmc.Value.{float, int, string, ℤ, pos, negsuc}
use nut_webgui.Upsmc.Command.{
  Command, attach, fsd, get_ups_desc, list_client, list_cmd, list_var, list_rw, get_cmd_desc,
  inst_cmd, get_var_desc, get_var_type, get_var, list_enum, list_range, password, username,
  set_variable, detach, list_ups, get_daemon_ver, get_prot_ver, start_tls, digits, print_int,
  escaped_str, value_escaped_str, serialize,
}

unfoldable pub line_feeds : Bytes → ℕ
line_feeds [] = 0
line_feeds (c ∷ cs) = (if c == b'\n' then 1 else 0) + line_feeds cs

line_feeds-append : (a b : Bytes) → line_feeds (a ++ b) ≡ line_feeds a + line_feeds b
unfolding line_feeds
line_feeds-append [] b = omega arith
line_feeds-append (c ∷ a) b = omega (arith, line_feeds-append a b)

line_feeds-escaped : (t : Bytes) → line_feeds (escaped t) ≡ line_feeds t
unfolding line_feeds escaped
line_feeds-escaped [] = refl
line_feeds-escaped (c ∷ cs) = elim (Bool-cases (is_special c)) [
  | inl e ↦ rw e (omega (arith, line_feeds-escaped cs))
  | inr e ↦ rw e (omega (arith, line_feeds-escaped cs))
]

line_feeds-solid : (t : Bytes) → All (λ c. is_ascii_whitespace c ≡ false) t → line_feeds t ≡ 0
unfolding line_feeds is_ascii_whitespace
line_feeds-solid [] h = refl
line_feeds-solid (c ∷ cs) h = ground (arith, h.0, line_feeds-solid cs h.1)

line_feeds-rfc : (t : Bytes) → All (λ c. is_ascii_rfc9271 c ≡ true) t → line_feeds t ≡ 0
unfolding line_feeds is_ascii_rfc9271
line_feeds-rfc [] h = refl
line_feeds-rfc (c ∷ cs) h = ground (arith, h.0, line_feeds-rfc cs h.1)

line_feeds-digits :
    (fuel n : ℕ) (later : Bytes) → line_feeds later ≡ 0 → line_feeds (digits fuel n later) ≡ 0
unfolding line_feeds digits
line_feeds-digits zero n later h = h
line_feeds-digits (suc fuel) n later h =
    let d = (b'0' + n % 10) ∷ later in
    let now : line_feeds ((b'0' + n % 10) ∷ later) ≡ 0 = ground (arith, h) in
    elim (Bool-cases (ltb n 10)) [
      | inl e ↦ rw e now
      | inr e ↦ rw e (line_feeds-digits fuel (n / 10) d now)
    ]

line_feeds-print_int : (n : ℤ) → line_feeds (print_int n) ≡ 0
unfolding line_feeds print_int
line_feeds-print_int (pos n) = line_feeds-digits 20 n [] refl
line_feeds-print_int (negsuc n) = omega (arith, line_feeds-digits 20 (n + 1) [] refl)

-- The call returns a text that ends with a line feed and has this many others.
abbrev pub Sends : ℕ → Option Bytes → Type 0
Sends n none = ⊥
Sends n (some t) = (line : Bytes) × (t ≡ line ++ codes "\n") × (line_feeds line ≡ n)

-- A UPS name that is well-formed UTF-8, as every text of Rust is.
abbrev pub IsSentName : Bytes → Type 0
IsSentName ups = IsUpsName ups × (IsText ups × Starts ups)

Sends-same : (n m : ℕ) (o : Option Bytes) → n ≡ m → Sends n o → Sends m o
Sends-same n m o e h = subst (λ k. Sends k o) e h

escaped_str_lem : (t : Bytes) → IsText t → Starts t → escaped_str t ≡ some (escaped t)
unfolding escaped_str
escaped_str_lem t i h = as_ref-escape_nut_str t i h

ended :
    (before name after : Bytes)
    → before ++ (name ++ (after ++ codes "\n")) ≡ (before ++ (name ++ after)) ++ codes "\n"
ended before name after =
    rw (append_assoc before (name ++ after) (codes "\n"), append_assoc name after (codes "\n")) refl

with_ups-Sends :
    (before ups after : Bytes)
    → IsSentName ups
    → Sends
        (line_feeds before + line_feeds after)
        (Option.map (λ name. before ++ (name ++ (after ++ codes "\n"))) (escaped_str ups))
unfolding escaped_str
with_ups-Sends before ups after h = rw (as_ref-escape_nut_str ups h.1.0 h.1.1) (
  before ++ (escaped ups ++ after),
  ended before (escaped ups) after,
  omega (
    arith,
    line_feeds-append before (escaped ups ++ after),
    line_feeds-append (escaped ups) after,
    line_feeds-escaped ups,
    line_feeds-solid ups h.0.1,
  ),
)

line_feeds-IsName : (t : Bytes) → IsName t → line_feeds t ≡ 0
line_feeds-IsName [] h = absurd h
line_feeds-IsName (c ∷ cs) h = line_feeds-rfc (c ∷ cs) h.1

line_feeds-quoted :
    (var t : Bytes)
    → line_feeds var ≡ 0
    → line_feeds (codes " " ++ (var ++ (codes " \"" ++ (t ++ codes "\"")))) ≡ line_feeds t
unfolding line_feeds
line_feeds-quoted var t h = omega (
  arith,
  h,
  line_feeds-append var (codes " \"" ++ (t ++ codes "\"")),
  line_feeds-append t (codes "\""),
)

module _ (before ups : Bytes) (none_before : line_feeds before ≡ 0) where
  last-Sends :
      IsSentName ups → Sends 0 (Option.map (λ x. before ++ (x ++ codes "\n")) (escaped_str ups))
  unfolding line_feeds
  last-Sends h =
      Sends-same (line_feeds before + 0) 0 _ (omega (arith, none_before))
        (with_ups-Sends before ups [] h)

  behind-Sends :
      (name : Bytes)
      → IsSentName ups × IsName name
      → Sends 0
          (Option.map (λ x. before ++ (x ++ (codes " " ++ (name ++ codes "\n")))) (escaped_str ups))
  unfolding line_feeds
  behind-Sends name h =
      Sends-same (line_feeds before + line_feeds (codes " " ++ name)) 0 _
        (omega (arith, none_before, line_feeds-IsName name h.1))
        (with_ups-Sends before ups (codes " " ++ name) h.0)

module _ {F : Type 0} where
  -- What the types of the fields guarantee.
  abbrev pub HasNames : Command F → Type 0
  HasNames (attach ups) = IsSentName ups
  HasNames (fsd ups) = IsSentName ups
  HasNames (get_ups_desc ups) = IsSentName ups
  HasNames (list_client ups) = IsSentName ups
  HasNames (list_cmd ups) = IsSentName ups
  HasNames (list_var ups) = IsSentName ups
  HasNames (list_rw ups) = IsSentName ups
  HasNames (get_cmd_desc ups cmd) = IsSentName ups × IsName cmd
  HasNames (inst_cmd ups cmd) = IsSentName ups × IsName cmd
  HasNames (get_var_desc ups var) = IsSentName ups × IsName var
  HasNames (get_var_type ups var) = IsSentName ups × IsName var
  HasNames (get_var ups var) = IsSentName ups × IsName var
  HasNames (list_enum ups var) = IsSentName ups × IsName var
  HasNames (list_range ups var) = IsSentName ups × IsName var
  HasNames (set_variable ups var (string t)) = IsSentName ups × (IsName var × (IsText t × Starts t))
  HasNames (set_variable ups var (int n)) = IsSentName ups × IsName var
  HasNames (set_variable ups var (float x)) = IsSentName ups × IsName var
  HasNames _ = Unit

  -- The line feeds of the text that the command carries and the types do not restrict.
  unfoldable pub carried : Command F → ℕ
  carried (password t) = line_feeds t
  carried (username t) = line_feeds t
  carried (set_variable ups var (string t)) = line_feeds t
  carried _ = 0

module _ {F : Type 0} (print_f64 : F → Bytes) where
  set-Sends :
      (ups var t : Bytes)
      → IsSentName ups
      → IsName var
      → Sends (line_feeds t) (
          Option.map
            (λ x.
              codes "SET VAR "
              ++ (x ++ (codes " " ++ (var ++ (codes " \"" ++ (t ++ codes "\"\n"))))))
            (escaped_str ups))
  unfolding line_feeds
  set-Sends ups var t h n =
      let after = codes " " ++ (var ++ (codes " \"" ++ (t ++ codes "\""))) in
      let e = line_feeds-quoted var t (line_feeds-IsName var n) in
      let tail : after ++ codes "\n" ≡ codes " " ++ (var ++ (codes " \"" ++ (t ++ codes "\"\n"))) =
        rw
          (
            append_assoc var (codes " \"" ++ (t ++ codes "\"")) (codes "\n"),
            append_assoc t (codes "\"") (codes "\n"),
          )
          refl in
      subst
        (λ x.
          Sends (line_feeds t)
            (Option.map (λ name. codes "SET VAR " ++ (name ++ x)) (escaped_str ups)))
        tail
        (Sends-same (0 + line_feeds after) (line_feeds t) _ (omega (arith, e))
          (with_ups-Sends (codes "SET VAR ") ups after h))

  -- With valid names, a command never panics and sends a text that ends with a line feed and holds
  -- as many others as stand in the password, the user name or the text value that it carries, and
  -- none if it carries none of these, if the printer of floats prints no line feed.
  pub serialize-Sends :
      ((x : F) → line_feeds (print_f64 x) ≡ 0)
      → (command : Command F) → HasNames command
      → Sends (carried command) (serialize print_f64 command)
  unfolding serialize carried value_escaped_str line_feeds
  serialize-Sends f (attach ups) h = last-Sends (codes "LOGIN ") ups refl h
  serialize-Sends f (fsd ups) h = last-Sends (codes "FSD ") ups refl h
  serialize-Sends f (get_ups_desc ups) h = last-Sends (codes "GET UPSDESC ") ups refl h
  serialize-Sends f (list_client ups) h = last-Sends (codes "LIST CLIENT ") ups refl h
  serialize-Sends f (list_cmd ups) h = last-Sends (codes "LIST CMD ") ups refl h
  serialize-Sends f (list_var ups) h = last-Sends (codes "LIST VAR ") ups refl h
  serialize-Sends f (list_rw ups) h = last-Sends (codes "LIST RW ") ups refl h
  serialize-Sends f (get_cmd_desc ups cmd) h = behind-Sends (codes "GET CMDDESC ") ups refl cmd h
  serialize-Sends f (inst_cmd ups cmd) h = behind-Sends (codes "INSTCMD ") ups refl cmd h
  serialize-Sends f (get_var_desc ups var) h = behind-Sends (codes "GET DESC ") ups refl var h
  serialize-Sends f (get_var_type ups var) h = behind-Sends (codes "GET TYPE ") ups refl var h
  serialize-Sends f (get_var ups var) h = behind-Sends (codes "GET VAR ") ups refl var h
  serialize-Sends f (list_enum ups var) h = behind-Sends (codes "LIST ENUM ") ups refl var h
  serialize-Sends f (list_range ups var) h = behind-Sends (codes "LIST RANGE ") ups refl var h
  serialize-Sends f (password t) h = (codes "PASSWORD " ++ t, refl, omega arith)
  serialize-Sends f (username t) h = (codes "USERNAME " ++ t, refl, omega arith)
  serialize-Sends f (set_variable ups var (float x)) h =
      Sends-same (line_feeds (print_f64 x)) 0 _ (f x) (set-Sends ups var (print_f64 x) h.0 h.1)
  serialize-Sends f (set_variable ups var (int n)) h =
      Sends-same (line_feeds (print_int n)) 0 _ (line_feeds-print_int n)
        (set-Sends ups var (print_int n) h.0 h.1)
  serialize-Sends f (set_variable ups var (string t)) h = rw (escaped_str_lem t h.1.1.0 h.1.1.1) (
      Sends-same (line_feeds (escaped t)) (line_feeds t) _ (line_feeds-escaped t)
        (set-Sends ups var (escaped t) h.0 h.1.0))
  serialize-Sends f detach h = (codes "LOGOUT", refl, refl)
  serialize-Sends f list_ups h = (codes "LIST UPS", refl, refl)
  serialize-Sends f get_daemon_ver h = (codes "VER", refl, refl)
  serialize-Sends f get_prot_ver h = (codes "NETVER", refl, refl)
  serialize-Sends f start_tls h = (codes "STARTTLS", refl, refl)
