-- ===== src/Upsmc/Values/Tests.antt =====
-- Runs of the responses with values, and of command.rs, with a parser that knows no float.
use nut_webgui.Prelude.{inl, map, All, length, ◌≤◌, ◌≡◌, refl, [], ◌∷◌, List, Option, none, arith}
use nut_webgui.Upsmc.Text.{Bytes, codes, is_ascii_whitespace, is_ascii_alphabetic}
use nut_webgui.Upsmc.Text.Slices.{is_text-IsText, is_text, IsText}
use nut_webgui.Upsmc.Names.{is_ascii_rfc9271}
use nut_webgui.Upsmc.Names.Laws.{IsUpsName, IsName}
use nut_webgui.Upsmc.Lexer.{init}
use nut_webgui.Upsmc.Parser.Rules.{Returns}
use nut_webgui.Upsmc.Value.{string}
use nut_webgui.Upsmc.Values.{UpsVariables, get, get_var, list_variables, list_enum, list_range}
use nut_webgui.Upsmc.Values.Variables.{last_value}
use nut_webgui.Upsmc.Values.Printed.{print_variables, variable_texts, variable_text, frame}
use nut_webgui.Upsmc.Values.RoundTrip.{listed, list_variables-print_variables}
use nut_webgui.Upsmc.Parser.Accepts.{IsWord}
use nut_webgui.Upsmc.Escape.{is_special}
use nut_webgui.Upsmc.Escape.Laws.{escaped}
use nut_webgui.Upsmc.Lexer.Cursor.{isize_max}
use nut_webgui.Upsmc.Error.{ok}
use nut_webgui.Upsmc.Values.Returns.{list_variables-Returns, AreNamed}
use nut_webgui.Upsmc.Values.Types.{get_var_type, list_client}
use nut_webgui.Upsmc.Values.Every.{every_response-Returns}
use nut_webgui.Upsmc.Response.{list_cmd}
use nut_webgui.Upsmc.Response.Returns.{CmdsAreNamed}
use nut_webgui.Upsmc.Command.{Command, set_variable, serialize}
use nut_webgui.Upsmc.Command.Lines.{Sends, line_feeds, carried, HasNames, serialize-Sends}

abbrev no_float : Bytes → Option Bytes
no_float t = none

abbrev repeated : List (Bytes × Bytes)
repeated = (codes "a.b", codes "x") ∷ (codes "a.b", codes "\"y\"") ∷ []

repeated_names : All (λ e. IsName e.0) repeated
unfolding is_ascii_alphabetic is_ascii_rfc9271
repeated_names = ((refl, (refl, (refl, (refl, tt)))), ((refl, (refl, (refl, (refl, tt)))), tt))

repeated-IsText : IsText (print_variables (codes "VAR") (codes "u") repeated)
unfolding is_text print_variables variable_texts variable_text frame escaped is_special
repeated-IsText = is_text-IsText (print_variables (codes "VAR") (codes "u") repeated) refl

repeated_fits : length (print_variables (codes "VAR") (codes "u") repeated) ≤ isize_max
unfolding print_variables variable_texts variable_text frame escaped is_special
repeated_fits = omega arith

u-IsWord : IsUpsName (codes "u") × IsWord (codes "u")
unfolding is_ascii_whitespace
u-IsWord = (((λ e. cc), (refl, tt)), (refl, (refl, tt)))

list_variables-print_variables_example :
    (variables : UpsVariables Bytes) × ((list_variables no_float
        (print_variables (codes "VAR") (codes "u") repeated)
        (codes "VAR")
        init).0
      ≡ ok (record { variables = variables; ups_name = codes "u" }))
    × ((name : Bytes) → get name variables ≡ last_value name (map (listed no_float) repeated) none)
list_variables-print_variables_example =
    list_variables-print_variables no_float (codes "VAR") (codes "u") repeated (inl refl) u-IsWord.0
      u-IsWord.1 repeated_names repeated-IsText repeated_fits

abbrev list_text : Bytes
list_text = codes "BEGIN LIST VAR u\nVAR u ups.status \"OL\"\nEND LIST VAR u\n"

list_variables-Returns_example :
    Returns list_text list_text 0
      (AreNamed no_float list_text)
      (list_variables no_float list_text (codes "VAR") init)
list_variables-Returns_example =
    list_variables-Returns no_float list_text (codes "VAR") (omega arith)

abbrev enum_text : Bytes
enum_text = codes "BEGIN LIST ENUM u a.b\nENUM u a.b \"1\"\nEND LIST ENUM u a.b\n"

every_response-Returns_example :
    Returns enum_text enum_text 0 CmdsAreNamed (list_cmd enum_text init)
    × Returns enum_text enum_text 0
        (λ r. IsUpsName r.ups_name × IsName r.name)
        (get_var no_float enum_text init)
    × Returns enum_text enum_text 0
        (λ r. IsUpsName r.ups_name × IsName r.name)
        (list_enum no_float enum_text init)
    × Returns enum_text enum_text 0
        (λ r. IsUpsName r.ups_name × IsName r.name)
        (list_range no_float enum_text init)
    × Returns enum_text enum_text 0
        (λ r. IsUpsName r.ups_name × IsName r.name)
        (get_var_type enum_text init)
    × Returns enum_text enum_text 0
        (λ r. IsUpsName r.ups_name)
        (list_client no_float enum_text init)
every_response-Returns_example = every_response-Returns no_float no_float enum_text (omega arith)

-- A value with a line feed inside.
abbrev injected : Command Bytes
injected = set_variable (codes "u") (codes "a") (string (codes "x\nFSD u"))

injected-HasNames : HasNames injected
unfolding is_text is_ascii_whitespace is_ascii_alphabetic is_ascii_rfc9271
injected-HasNames = (
  (((λ e. cc), (refl, tt)), (is_text-IsText (codes "u") refl, refl)),
  ((refl, (refl, tt)), (is_text-IsText (codes "x\nFSD u") refl, refl)),
)

abbrev one : Bytes → Bytes
one t = codes "1.00"

serialize-Sends_example : Sends (carried injected) (serialize one injected)
unfolding line_feeds
serialize-Sends_example = serialize-Sends one (λ x. refl) injected injected-HasNames
