-- ===== src/Upsmc/Values.antt =====
-- The responses of response/ that hold values, with ups_variables.rs and var_type.rs. The parsers of
-- floats and of IP addresses are arguments.
pub mod Returns
pub mod Variables
pub mod Printed
pub mod RoundTrip
pub mod Types
pub mod Every
mod Tests
use nut_webgui.Prelude.{
  ℕ, zero, suc, [], ◌∷◌, ◌++◌, List, Option, none, some, and_then, length, Bool, true, false,
  if◌then◌else◌, leb, ◌*◌, ◌+◌,
}
use nut_webgui.Upsmc.Text.{Bytes, codes, text_eq, strip_prefix, usize_max}
use nut_webgui.Upsmc.Error.{
  Result, ok, err, panic, diverged, var_name, var_type, invalid_number, invalid_token, VarTypeError,
  ParseError,
}
use nut_webgui.Upsmc.Lexer.{
  bind, State, M, ◌>>=◌, ◌>>◌, return, or_panic, next_token, extract_from_token, Token, text, lf,
  quoted_text,
}
use nut_webgui.Upsmc.Value.{Value, infer_from, infer_number_from, parse_unsigned}
use nut_webgui.Upsmc.Names.VarName.{var_name_new}
use nut_webgui.Upsmc.Parser.{
  fail_at, checked, extract_text, extract_quoted_text, extract_ups_name, extract_var_name,
  cmp_literal, end_parser, finish,
}
use nut_webgui.Upsmc.Response.{read_list}

-- `HashMap` from names to values, without its order.
abbrev pub UpsVariables : Type 0 → Type 0
UpsVariables F = List (Bytes × Value F)

module _ {F : Type 0} where
  unfoldable pub insert : Bytes → Value F → UpsVariables F → UpsVariables F
  insert name value [] = (name, value) ∷ []
  insert name value (entry ∷ rest) =
      let later = insert name value rest in
      if text_eq entry.0 name then (name, value) ∷ rest else entry ∷ later

  unfoldable pub get : Bytes → UpsVariables F → Option (Value F)
  get name [] = none
  get name (entry ∷ rest) = if text_eq entry.0 name then some entry.1 else get name rest

  -- The loop of `insert`s over the lines of a response.
  unfoldable pub insert_all : UpsVariables F → List (Bytes × Value F) → UpsVariables F
  insert_all variables [] = variables
  insert_all variables (entry ∷ entries) = insert_all (insert entry.0 entry.1 variables) entries

pub data VarType : Type 0 where
  read_write enum range number : VarType
  string : ℕ → VarType

pub data TypeResult : Type 0 where
  parsed : VarType → TypeResult
  refused : VarTypeError → TypeResult

-- `str::parse::<usize>`.
unfoldable pub parse_usize : Bytes → Option ℕ
parse_usize t =
    and_then (parse_unsigned (elim (strip_prefix (codes "+") t) [ none ↦ t | some rest ↦ rest ]))
      λ n. if leb n usize_max then some n else none

-- `STRING:` and at least one byte.
unfoldable pub max_len : Bytes → TypeResult
max_len [] = refused VarTypeError.invalid_type
max_len (c ∷ cs) = elim (parse_usize (c ∷ cs)) [
  | none ↦ refused VarTypeError.invalid_type
  | some n ↦ parsed (VarType.string n)
]

-- `VarType::from_str`.
unfoldable pub var_type_from_str : Bytes → TypeResult
var_type_from_str [] = refused VarTypeError.empty
var_type_from_str (c ∷ cs) =
    let s = c ∷ cs in
    if text_eq (codes "RW") s
    then parsed read_write
    else if text_eq (codes "ENUM") s
    then parsed enum
    else if text_eq (codes "RANGE") s
    then parsed range
    else if text_eq (codes "NUMBER") s
    then parsed number
    else elim (strip_prefix (codes "STRING:") s) [
      | none ↦ refused VarTypeError.invalid_type
      | some rest ↦ max_len rest
    ]

pub record UpsVar (F : Type 0) : Type 0 where
  pub value : Value F
  pub name : Bytes
  pub ups_name : Bytes

pub record UpsVarList (F : Type 0) : Type 0 where
  pub variables : UpsVariables F
  pub ups_name : Bytes

pub record EnumList (F : Type 0) : Type 0 where
  pub name : Bytes
  pub ups_name : Bytes
  pub values : List (Value F)

pub record RangeList (F : Type 0) : Type 0 where
  pub ups_name : Bytes
  pub ranges : List (Value F × Value F)
  pub name : Bytes

pub record UpsVarType : Type 0 where
  pub var_types : List VarType
  pub name : Bytes
  pub ups_name : Bytes

pub record ClientList (Ip : Type 0) : Type 0 where
  pub ups_name : Bytes
  pub ips : List Ip

module _ {F : Type 0} (parse_f64 : Bytes → Option F) (buffer : Bytes) where
  unfoldable pub extract_value : M (Value F)
  extract_value = do t ← extract_quoted_text buffer; return (infer_from parse_f64 t)

  unfoldable pub number_or_error : Option (Value F) → M (Value F)
  number_or_error none = fail_at invalid_number
  number_or_error (some value) = return value

  unfoldable pub extract_numeric_value : M (Value F)
  extract_numeric_value = do
    t ← extract_quoted_text buffer
    number_or_error (infer_number_from parse_f64 t)

  unfoldable pub get_var : M (UpsVar F)
  get_var = do
    cmp_literal buffer (codes "VAR")
    ups ← extract_ups_name buffer
    name ← extract_var_name buffer
    value ← extract_value
    end_parser buffer
    finish buffer (record { value = value; name = name; ups_name = ups })

  -- One line of `LIST VAR` or `LIST RW`.
  unfoldable pub variable_line : Bytes → Bytes → M (Bytes × Value F)
  variable_line key ups = do
    cmp_literal buffer key
    cmp_literal buffer ups
    name ← extract_var_name buffer
    value ← extract_value
    end_parser buffer
    return (name, value)

  -- `deserialize` of `UpsVarList` and of `RwList`, which differ in this word only.
  unfoldable pub list_variables : Bytes → M (UpsVarList F)
  list_variables key = do
    cmp_literal buffer (codes "BEGIN")
    cmp_literal buffer (codes "LIST")
    cmp_literal buffer key
    ups ← extract_ups_name buffer
    end_parser buffer
    entries ← read_list buffer key (variable_line key ups)
    cmp_literal buffer (codes "END")
    cmp_literal buffer (codes "LIST")
    cmp_literal buffer key
    cmp_literal buffer ups
    end_parser buffer
    finish buffer (record { variables = insert_all [] entries; ups_name = ups })

  unfoldable pub list_var : M (UpsVarList F)
  list_var = list_variables (codes "VAR")

  unfoldable pub list_rw : M (UpsVarList F)
  list_rw = list_variables (codes "RW")

  unfoldable pub enum_line : Bytes → Bytes → M (Value F)
  enum_line ups name = do
    cmp_literal buffer (codes "ENUM")
    cmp_literal buffer ups
    cmp_literal buffer name
    value ← extract_value
    end_parser buffer
    return value

  unfoldable pub list_enum : M (EnumList F)
  list_enum = do
    cmp_literal buffer (codes "BEGIN")
    cmp_literal buffer (codes "LIST")
    cmp_literal buffer (codes "ENUM")
    ups ← extract_ups_name buffer
    var ← extract_text buffer
    end_parser buffer
    name ← checked var_name var_name_new var
    values ← read_list buffer (codes "ENUM") (enum_line ups name)
    cmp_literal buffer (codes "END")
    cmp_literal buffer (codes "LIST")
    cmp_literal buffer (codes "ENUM")
    cmp_literal buffer ups
    cmp_literal buffer name
    end_parser buffer
    finish buffer (record { name = name; ups_name = ups; values = values })

  unfoldable pub range_line : Bytes → Bytes → M (Value F × Value F)
  range_line ups name = do
    cmp_literal buffer (codes "RANGE")
    cmp_literal buffer ups
    cmp_literal buffer name
    low ← extract_numeric_value
    high ← extract_numeric_value
    end_parser buffer
    return (low, high)

  unfoldable pub list_range : M (RangeList F)
  list_range = do
    cmp_literal buffer (codes "BEGIN")
    cmp_literal buffer (codes "LIST")
    cmp_literal buffer (codes "RANGE")
    ups ← extract_ups_name buffer
    var ← extract_text buffer
    end_parser buffer
    name ← checked var_name var_name_new var
    ranges ← read_list buffer (codes "RANGE") (range_line ups name)
    cmp_literal buffer (codes "END")
    cmp_literal buffer (codes "LIST")
    cmp_literal buffer (codes "RANGE")
    cmp_literal buffer ups
    cmp_literal buffer name
    end_parser buffer
    finish buffer (record { ups_name = ups; ranges = ranges; name = name })
