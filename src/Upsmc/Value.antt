-- ===== src/Upsmc/Value.antt =====
-- value.rs: the values of variables. The floats of Rust are a parameter, with their parser
-- `str::parse::<f64>`; integers are 64-bit.
use mathlib.Core.Option
use nut_webgui.Prelude.{
  ◌||◌, leb, and_then, ◌==◌, if◌then◌else◌, ℕ, ◌+◌, ◌*◌, ◌-◌, [], ◌∷◌, Bool, true, false, none,
  some, Option,
}
use nut_webgui.Upsmc.Text.{Bytes, within}

-- `negsuc n` is -(n + 1).
pub data ℤ : Type 0 where
  pos : ℕ → ℤ
  negsuc : ℕ → ℤ

pub data Value (F : Type 0) : Type 0 where
  float : F → Value F
  int : ℤ → Value F
  string : Bytes → Value F

pub data InferredType : Type 0 where
  int float string : InferredType

unfoldable pub is_digit : ℕ → Bool
is_digit c = within b'0' b'9' c

-- The loop over the bytes behind the first one or two.
unfoldable pub infer_loop : InferredType → Bytes → InferredType
infer_loop inferred [] = inferred
infer_loop InferredType.int (c ∷ cs) = elim (c == b'.') [
  | true ↦ infer_loop InferredType.float cs
  | false ↦ elim (is_digit c) [
    | true ↦ infer_loop InferredType.int cs
    | false ↦ InferredType.string
  ]
]
infer_loop InferredType.float (c ∷ cs) = elim (is_digit c) [
  | true ↦ infer_loop InferredType.float cs
  | false ↦ InferredType.string
]
infer_loop InferredType.string (c ∷ cs) = elim (is_digit c) [
  | true ↦ infer_loop InferredType.string cs
  | false ↦ InferredType.string
]

-- Behind a leading zero.
unfoldable pub infer_zero : Bytes → InferredType
unfolding infer_loop
infer_zero [] = InferredType.int
infer_zero (c ∷ cs) = if c == b'.' then infer_loop InferredType.float cs else InferredType.string

unfoldable pub infer_type : Bytes → InferredType
unfolding infer_loop infer_zero
infer_type [] = InferredType.string
infer_type (c ∷ cs) =
    if c == b'-'
    then infer_loop InferredType.int cs
    else if c == b'0'
    then infer_zero cs
    else if is_digit c
    then infer_loop InferredType.int cs
    else InferredType.string

-- `str::parse::<i64>`: an optional sign, at least one digit, and the range of 64 bits.
unfoldable pub parse_digits : ℕ → Bytes → Option ℕ
parse_digits n [] = some n
parse_digits n (c ∷ cs) =
    let later = parse_digits (n * 10 + (c - b'0')) cs in if is_digit c then later else none

unfoldable pub parse_unsigned : Bytes → Option ℕ
unfolding parse_digits
parse_unsigned [] = none
parse_unsigned (c ∷ cs) = parse_digits 0 (c ∷ cs)

abbrev pub i64_max : ℕ
i64_max = 9_223_372_036_854_775_807

unfoldable pub positive : ℕ → Option ℤ
positive n = if leb n i64_max then some (pos n) else none

unfoldable pub negative : ℕ → Option ℤ
negative n =
    if n == 0 then some (pos 0) else if leb n (i64_max + 1) then some (negsuc (n - 1)) else none

unfoldable pub parse_i64 : Bytes → Option ℤ
unfolding parse_unsigned positive negative
parse_i64 [] = none
parse_i64 (c ∷ cs) =
    if c == b'-'
    then and_then (parse_unsigned cs) negative
    else if c == b'+'
    then and_then (parse_unsigned cs) positive
    else and_then (parse_unsigned (c ∷ cs)) positive

unfoldable pub contains_dot : Bytes → Bool
contains_dot [] = false
contains_dot (c ∷ cs) = c == b'.' || contains_dot cs

module _ {F : Type 0} (parse_f64 : Bytes → Option F) where
  unfoldable pub infer_as : InferredType → Bytes → Value F
  infer_as InferredType.int t = elim (parse_i64 t) [ none ↦ string t | some n ↦ int n ]
  infer_as InferredType.float t = elim (parse_f64 t) [ none ↦ string t | some x ↦ float x ]
  infer_as InferredType.string t = string t

  unfoldable pub infer_from : Bytes → Value F
  infer_from t = infer_as (infer_type t) t

  -- `none` is `NumberParseError`.
  unfoldable pub infer_number_from : Bytes → Option (Value F)
  infer_number_from t =
      if contains_dot t then Option.map float (parse_f64 t) else Option.map int (parse_i64 t)
