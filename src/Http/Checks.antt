-- ===== src/Http/Checks.antt =====
-- http/json_api/problem_detail.rs and the checks of http/json_api/route/rw.rs, instcmd.rs and fsd.rs
-- in front of what they send. The arithmetic of floats is an argument.
pub mod Fits
use nut_webgui.Prelude.{
  ℕ, Bool, true, false, ◌&&◌, ◌==◌, if◌then◌else◌, ltb, Option, none, some, any, length,
}
use nut_webgui.Upsmc.Text.{Bytes, codes, text_eq}
use nut_webgui.Upsmc.Dict.{lookup}
use nut_webgui.Upsmc.Value.{Value, ℤ, pos, negsuc}
use nut_webgui.Upsmc.Error.{
  Error, io_error, parse_error, protocol_error, connection_pool_closed, empty_response,
  request_timeout,
}
use nut_webgui.Upsmc.Command
use nut_webgui.Upsmc.Client.{trim_bytes}
use nut_webgui.Sync.State.{DaemonState, DeviceEntry, VarDetail, number, enum, range}
use nut_webgui.Sync.State

-- `f64`: its order, its equality, and the value of an `i64`.
pub record Floats (F : Type 0) : Type 0 where
  pub le : F → F → Bool
  pub eq : F → F → Bool
  pub of_int : ℤ → F
  pub zero : F

pub record ProblemDetail : Type 0 where
  pub title : Bytes
  pub status : ℕ

abbrev pub problem : Bytes → ℕ → ProblemDetail
problem title status = record { title = title; status = status }

-- `ProblemDetail::from` an error of the client.
unfoldable pub problem_of : Error → ProblemDetail
problem_of empty_response = problem (codes "UPSD empty response") 500
problem_of (io_error kind) = problem (codes "UPSD IO error") 500
problem_of (parse_error e position) = problem (codes "Invalid UPSD response") 500
problem_of (protocol_error e) = problem (codes "UPSD protocol error") 500
problem_of connection_pool_closed = problem (codes "UPSD connection pool error") 500
problem_of request_timeout = problem (codes "Request timeout") 500

unfoldable pub int_eq : ℤ → ℤ → Bool
int_eq (pos m) (pos n) = m == n
int_eq (pos m) (negsuc n) = false
int_eq (negsuc m) (pos n) = false
int_eq (negsuc m) (negsuc n) = m == n

module _ {F : Type 0} (floats : Floats F) where
  unfoldable pub is_numeric : Value F → Bool
  is_numeric (Value.float x) = true
  is_numeric (Value.int n) = true
  is_numeric (Value.string t) = false

  unfoldable pub as_lossly_f64 : Value F → Option F
  as_lossly_f64 (Value.float x) = some x
  as_lossly_f64 (Value.int n) = some (floats.of_int n)
  as_lossly_f64 (Value.string t) = none

  -- The derived `PartialEq`.
  unfoldable pub value_eq : Value F → Value F → Bool
  value_eq (Value.float x) (Value.float y) = floats.eq x y
  value_eq (Value.int m) (Value.int n) = int_eq m n
  value_eq (Value.string s) (Value.string t) = text_eq s t
  value_eq (Value.float x) (Value.int n) = false
  value_eq (Value.float x) (Value.string t) = false
  value_eq (Value.int m) (Value.float y) = false
  value_eq (Value.int m) (Value.string t) = false
  value_eq (Value.string s) (Value.float y) = false
  value_eq (Value.string s) (Value.int n) = false

  abbrev invalid_type : Option ProblemDetail
  invalid_type = some (problem (codes "Invalid value type") 400)

  unfoldable pub check_string : ℕ → Value F → Option ProblemDetail
  check_string max_len (Value.float x) = invalid_type
  check_string max_len (Value.int n) = invalid_type
  check_string max_len (Value.string t) =
      let trimmed = trim_bytes t in
      if length trimmed == 0
      then some (problem (codes "Empty value") 400)
      else if ltb max_len (length trimmed)
      then some (problem (codes "Out of range") 400)
      else none

  unfoldable pub check_bounds : Option F → Option F → Value F → Option ProblemDetail
  check_bounds none max value = some (problem (codes "Malformed driver response") 500)
  check_bounds (some lower) none value = some (problem (codes "Malformed driver response") 500)
  check_bounds (some lower) (some upper) value =
      let valuef64 : F = elim (as_lossly_f64 value) [ none ↦ floats.zero | some x ↦ x ] in
      if floats.le lower valuef64 && floats.le valuef64 upper
      then none
      else some (problem (codes "Out of range") 400)

  -- The `match` of `rw::patch` on the detail of the variable; `none` is `Ok(())`.
  unfoldable pub check_value : VarDetail F → Value F → Option ProblemDetail
  check_value number value = if is_numeric value then none else invalid_type
  check_value (State.string max_len) value = check_string max_len value
  check_value (enum options) value =
      if any (λ option. value_eq option value) options
      then none
      else some (problem (codes "Invalid option") 400)
  check_value (range lower upper) value =
      if is_numeric value
      then check_bounds (as_lossly_f64 lower) (as_lossly_f64 upper) value
      else invalid_type

  abbrev no_device : Option ProblemDetail
  no_device = some (problem (codes "Device not found") 404)

  unfoldable pub check_rw : DaemonState F → Bytes → Bytes → Value F → Option ProblemDetail
  check_rw state ups_name variable value = elim (lookup ups_name state.devices) [
    | none ↦ no_device
    | some device ↦ elim (lookup variable device.rw_variables) [
      | none ↦ some (problem (codes "Invalid RW variable") 400)
      | some detail ↦ check_value detail value
    ]
  ]

unfoldable pub check_instcmd : {F : Type 0} → DaemonState F → Bytes → Bytes → Option ProblemDetail
check_instcmd state ups_name cmd = elim (lookup ups_name state.devices) [
  | none ↦ some (problem (codes "Device not found") 404)
  | some device ↦
      if any (λ c. text_eq c cmd) device.commands
      then none
      else some (problem (codes "Invalid INSTCMD") 400)
]

unfoldable pub check_fsd : {F : Type 0} → DaemonState F → Bytes → Option ProblemDetail
check_fsd state ups_name = elim (lookup ups_name state.devices) [
  | none ↦ some (problem (codes "Device not found") 404)
  | some device ↦ none
]
