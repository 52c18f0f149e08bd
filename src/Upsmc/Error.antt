-- ===== src/Upsmc/Error.antt =====
-- error.rs: the crate's errors, and the outcomes of a call.
use nut_webgui.Prelude.{ℕ}
use nut_webgui.Upsmc.Text.{Bytes}

-- `Position` of internal/lexer.rs.
pub record Position : Type 0 where
  pub line : ℕ
  pub col : ℕ

-- `CmdParseError`, `UpsNameParseError` and `VarNameParseError`, which have the same two variants.
pub data NameError : Type 0 where
  empty invalid_name : NameError

pub data VarTypeError : Type 0 where
  empty invalid_type : VarTypeError

pub data ParseError : Type 0 where
  cmd_name : NameError → ParseError
  expected_double_quote : ParseError
  invalid_token : ParseError
  invalid_ip_addr : ParseError
  expected_text_token : ParseError
  expected_ups_token : ParseError
  expected_var_token : ParseError
  expected_cmd_token : ParseError
  expected_double_quoted_text_token : ParseError
  invalid_number : ParseError
  ups_name : NameError → ParseError
  var_name : NameError → ParseError
  var_type : VarTypeError → ParseError

pub data ProtocolError : Type 0 where
  unknown : Bytes → ProtocolError
  access_denied already_attached already_set_password already_set_username : ProtocolError
  cmd_not_supported date_stale driver_not_connected feature_not_configured : ProtocolError
  feature_not_supported instcmd_failed invalid_argument invalid_password : ProtocolError
  invalid_username invalid_value password_required readonly set_failed : ProtocolError
  tls_already_enabled tls_not_enabled too_long unknown_command unknown_ups : ProtocolError
  username_required var_not_supported : ProtocolError

-- `ErrorKind`; an I/O error carries the number of its `std::io::ErrorKind`.
pub data Error : Type 0 where
  io_error : ℕ → Error
  parse_error : ParseError → Position → Error
  protocol_error : ProtocolError → Error
  connection_pool_closed empty_response request_timeout : Error

-- The outcome of a call. `panic` is Rust's panic; `diverged` says that the fuel of a loop ran out.
pub data Result {ℓ} (A : Type ℓ) : Type ℓ where
  ok : A → Result A
  err : Error → Result A
  panic diverged : Result A
