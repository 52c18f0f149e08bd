-- ===== src/Upsmc/Parser.antt =====
-- internal/parser_utils.rs. `parse_line!` is a macro: a use of it is a `do` block of these
-- functions, closed by `end_parser`.
pub mod Rules
pub mod Returns
pub mod Accepts
use nut_webgui.Prelude.{Option, none, some, Bool, true, false, if◌then◌else◌}
use nut_webgui.Upsmc.Text.{Bytes, text_eq}
use nut_webgui.Upsmc.Error.{
  NameError, ParseError, ups_name, cmd_name, var_name, invalid_token, expected_text_token,
  expected_double_quoted_text_token, parse_error, Result, ok, err, panic,
}
use nut_webgui.Upsmc.Lexer.{
  State, M, ◌>>=◌, ◌>>◌, return, or_panic, Token, quoted_text, lf, text, next_token,
  extract_from_token, skip_whitespaces, is_finished,
}
use nut_webgui.Upsmc.Names.{Validity, valid, invalid, is_ups_name, is_cmd_name}
use nut_webgui.Upsmc.Names.VarName.{var_name_new}

-- `Err(ErrorKind::ParseError { inner, position: lexer.get_positon() }.into())`.
unfoldable pub fail_at : {A : Type 0} → ParseError → M A
fail_at e s = (err (parse_error e s.position), s)

-- The `match` that each extraction makes on its token; `missing` is its error for no token.
unfoldable pub expect_text : Bytes → ParseError → Option Token → M Bytes
expect_text buffer missing (some (text start end)) =
    or_panic (extract_from_token buffer (text start end))
expect_text buffer missing (some lf) = fail_at invalid_token
expect_text buffer missing (some (quoted_text start end)) = fail_at invalid_token
expect_text buffer missing none = fail_at missing

unfoldable pub expect_quoted : Bytes → ParseError → Option Token → M Bytes
expect_quoted buffer missing (some (quoted_text start end)) =
    or_panic (extract_from_token buffer (quoted_text start end))
expect_quoted buffer missing (some lf) = fail_at invalid_token
expect_quoted buffer missing (some (text start end)) = fail_at invalid_token
expect_quoted buffer missing none = fail_at missing

unfoldable pub extract_text : Bytes → M Bytes
extract_text buffer = do token ← next_token buffer; expect_text buffer expected_text_token token

unfoldable pub extract_quoted_text : Bytes → M Bytes
extract_quoted_text buffer = do
  token ← next_token buffer
  expect_quoted buffer expected_double_quoted_text_token token

-- `try_from(name).map_err(..)?`.
unfoldable pub checked : (NameError → ParseError) → (Bytes → Validity) → Bytes → M Bytes
checked wrap test t = elim (test t) [ valid ↦ return t | invalid e ↦ fail_at (wrap e) ]

unfoldable pub extract_ups_name : Bytes → M Bytes
extract_ups_name buffer = do
  token ← next_token buffer
  t ← expect_text buffer expected_double_quoted_text_token token
  checked ups_name is_ups_name t

unfoldable pub extract_cmd_name : Bytes → M Bytes
extract_cmd_name buffer = do
  token ← next_token buffer
  t ← expect_text buffer expected_text_token token
  checked cmd_name is_cmd_name t

unfoldable pub extract_var_name : Bytes → M Bytes
extract_var_name buffer = do
  token ← next_token buffer
  t ← expect_text buffer expected_text_token token
  checked var_name var_name_new t

unfoldable pub same_text : Bytes → Bytes → M (Unit {0})
same_text cmp t = if text_eq cmp t then return tt else fail_at invalid_token

unfoldable pub cmp_literal : Bytes → Bytes → M (Unit {0})
cmp_literal buffer cmp = do
  token ← next_token buffer
  t ← expect_text buffer expected_text_token token
  same_text cmp t

unfoldable pub expect_end : Bytes → Option Token → M (Unit {0})
expect_end buffer (some lf) = skip_whitespaces buffer
expect_end buffer (some (text start end)) = fail_at invalid_token
expect_end buffer (some (quoted_text start end)) = fail_at invalid_token
expect_end buffer none = return tt

unfoldable pub end_parser : Bytes → M (Unit {0})
end_parser buffer = do token ← next_token buffer; expect_end buffer token

unfoldable pub close : {A : Type 0} → A → Bool → M A
close a true = return a
close a false = fail_at invalid_token

-- How every `deserialize` ends: nothing may be left.
unfoldable pub finish : {A : Type 0} → Bytes → A → M A
finish buffer a = do done ← is_finished buffer; close a done
