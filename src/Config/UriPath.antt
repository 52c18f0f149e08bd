-- ===== src/Config/UriPath.antt =====
-- config/uri_path.rs. A text is the list of its characters, `as_bytes` is its UTF-8 form.
pub mod Laws
use nut_webgui.Prelude.{
  ℕ, ◌+◌, ◌/◌, ◌%◌, [], ◌∷◌, ◌++◌, List, Bool, true, false, ◌||◌, ◌&&◌, ◌==◌, if◌then◌else◌, ltb,
  Option, none, some,
}
use nut_webgui.Upsmc.Str.{trim_end_matches, trim, as_bytes}
use nut_webgui.Upsmc.Text.{Bytes, within}
use nut_webgui.Upsmc.Status.{Chars, is_whitespace}

-- `LOOKUP_ASCII_URI`; bytes from 128 are outside the table.
unfoldable pub is_uri_char : ℕ → Bool
is_uri_char c =
    c == b'!'
    || c == b'$'
    || c == b'&'
    || within b'(' b')' c
    || within b'+' b'/' c
    || c == b'\''
    || c == b';'
    || c == b'='
    || c == b'_'
    || c == b'~'
    || within b'a' b'z' c
    || within b'A' b'Z' c
    || within b'0' b'9' c
    || c == b'@'

unfoldable pub valid_loop : ℕ → Bytes → Bool
valid_loop prev_chr [] = true
valid_loop prev_chr (chr ∷ path) =
    if chr == b'/' && prev_chr == b'/'
    then false
    else if is_uri_char chr
    then valid_loop chr path
    else false

abbrev pub is_valid_path : Chars → Bool
is_valid_path path = valid_loop 0 (as_bytes path)

-- The characters that are taken off the end.
abbrev pub is_trailing : ℕ → Bool
is_trailing c = is_whitespace c || c == b'/'

-- `UriPath::new`; `none` is `InvalidPathError`.
unfoldable pub from_normalized : Chars → Option Chars
from_normalized [] = some []
from_normalized (c ∷ cs) =
    if is_valid_path (c ∷ cs)
    then (if c == b'/' then some (c ∷ cs) else some (b'/' ∷ (c ∷ cs)))
    else none

unfoldable pub uri_path_new : Chars → Option Chars
uri_path_new path = from_normalized (trim_end_matches is_trailing (trim path))
