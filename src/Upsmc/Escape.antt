-- ===== src/Upsmc/Escape.antt =====
-- internal/escape.rs.
pub mod Laws
pub mod RoundTrip
use mathlib.Core.Option
use nut_webgui.Prelude.{
  length, true, false, ◌||◌, ◌==◌, some, and_then, Option, Bool, ℕ, ◌+◌, [], ◌∷◌, ◌++◌, arith,
}
use nut_webgui.Upsmc.Text.{Bytes, encode_latin1}
use nut_webgui.Upsmc.Lexer.{push_slice}

-- `Cow<str>`: whether the text had to be copied.
pub data Cow : Type 0 where
  borrowed : Bytes → Cow
  owned : Bytes → Cow

unfoldable pub is_special : ℕ → Bool
is_special c = c == b'"' || c == b'\\'

-- The slices are pushed as `extract_from_token` pushes them.
unfoldable pub escape_loop : Bytes → Bytes → ℕ → ℕ → Bytes → Option (Bytes × ℕ)
escape_loop t [] idx slice_start out = some (out, slice_start)
escape_loop t (c ∷ cs) idx slice_start out = elim (is_special c) [
  | true ↦
      and_then (push_slice t slice_start idx out)
        (λ o. escape_loop t cs (idx + 1) (idx + 1) (o ++ (b'\\' ∷ encode_latin1 c)))
  | false ↦ escape_loop t cs (idx + 1) slice_start out
]

unfoldable pub finish_escape : Bytes → Bytes × ℕ → Option Cow
finish_escape t ([], slice_start) = some (borrowed t)
finish_escape t (o ∷ out, slice_start) =
    Option.map owned (push_slice t slice_start (length t) (o ∷ out))

-- `none` is the panic of a slice off a character boundary.
unfoldable pub escape_nut_str : Bytes → Option Cow
escape_nut_str t = and_then (escape_loop t t 0 0 []) (finish_escape t)

-- The text of a `Cow`.
abbrev pub as_ref : Cow → Bytes
as_ref (borrowed t) = t
as_ref (owned t) = t
