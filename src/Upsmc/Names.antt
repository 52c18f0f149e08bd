-- ===== src/Upsmc/Names.antt =====
-- ups_name.rs, cmd_name.rs, var_name.rs (with its child VarName) and internal/ascii_rules.rs: which texts are names.
pub mod VarName
pub mod Laws
mod Tests
use nut_webgui.Prelude.{
  ◌≡◌, ◌⊎◌, inl, inr, refl, ℕ, [], ◌∷◌, Bool, true, false, ◌||◌, not, ◌==◌, if◌then◌else◌,
}
use nut_webgui.Upsmc.Text.{Bytes, within, is_ascii_whitespace, is_ascii_alphabetic}
use nut_webgui.Upsmc.Error.{NameError, empty, invalid_name}

pub data Validity : Type 0 where
  valid : Validity
  invalid : NameError → Validity

pub Validity-cases : (v : Validity) → (v ≡ valid) ⊎ ((e : NameError) × (v ≡ invalid e))
Validity-cases valid = inl refl
Validity-cases (invalid e) = inr (e, refl)

-- `LOOKUP_ASCII_UPS` and `is_ascii_rfc9271`: bytes from 128 are outside the table.
unfoldable pub is_ascii_rfc9271 : ℕ → Bool
is_ascii_rfc9271 c =
    c == b'-'
    || c == b'.'
    || within b'0' b'9' c
    || within b'A' b'Z' c
    || c == b'_'
    || within b'a' b'z' c

unfoldable pub no_whitespace : Bytes → Validity
no_whitespace [] = valid
no_whitespace (c ∷ cs) = if is_ascii_whitespace c then invalid invalid_name else no_whitespace cs

unfoldable pub is_ups_name : Bytes → Validity
unfolding no_whitespace
is_ups_name [] = invalid empty
is_ups_name (c ∷ cs) = no_whitespace (c ∷ cs)

unfoldable pub all_rfc9271 : Bytes → Validity
all_rfc9271 [] = valid
all_rfc9271 (c ∷ cs) = if not (is_ascii_rfc9271 c) then invalid invalid_name else all_rfc9271 cs

unfoldable pub is_cmd_name : Bytes → Validity
unfolding all_rfc9271
is_cmd_name [] = invalid empty
is_cmd_name (c ∷ cs) =
    if not (is_ascii_alphabetic c) then invalid invalid_name else all_rfc9271 (c ∷ cs)

unfoldable pub is_var_name : Bytes → Validity
unfolding all_rfc9271
is_var_name [] = invalid empty
is_var_name (c ∷ cs) =
    if not (is_ascii_alphabetic c) then invalid invalid_name else all_rfc9271 (c ∷ cs)
