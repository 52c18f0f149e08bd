-- ===== src/Upsmc/Text.antt =====
-- What the crate uses of Rust's `str`, `u8` and `usize`. A text is the list of its UTF-8 bytes.
pub mod Slices
use Prim.Native.Char.{code}
use Prim.Native.String.{String}
use nut_webgui.Prelude.{
  ℕ, ◌+◌, ◌-◌, ◌/◌, ◌%◌, min, ◌≡◌, ◌↔◌, arith, Bool, true, false, not, ◌&&◌, ◌||◌, List, [], ◌∷◌,
  Option, none, some, length, take, drop, ltb, leb, ◌==◌, if◌then◌else◌,
}

abbrev pub Bytes : Type 0
Bytes = List ℕ

-- The bytes of a literal, which is ASCII in the whole crate.
abbrev pub codes : String → Bytes
codes String.[] = []
codes (String.◌∷◌ c s) = code c ∷ codes s

-- `==` of two texts.
unfoldable pub text_eq : Bytes → Bytes → Bool
text_eq [] [] = true
text_eq [] (y ∷ ys) = false
text_eq (x ∷ xs) [] = false
text_eq (x ∷ xs) (y ∷ ys) = x == y && text_eq xs ys

pub text_eq_iff : (a b : Bytes) → (text_eq a b ≡ true) ↔ (a ≡ b)
unfolding text_eq
text_eq_iff (x ∷ a) (y ∷ b) = ground (arith, text_eq_iff a b)
text_eq_iff _ _ = ground arith

-- `str::starts_with` for a text: the rest behind the prefix, as `strip_prefix` returns it.
unfoldable pub strip_prefix : Bytes → Bytes → Option Bytes
strip_prefix [] text = some text
strip_prefix (p ∷ ps) [] = none
strip_prefix (p ∷ ps) (c ∷ cs) = if p == c then strip_prefix ps cs else none

abbrev pub within : ℕ → ℕ → ℕ → Bool
within lo hi c = leb lo c && leb c hi

-- `u8::is_ascii_whitespace`: space, tab, line feed, form feed and carriage return.
unfoldable pub is_ascii_whitespace : ℕ → Bool
is_ascii_whitespace c = c == b' ' || c == b'\t' || c == b'\n' || c == 12 || c == b'\r'

unfoldable pub is_ascii_alphabetic : ℕ → Bool
is_ascii_alphabetic c = within b'a' b'z' c || within b'A' b'Z' c

-- The byte continues a character that an earlier byte begins.
abbrev pub is_continuation : ℕ → Bool
is_continuation c = within 128 191 c

-- The bytes behind an offset, and whether the offset is the length of the text.
abbrev pub starts_char : Bool → Bytes → Bool
starts_char is_len [] = is_len
starts_char is_len (c ∷ cs) = not (is_continuation c)

-- An offset is a character boundary at both ends of the text and before each byte that begins a
-- character; behind the end it is none.
unfoldable pub is_char_boundary : Bytes → ℕ → Bool
is_char_boundary text i = if i == 0 then true else starts_char (i == length text) (drop i text)

-- `&text[start..end]`; `none` is the panic.
unfoldable pub slice : Bytes → ℕ → ℕ → Option Bytes
unfolding is_char_boundary
slice text start end =
    if leb start end && is_char_boundary text start && is_char_boundary text end
    then some (take (end - start) (drop start text))
    else none

-- `String::push(char::from(byte))`: the character of that code point, in UTF-8.
unfoldable pub encode_latin1 : ℕ → Bytes
encode_latin1 c = if ltb c 128 then c ∷ [] else (192 + c / 64) ∷ (128 + c % 64) ∷ []

-- `usize::saturating_add_signed` for an offset that is not negative, on a 64-bit target.
abbrev pub usize_max : ℕ
usize_max = 18_446_744_073_709_551_615

unfoldable pub saturating_add : ℕ → ℕ → ℕ
saturating_add a by = min (a + by) usize_max
