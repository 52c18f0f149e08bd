-- ===== src/Upsmc/Text/Slices.antt =====
-- Slices of a text at character boundaries, for the code that copies texts in pieces.
use nut_webgui.Prelude.{
  ℕ, ◌+◌, ◌-◌, ◌<◌, ◌≡◌, true, false, ◌||◌, [], ◌∷◌, ◌++◌, none, some, length, length-append,
  drop-length_append, take-length_append, leb, arith, append_assoc,
}
use nut_webgui.Prelude.{Bool, ◌&&◌}
use nut_webgui.Upsmc.Text.{Bytes, is_continuation, starts_char, is_char_boundary, slice}

-- A text that may stand behind a character boundary.
abbrev pub Starts : Bytes → Type 0
Starts t = starts_char true t ≡ true

-- What the code relies on of UTF-8: no byte below 128 is followed by a continuation byte.
abbrev pub IsText : Bytes → Type 0
IsText [] = Unit
IsText (c ∷ cs) = ((leb 128 c || starts_char true cs) ≡ true) × IsText cs

pub is_char_boundary-Starts : (a x : Bytes) → Starts x → is_char_boundary (a ++ x) (length a) ≡ true
unfolding is_char_boundary
is_char_boundary-Starts a [] h = ground (arith, drop-length_append a [], length-append a [])
is_char_boundary-Starts a (c ∷ x) h = rw (drop-length_append a (c ∷ x)) (ground arith)

pub is_char_boundary_inside :
    (a : Bytes) (c : ℕ) (x : Bytes)
    → 0 < length a
    → is_continuation c ≡ true
    → is_char_boundary (a ++ (c ∷ x)) (length a) ≡ false
unfolding is_char_boundary
is_char_boundary_inside a c x p h = rw (drop-length_append a (c ∷ x)) (ground arith)

-- The middle of a text, cut out at two boundaries.
pub slice_middle :
    (a b c : Bytes)
    → Starts (b ++ c)
    → Starts c
    → slice (a ++ (b ++ c)) (length a) (length a + length b) ≡ some b
unfolding slice
slice_middle a b c h k = ground (
  arith,
  is_char_boundary-Starts a (b ++ c) h,
  rw (append_assoc a b c, length-append a b) at (is_char_boundary-Starts (a ++ b) c k),
  drop-length_append a (b ++ c),
  take-length_append b c,
  sub-add_left,
)
  where
    sub-add_left : length a + length b - length a ≡ length b
    sub-add_left = omega arith

-- A slice that begins inside a character is a panic.
pub slice_inside :
    (a : Bytes) (c : ℕ) (x : Bytes) (end : ℕ)
    → 0 < length a
    → is_continuation c ≡ true
    → slice (a ++ (c ∷ x)) (length a) end ≡ none
unfolding slice
slice_inside a c x end p h = rw (is_char_boundary_inside a c x p h) (ground arith)

-- `IsText`, as a test.
unfoldable pub is_text : Bytes → Bool
is_text [] = true
is_text (c ∷ cs) = (leb 128 c || starts_char true cs) && is_text cs

pub is_text-IsText : (t : Bytes) → is_text t ≡ true → IsText t
unfolding is_text
is_text-IsText [] h = tt
is_text-IsText (c ∷ cs) h = (ground (arith, h), is_text-IsText cs (ground (arith, h)))
