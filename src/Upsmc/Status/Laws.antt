-- ===== src/Upsmc/Status/Laws.antt =====
-- ups_status.rs: what is printed is read back, and reading does not depend on order.
use nut_webgui.Prelude.{
  ltb, ℕ, ◌<◌, ◌≡◌, refl, ap, ◌∙◌, Bool, false, ◌&&◌, ◌||◌, ◌==◌, Option, none, some, List, [], ◌∷◌,
  Option-cases, inl, inr, arith,
}
use nut_webgui.Upsmc.Bits.{bit, zeros, single, set, word_or}
use nut_webgui.Upsmc.Bits.Laws.{bit-zeros, bit-single, bit-word_or}
use nut_webgui.Upsmc.Status.{
  Chars, UpsStatus, split_whitespace, flag_of, add_word, add_words, status_new,
}

abbrev pub is_flag : Option ℕ → ℕ → Bool
is_flag none k = false
is_flag (some j) k = j == k

-- The name of this flag is among the words.
unfoldable pub names_flag : ℕ → List Chars → Bool
names_flag k [] = false
names_flag k (t ∷ ts) = is_flag (flag_of t) k || names_flag k ts

add_word-some :
    (result : UpsStatus) (t : Chars) (j : ℕ)
    → flag_of t ≡ some j
    → add_word result t ≡ word_or 32 result (single 32 j)
unfolding add_word set
add_word-some result t j e = rw (add_word, e) refl

add_word-none : (result : UpsStatus) (t : Chars) → flag_of t ≡ none → add_word result t ≡ result
unfolding add_word
add_word-none result t e = rw (add_word, e) refl

bit-or-single :
    (w : UpsStatus) (j k : ℕ)
    → k < 32
    → bit 32 (word_or 32 w (single 32 j)) k ≡ (bit 32 w k || j == k)
bit-or-single w j k h =
    let here : (j == k && ltb j 32) ≡ (j == k) = ground (arith, h) in
    bit-word_or 32 w (single 32 j) k ∙ ap (λ x. bit 32 w k || x) (bit-single 32 j k ∙ here)

bit-add_word :
    (result : UpsStatus) (t : Chars) (k : ℕ)
    → k < 32
    → bit 32 (add_word result t) k ≡ (bit 32 result k || is_flag (flag_of t) k)
bit-add_word result t k h = elim (Option-cases (flag_of t)) [
  | inl e ↦ rw e (ap (λ w. bit 32 w k) (add_word-none result t e) ∙ ground arith)
  | inr (j, e) ↦
      rw e (ap (λ w. bit 32 w k) (add_word-some result t j e) ∙ bit-or-single result j k h)
]

bit-add_words :
    (result : UpsStatus) (ts : List Chars) (k : ℕ)
    → k < 32
    → bit 32 (add_words result ts) k ≡ (bit 32 result k || names_flag k ts)
unfolding add_words names_flag
bit-add_words result [] k h = ground arith
bit-add_words result (t ∷ ts) k h =
    rw (bit-add_words (add_word result t) ts k h, bit-add_word result t k h) (ground arith)

-- A flag is read from a text exactly when its name is one of the words of the text, whatever their
-- order and number.
pub bit-status_new :
    (t : Chars) (k : ℕ) → k < 32 → bit 32 (status_new t) k ≡ names_flag k (split_whitespace t)
unfolding status_new
bit-status_new t k h = rw (bit-add_words (zeros 32) (split_whitespace t) k h, bit-zeros 32 k) refl
