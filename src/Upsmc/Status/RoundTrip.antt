-- ===== src/Upsmc/Status/RoundTrip.antt =====
-- ups_status.rs: what `to_string` prints, `new` reads back.
use nut_webgui.Upsmc.Status.Laws.{bit-status_new, names_flag, is_flag}
use nut_webgui.Upsmc.Bits.Laws.{
  bit_beyond, bit-single, bit_below, bit-zeros, bits_equal, word_eq_iff,
}
use nut_webgui.Upsmc.Bits.Iter.{
  elem-All, iter-positions, elem-positions, positions_from, positions, elem,
}
use nut_webgui.Upsmc.Text.{text_eq}
use nut_webgui.Prelude.{
  all_below-lt, all_below, ◌∙◌, inr, ◌≤◌, ◌++◌, sym, ltb, length, inl, ap, map, Option, Bool-cases,
  All, ◌<◌, List, ℕ, zero, suc, ◌≡◌, refl, Bool, true, false, ◌&&◌, not, ◌==◌, none, some, [], ◌∷◌,
  arith,
}
use nut_webgui.Upsmc.Bits.{Word, bit, count_ones, bit_eq, zeros, single, word_eq}
use nut_webgui.Upsmc.Status.{
  split_whitespace, status_new, to_string, join_names, UpsStatus, Chars, is_whitespace, flag_of,
  flag_from, get_state_str, state_str_from,
}
use nut_webgui.Upsmc.Status.Words.{split_whitespace-join, join, IsStatusWord}

-- What is printed for one flag.
abbrev name : ℕ → Chars
name k = get_state_str (single 32 k)

is_status_word : Chars → Bool
is_status_word [] = false
is_status_word (c ∷ []) = not (is_whitespace c)
is_status_word (c ∷ d ∷ cs) = not (is_whitespace c) && is_status_word (d ∷ cs)

is_status_word-IsStatusWord : (t : Chars) → is_status_word t ≡ true → IsStatusWord t
unfolding is_status_word
is_status_word-IsStatusWord [] h = cc
is_status_word-IsStatusWord (c ∷ []) h = (ground arith, tt)
is_status_word-IsStatusWord (c ∷ d ∷ cs) h =
    (ground (arith, h), is_status_word-IsStatusWord (d ∷ cs) (ground (arith, h)))

-- The name of a flag is a word, and is the name of this flag only.
is_named : ℕ → Bool
is_named k = is_status_word (name k) && is_flag (flag_of (name k)) k

all_named : all_below is_named 19 ≡ true
unfolding all_below is_named is_status_word get_state_str state_str_from flag_of flag_from single
    zeros word_eq text_eq is_whitespace bit_eq
all_named = refl

named : (k : ℕ) → k < 19 → is_named k ≡ true
named k h = all_below-lt is_named 19 k all_named h

name-IsStatusWord : (k : ℕ) → k < 19 → IsStatusWord (name k)
unfolding is_named
name-IsStatusWord k h = is_status_word-IsStatusWord (name k) (ground (arith, named k h))

is_flag-name : (j k : ℕ) → j < 19 → is_flag (flag_of (name j)) k ≡ (j == k)
unfolding is_named
is_flag-name j k h = go (flag_of (name j)) (named j h)
  where
    go : (o : Option ℕ) → (is_status_word (name j) && is_flag o j) ≡ true → is_flag o k ≡ (j == k)
    go none e = ground (arith, e)
    go (some i) e = ground (arith, e)

names_flag-names :
    (ks : List ℕ) (k : ℕ) → All (λ j. j < 19) ks → names_flag k (map name ks) ≡ elem k ks
unfolding names_flag elem
names_flag-names [] k h = refl
names_flag-names (j ∷ ks) k h = rw (is_flag-name j k h.0, names_flag-names ks k h.1) refl

names-IsStatusWord : (ks : List ℕ) → All (λ j. j < 19) ks → All IsStatusWord (map name ks)
names-IsStatusWord [] h = tt
names-IsStatusWord (k ∷ ks) h = (name-IsStatusWord k h.0, names-IsStatusWord ks h.1)

join_names-map : (ks : List ℕ) → join_names (map (single 32) ks) ≡ join (map name ks)
unfolding join_names join
join_names-map [] = refl
join_names-map (k ∷ []) = refl
join_names-map (k ∷ j ∷ ks) = ap (λ x. name k ++ (b' ' ∷ x)) (join_names-map (j ∷ ks))

count_ones-positions : (k n : ℕ) (w : Word n) → count_ones n w ≡ length (positions_from k n w)
unfolding count_ones positions_from
count_ones-positions k zero w = refl
count_ones-positions k (suc n) (true, w) = rw (count_ones-positions (suc k) n w) (omega arith)
count_ones-positions k (suc n) (false, w) = rw (count_ones-positions (suc k) n w) (omega arith)

no_positions : (w : UpsStatus) → positions 32 w ≡ [] → w ≡ zeros 32
unfolding elem
no_positions w e =
    bits_equal 32 w (zeros 32)
      λ i. sym (elem-positions 32 w i) ∙ ap (elem i) e ∙ sym (bit-zeros 32 i)

one_position : (w : UpsStatus) (k : ℕ) → positions 32 w ≡ k ∷ [] → w ≡ single 32 k
unfolding elem
one_position w k e =
    let bit_of : (i : ℕ) → bit 32 w i ≡ elem i (k ∷ []) =
      λ i. sym (elem-positions 32 w i) ∙ ap (elem i) e in
    let l = bit_below 32 w k (bit_of k ∙ ground arith) in
    bits_equal 32 w (single 32 k) λ i.
      let here : elem i (k ∷ []) ≡ (k == i && ltb k 32) = ground (arith, l) in
      bit_of i ∙ here ∙ sym (bit-single 32 k i)

get_state_str-zeros : get_state_str (zeros 32) ≡ []
unfolding get_state_str
get_state_str-zeros = rw ((word_eq_iff 32 (zeros 32) (zeros 32)).1 refl) refl

few :
    (w : UpsStatus) (ks : List ℕ)
    → positions 32 w ≡ ks
    → length ks ≤ 1
    → get_state_str w ≡ join (map name ks)
unfolding join
few w [] e l = ap get_state_str (no_positions w e) ∙ get_state_str-zeros
few w (k ∷ []) e l = ap get_state_str (one_position w k e)
few w (k ∷ j ∷ ks) e l = absurd (omega arith)

-- What is printed is the names of the set flags, lowest first, with a blank between two names.
to_string-join : (w : UpsStatus) → to_string w ≡ join (map name (positions 32 w))
unfolding to_string positions
to_string-join w = elim (Bool-cases (ltb 1 (count_ones 32 w))) [
  | inl e ↦
      rw (to_string, e) (ap join_names (iter-positions 32 w) ∙ join_names-map (positions 32 w))
  | inr e ↦
      rw (to_string, e)
        (few w (positions 32 w) refl (ground (arith, e, count_ones-positions 0 32 w)))
]

-- A status that has known flags only is read back from what is printed for it.
pub status_new-to_string :
    (w : UpsStatus) → ((i : ℕ) → bit 32 w i ≡ true → i < 19) → status_new (to_string w) ≡ w
status_new-to_string w h =
    let ks = positions 32 w in
    let known : All (λ k. k < 19) ks = elem-All ks (λ k e. h k (sym (elem-positions 32 w k) ∙ e)) in
    let words : split_whitespace (to_string w) ≡ map name ks =
      ap split_whitespace (to_string-join w)
      ∙ split_whitespace-join (map name ks) (names-IsStatusWord ks known) in
    bits_equal 32 (status_new (to_string w)) w λ i. elim (Bool-cases (ltb i 32)) [
      | inl l ↦
          bit-status_new (to_string w) i (ground (arith, l))
          ∙ ap (names_flag i) words
          ∙ names_flag-names ks i known
          ∙ elem-positions 32 w i
      | inr l ↦
          bit_beyond 32 (status_new (to_string w)) i (ground (arith, l))
          ∙ sym (bit_beyond 32 w i (ground (arith, l)))
    ]
