-- ===== src/Upsmc/Lexer/Panic.antt =====
-- `extract_from_token` of internal/lexer.rs on an escaped character outside ASCII: the loop goes on
-- behind the character's first byte, and the next slice begins inside the character.
use nut_webgui.Upsmc.Text.Slices.{slice_inside}
use nut_webgui.Upsmc.Lexer.{push_slice, finish_unescape, unescape_text, unescape_loop}
use nut_webgui.Prelude.{
  ◌%◌, ◌/◌, ltb, Bool-cases, inr, inl, ap, Option-cases, length-append, append_assoc, ◌==◌, lt→ltb,
  false, none, and_then, true, All, length, refl, ℕ, ◌+◌, ◌<◌, ◌≡◌, [], ◌∷◌, ◌++◌, arith,
}
use nut_webgui.Upsmc.Text.{Bytes, is_continuation, encode_latin1}

module _ (a : Bytes) (d : ℕ) (x : Bytes) (begun : 0 < length a)
    (inside : is_continuation d ≡ true) where
  push_slice_inside :
      (end : ℕ) (out : Bytes) → length a < end → push_slice (a ++ (d ∷ x)) (length a) end out ≡ none
  unfolding push_slice
  push_slice_inside end out h = rw (lt→ltb _ _ h, slice_inside a d x end begun inside)

  unescape_loop_inside :
      (rest : Bytes) (idx : ℕ) (o : ℕ) (out : Bytes)
      → length a < idx
      → idx + length rest ≡ length (a ++ (d ∷ x))
      → and_then
          (unescape_loop (a ++ (d ∷ x)) false rest idx (length a) (o ∷ out))
          (finish_unescape (a ++ (d ∷ x)))
        ≡ none
  unfolding unescape_loop finish_unescape
  unescape_loop_inside [] idx o out h e =
      push_slice_inside (length (a ++ (d ∷ x))) (o ∷ out) (omega (arith, e, h))
  unescape_loop_inside (c ∷ rest) idx o out h e = ground (
    arith,
    push_slice_inside idx (o ∷ out) h,
    unescape_loop_inside rest (idx + 1) o out (omega (arith, h)) (omega (arith, e)),
  )

unescape_loop_plain :
    (t pre rest : Bytes) (idx start : ℕ) (out : Bytes)
    → All (λ b. (b == b'\\') ≡ false) pre
    → unescape_loop t false (pre ++ rest) idx start out
      ≡ unescape_loop t false rest (idx + length pre) start out
unfolding unescape_loop
unescape_loop_plain t [] rest idx start out h =
    ap (λ i. unescape_loop t false rest i start out) (omega arith)
unescape_loop_plain t (c ∷ pre) rest idx start out h =
    ground (arith, unescape_loop_plain t pre rest (idx + 1) start out h.1)

append-encode_latin1 :
    (o : Bytes) (c : ℕ) → (x : ℕ) × (out : Bytes) × (o ++ encode_latin1 c ≡ x ∷ out)
unfolding encode_latin1
append-encode_latin1 [] c = elim (Bool-cases (ltb c 128)) [
  | inl e ↦ (c, [], rw e)
  | inr e ↦ (192 + c / 64, (128 + c % 64) ∷ [], rw e)
]
append-encode_latin1 (x ∷ o) c = (x, o ++ encode_latin1 c, refl)

unescape_loop_escaped :
    (t a : Bytes) (c d : ℕ) (post o : Bytes) (idx : ℕ)
    → t ≡ a ++ (d ∷ post)
    → 0 < length a
    → is_continuation d ≡ true
    → idx ≡ length a
    → and_then (unescape_loop t false (d ∷ post) idx idx (o ++ encode_latin1 c)) (finish_unescape t)
      ≡ none
unfolding unescape_loop
unescape_loop_escaped t a c d post o idx w p k e =
    let (x, out, q) = append-encode_latin1 o c in
    rw (q, e, w)
      (ground (
        arith,
        unescape_loop_inside a d post p k post (length a + 1) x out (omega arith)
            (omega (arith, length-append a (d ∷ post))),
      ))

-- If the first escape of a text is in front of a character of two bytes or more, the extraction
-- panics, whatever follows.
pub unescape_text_panics :
    (pre : Bytes) (c d : ℕ) (post : Bytes)
    → All (λ b. (b == b'\\') ≡ false) pre
    → is_continuation d ≡ true
    → unescape_text (pre ++ (b'\\' ∷ c ∷ d ∷ post)) ≡ none
unfolding unescape_text unescape_loop
unescape_text_panics pre c d post h k =
    let t = pre ++ (b'\\' ∷ c ∷ d ∷ post) in
    let a = pre ++ (b'\\' ∷ c ∷ []) in
    let split : t ≡ a ++ (d ∷ post) = simp append_assoc in
    let size : length a ≡ length pre + 2 = omega (arith, length-append pre (b'\\' ∷ c ∷ [])) in
    let stop = 0 + length pre in
    rw (unescape_loop_plain t pre (b'\\' ∷ c ∷ d ∷ post) 0 0 [] h, unescape_loop)
      (elim (Option-cases (push_slice t 0 stop [])) [
        | inl e ↦ rw e
        | inr (o, e) ↦ rw e (
            unescape_loop_escaped t a c d post o (stop + 1 + 1) split (omega (arith, size)) k
              (omega (arith, size)))
      ])
