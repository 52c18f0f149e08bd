-- ===== src/Upsmc/Status/Words.antt =====
-- Words with a blank between them, and `split_whitespace`.
use nut_webgui.Prelude.{
  ◌≡◌, refl, false, [], ◌∷◌, ◌++◌, List, All, append_assoc, append-nil, ap, sym, ◌∙◌,
}
use nut_webgui.Upsmc.Status.{Chars, is_whitespace, flush, split_loop, split_whitespace}

abbrev pub IsStatusWord : Chars → Type 0
IsStatusWord [] = ⊥
IsStatusWord (c ∷ cs) = All (λ x. is_whitespace x ≡ false) (c ∷ cs)

unfoldable pub join : List Chars → Chars
join [] = []
join (t ∷ []) = t
join (t ∷ u ∷ ts) = t ++ (b' ' ∷ join (u ∷ ts))

split_loop-append :
    (word t rest : Chars)
    → All (λ x. is_whitespace x ≡ false) t
    → split_loop word (t ++ rest) ≡ split_loop (word ++ t) rest
unfolding split_loop
split_loop-append word [] rest h = rw (append-nil word) refl
split_loop-append word (c ∷ cs) rest h = rw h.0 (
    split_loop-append (word ++ (c ∷ [])) cs rest h.1
    ∙ ap (λ w. split_loop w rest) (append_assoc word (c ∷ []) cs))

pub split_whitespace-join :
    (ts : List Chars) → All IsStatusWord ts → split_whitespace (join ts) ≡ ts
unfolding split_whitespace join split_loop flush is_whitespace
split_whitespace-join [] h = refl
split_whitespace-join ([] ∷ ts) h = absurd h.0
split_whitespace-join ((c ∷ cs) ∷ []) h =
    ap (split_loop []) (sym (append-nil (c ∷ cs))) ∙ split_loop-append [] (c ∷ cs) [] h.0
split_whitespace-join ((c ∷ cs) ∷ u ∷ ts) h =
    split_loop-append [] (c ∷ cs) (b' ' ∷ join (u ∷ ts)) h.0
    ∙ ap (λ x. (c ∷ cs) ∷ x) (split_whitespace-join (u ∷ ts) h.1)
