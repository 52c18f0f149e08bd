-- ===== src/Upsmc/Bits/Iter.antt =====
-- The iterators of ups_status.rs and auth/permission.rs: which flags they yield, and in what order.
use nut_webgui.Prelude.{
  sym, All, if◌then◌else◌, ℕ, zero, suc, ◌+◌, ◌≤◌, ◌<◌, ◌≡◌, refl, ap, ◌∙◌, Bool, true, false, ◌||◌,
  ◌==◌, none, some, List, [], ◌∷◌, map, length, Bool-cases, inl, inr, arith,
}
use nut_webgui.Upsmc.Bits.{
  Word, bit, zeros, single, word_and, word_not, word_eq, bit_eq, trailing_zeros, unset, next,
  iter_loop, iter,
}
use nut_webgui.Upsmc.Bits.Laws.{bit_below, word_eq_iff}

-- The set bits, lowest first, counted from `k`.
unfoldable pub positions_from : ℕ → (n : ℕ) → Word n → List ℕ
positions_from k zero w = []
positions_from k (suc n) (b, w) =
    let above = positions_from (suc k) n w in if b then k ∷ above else above

unfoldable pub positions : (n : ℕ) → Word n → List ℕ
positions = positions_from 0

-- The word without its lowest flag.
unfoldable clear_lowest : (n : ℕ) → Word n → Word n
clear_lowest zero w = tt
clear_lowest (suc n) (true, w) = (false, w)
clear_lowest (suc n) (false, w) = (false, clear_lowest n w)

word_and-zeros : (n : ℕ) (w : Word n) → word_and n w (zeros n) ≡ zeros n
unfolding word_and zeros
word_and-zeros zero w = refl
word_and-zeros (suc n) (b, w) = rw (word_and-zeros n w) (ground arith)

word_and-word_not : (n : ℕ) (w : Word n) → word_and n w (word_not n (zeros n)) ≡ w
unfolding word_and word_not zeros
word_and-word_not zero w = refl
word_and-word_not (suc n) (b, w) = rw (word_and-word_not n w) (ground arith)

yields_lowest :
    (n : ℕ) (w : Word n)
    → word_eq n w (zeros n) ≡ false
    → word_and n w (single n (trailing_zeros n w)) ≡ single n (trailing_zeros n w)
unfolding word_and single trailing_zeros word_eq zeros bit_eq
yields_lowest zero w h = refl
yields_lowest (suc n) (true, w) h = ap (λ x. (true, x)) (word_and-zeros n w)
yields_lowest (suc n) (false, w) h = ap (λ x. (false, x)) (yields_lowest n w h)

leaves_others : (n : ℕ) (w : Word n) → unset n w (single n (trailing_zeros n w)) ≡ clear_lowest n w
unfolding unset word_and word_not single trailing_zeros clear_lowest
leaves_others zero w = refl
leaves_others (suc n) (true, w) = ap (λ x. (false, x)) (word_and-word_not n w)
leaves_others (suc n) (false, w) = ap (λ x. (false, x)) (leaves_others n w)

next_lem :
    (n : ℕ) (w : Word n)
    → word_eq n w (zeros n) ≡ false
    → next n w ≡ some (single n (trailing_zeros n w), clear_lowest n w)
unfolding next
next_lem n w h = rw (h, yields_lowest n w h, leaves_others n w) refl

next-zeros : (n : ℕ) (w : Word n) → word_eq n w (zeros n) ≡ true → next n w ≡ none
unfolding next
next-zeros n w h = rw h refl

positions-zeros : (k n : ℕ) → positions_from k n (zeros n) ≡ []
unfolding positions_from zeros
positions-zeros k zero = refl
positions-zeros k (suc n) = positions-zeros (suc k) n

positions-clear_lowest :
    (k n : ℕ) (w : Word n)
    → word_eq n w (zeros n) ≡ false
    → positions_from k n w ≡ (k + trailing_zeros n w) ∷ positions_from k n (clear_lowest n w)
unfolding positions_from trailing_zeros clear_lowest word_eq zeros bit_eq
positions-clear_lowest k zero w h = cc
positions-clear_lowest k (suc n) (true, w) h =
    ap (λ x. x ∷ positions_from (suc k) n w) (omega arith)
positions-clear_lowest k (suc n) (false, w) h =
    let e : suc k + trailing_zeros n w ≡ k + suc (trailing_zeros n w) = omega arith in
    rw (positions-clear_lowest (suc k) n w h)
      (ap (λ x. x ∷ positions_from (suc k) n (clear_lowest n w)) e)

length-positions_from : (k n : ℕ) (w : Word n) → length (positions_from k n w) ≤ n
unfolding positions_from
length-positions_from k zero w = omega arith
length-positions_from k (suc n) (true, w) = omega (arith, length-positions_from (suc k) n w)
length-positions_from k (suc n) (false, w) = omega (arith, length-positions_from (suc k) n w)

iter_loop-positions :
    (fuel n : ℕ) (w : Word n)
    → length (positions n w) < fuel
    → iter_loop fuel n w ≡ map (single n) (positions n w)
unfolding iter_loop positions
iter_loop-positions zero n w l = absurd (omega arith)
iter_loop-positions (suc fuel) n w l = elim (Bool-cases (word_eq n w (zeros n))) [
  | inl e ↦
      let z = ap (positions_from 0 n) ((word_eq_iff n w (zeros n)).0 e) ∙ positions-zeros 0 n in
      rw (z, next-zeros n w e, iter_loop) refl
  | inr e ↦
      let z : 0 + trailing_zeros n w ≡ trailing_zeros n w = omega arith in
      let rest = positions_from 0 n (clear_lowest n w) in
      let p = positions-clear_lowest 0 n w e ∙ ap (λ x. x ∷ rest) z in
      rw (p, next_lem n w e, iter_loop)
        (ap (λ x. single n (trailing_zeros n w) ∷ x)
          (iter_loop-positions fuel n (clear_lowest n w) (omega (arith, l, ap length p))))
]

-- The iterator over flags yields the flag of each set bit, once, lowest first, and ends.
pub iter-positions : (n : ℕ) (w : Word n) → iter n w ≡ map (single n) (positions n w)
unfolding iter positions
iter-positions n w = iter_loop-positions (suc n) n w (omega (arith, length-positions_from 0 n w))

unfoldable pub elem : ℕ → List ℕ → Bool
elem i [] = false
elem i (k ∷ ks) = k == i || elem i ks

elem-above : (j k n : ℕ) (w : Word n) → j < k → elem j (positions_from k n w) ≡ false
unfolding elem positions_from
elem-above j k zero w h = refl
elem-above j k (suc n) (true, w) h = rw (elem-above j (suc k) n w (omega arith)) (ground arith)
elem-above j k (suc n) (false, w) h = elem-above j (suc k) n w (omega arith)

elem-positions_from :
    (k n : ℕ) (w : Word n) (i : ℕ) → elem (k + i) (positions_from k n w) ≡ bit n w i
unfolding elem positions_from bit
elem-positions_from k zero w i = refl
elem-positions_from k (suc n) (true, w) zero = ground arith
elem-positions_from k (suc n) (false, w) zero = elem-above (k + 0) (suc k) n w (omega arith)
elem-positions_from k (suc n) (true, w) (suc i) =
    let e : suc k + i ≡ k + suc i = omega arith in
    ground (arith, elem-positions_from (suc k) n w i, e)
elem-positions_from k (suc n) (false, w) (suc i) =
    let e : suc k + i ≡ k + suc i = omega arith in rw (← e) (elem-positions_from (suc k) n w i)

pub elem-positions : (n : ℕ) (w : Word n) (i : ℕ) → elem i (positions n w) ≡ bit n w i
unfolding positions
elem-positions n w i = let e : 0 + i ≡ i = omega arith in cc (elem-positions_from 0 n w i, e)

pub elem-All : {P : ℕ → Type 0} (ks : List ℕ) → ((k : ℕ) → elem k ks ≡ true → P k) → All P ks
unfolding elem
elem-All [] h = tt
elem-All (k ∷ ks) h = (h k (ground arith), elem-All ks (λ j e. h j (ground (arith, e))))

-- Every position is that of a bit.
pub positions-below : (n : ℕ) (w : Word n) → All (λ k. k < n) (positions n w)
positions-below n w =
    elem-All (positions n w) (λ k e. bit_below n w k (sym (elem-positions n w k) ∙ e))
