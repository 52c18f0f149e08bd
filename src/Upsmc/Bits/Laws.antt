-- ===== src/Upsmc/Bits/Laws.antt =====
-- The flag methods of ups_status.rs and auth/permission.rs, bit by bit.
use nut_webgui.Prelude.{
  ◌∙◌, ==_iff, inr, inl, Bool-cases, ◌≤◌, ℕ, zero, suc, ◌<◌, ◌≡◌, refl, ap, true, false, not, ◌&&◌,
  ◌||◌, ◌↔◌, ◌==◌, ltb, arith,
}
use nut_webgui.Upsmc.Bits.{
  unset, has, Word, bit, zeros, single, word_or, word_and, word_not, word_eq, bit_eq,
}

pub bit-zeros : (n i : ℕ) → bit n (zeros n) i ≡ false
unfolding bit zeros
bit-zeros zero i = refl
bit-zeros (suc n) zero = refl
bit-zeros (suc n) (suc i) = bit-zeros n i

pub bit-single : (n k i : ℕ) → bit n (single n k) i ≡ (k == i && ltb k n)
unfolding bit single
bit-single zero k i = ground arith
bit-single (suc n) zero zero = ground arith
bit-single (suc n) zero (suc i) = rw (bit-zeros n i) (ground arith)
bit-single (suc n) (suc k) zero = ground arith
bit-single (suc n) (suc k) (suc i) = rw (bit-single n k i) (ground arith)

pub bit-word_or :
    (n : ℕ) (v w : Word n) (i : ℕ) → bit n (word_or n v w) i ≡ (bit n v i || bit n w i)
unfolding bit word_or
bit-word_or zero v w i = refl
bit-word_or (suc n) (a, v) (b, w) zero = refl
bit-word_or (suc n) (a, v) (b, w) (suc i) = bit-word_or n v w i

pub bit-word_and :
    (n : ℕ) (v w : Word n) (i : ℕ) → bit n (word_and n v w) i ≡ (bit n v i && bit n w i)
unfolding bit word_and
bit-word_and zero v w i = refl
bit-word_and (suc n) (a, v) (b, w) zero = refl
bit-word_and (suc n) (a, v) (b, w) (suc i) = bit-word_and n v w i

pub bit-word_not :
    (n : ℕ) (w : Word n) (i : ℕ) → bit n (word_not n w) i ≡ (not (bit n w i) && ltb i n)
unfolding bit word_not
bit-word_not zero w i = ground arith
bit-word_not (suc n) (b, w) zero = ground arith
bit-word_not (suc n) (b, w) (suc i) = rw (bit-word_not n w i) (ground arith)

-- Two words with the same bits are equal.
pub bits_equal : (n : ℕ) (v w : Word n) → ((i : ℕ) → bit n v i ≡ bit n w i) → v ≡ w
unfolding bit
bits_equal zero v w h = refl
bits_equal (suc n) (a, v) (b, w) h = cc (h 0, bits_equal n v w (λ i. h (suc i)))

pub word_eq_iff : (n : ℕ) (v w : Word n) → (word_eq n v w ≡ true) ↔ (v ≡ w)
unfolding word_eq bit_eq
word_eq_iff zero v w = (λ h. refl, λ h. refl)
word_eq_iff (suc n) (true, v) (true, w) =
    let (f, g) = word_eq_iff n v w in (λ h. cc (f h), λ h. g (ap (λ x. x.1) h))
word_eq_iff (suc n) (true, v) (false, w) = (λ h. cc, λ h. cc)
word_eq_iff (suc n) (false, v) (true, w) = (λ h. cc, λ h. cc)
word_eq_iff (suc n) (false, v) (false, w) =
    let (f, g) = word_eq_iff n v w in (λ h. cc (f h), λ h. g (ap (λ x. x.1) h))

pub bit_below : (n : ℕ) (w : Word n) (i : ℕ) → bit n w i ≡ true → i < n
unfolding bit
bit_below zero w i h = cc
bit_below (suc n) (b, w) zero h = omega arith
bit_below (suc n) (b, w) (suc i) h = omega (arith, bit_below n w i h)

pub bit_beyond : (n : ℕ) (w : Word n) (i : ℕ) → n ≤ i → bit n w i ≡ false
bit_beyond n w i l = elim (Bool-cases (bit n w i)) [
  | inl e ↦ absurd (omega (arith, l, bit_below n w i e))
  | inr e ↦ e
]

pub bit-unset :
    (n : ℕ) (v w : Word n) (i : ℕ) → bit n (unset n v w) i ≡ (bit n v i && not (bit n w i))
unfolding unset
bit-unset n v w i = elim (Bool-cases (ltb i n)) [
  | inl l ↦ rw (bit-word_and n v (word_not n w) i, bit-word_not n w i, l) (ground arith)
  | inr l ↦ rw (bit-word_and n v (word_not n w) i, bit_beyond n v i (ground (arith, l))) refl
]

-- The test `has` asks for every bit of the right operand, and for no other.
pub has_iff :
    (n : ℕ) (self rhs : Word n)
    → (has n self rhs ≡ true) ↔ ((i : ℕ) → bit n rhs i ≡ true → bit n self i ≡ true)
unfolding has
has_iff n self rhs = (
  λ h i k.
      let e = ap (λ w. bit n w i) ((word_eq_iff n (word_and n self rhs) rhs).0 h) in
      ground (arith, bit-word_and n self rhs i, e, k),
  λ h. (word_eq_iff n (word_and n self rhs) rhs).1 (
      bits_equal n _ _ λ i. elim (Bool-cases (bit n rhs i)) [
        | inl e ↦ bit-word_and n self rhs i ∙ ground (arith, e, h i e)
        | inr e ↦ bit-word_and n self rhs i ∙ ground (arith, e)
      ]),
)

pub word_eq-single : (n k j : ℕ) → k < n → word_eq n (single n k) (single n j) ≡ (k == j)
word_eq-single n k j l = elim (Bool-cases (k == j)) [
  | inl e ↦ rw ((==_iff k j).0 e, (word_eq_iff n (single n j) (single n j)).1 refl) (ground arith)
  | inr e ↦ elim (Bool-cases (word_eq n (single n k) (single n j))) [
    | inl h ↦
        let s = ap (λ w. bit n w k) ((word_eq_iff n (single n k) (single n j)).0 h) in
        absurd (ground (arith, e, l, s, bit-single n k k, bit-single n j k))
    | inr h ↦ rw (h, e) refl
  ]
]
