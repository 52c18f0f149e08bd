-- ===== src/Upsmc/Bits/Value.antt =====
-- The number that a word stands for, and the word of a number.
use nut_webgui.Prelude.{
  ℕ, zero, suc, ◌+◌, ◌*◌, ◌/◌, ◌%◌, ◌^◌, ◌<◌, ◌≡◌, refl, true, false, if◌then◌else◌, ◌==◌,
  Bool-cases, inl, inr, arith,
}
use nut_webgui.Upsmc.Bits.{Word}

unfoldable pub to_nat : (n : ℕ) → Word n → ℕ
to_nat zero w = 0
to_nat (suc n) (b, w) = (if b then 1 else 0) + 2 * to_nat n w

unfoldable pub of_nat : (n : ℕ) → ℕ → Word n
of_nat zero v = tt
of_nat (suc n) v = (v % 2 == 1, of_nat n (v / 2))

pub of_nat-to_nat : (n : ℕ) (w : Word n) → of_nat n (to_nat n w) ≡ w
unfolding of_nat to_nat
of_nat-to_nat zero w = refl
of_nat-to_nat (suc n) (true, w) =
    let odd : (1 + 2 * to_nat n w) % 2 ≡ 1 = omega arith in
    let half : (1 + 2 * to_nat n w) / 2 ≡ to_nat n w = omega arith in
    rw (odd, half, of_nat-to_nat n w) refl
of_nat-to_nat (suc n) (false, w) =
    let even : (0 + 2 * to_nat n w) % 2 ≡ 0 = omega arith in
    let half : (0 + 2 * to_nat n w) / 2 ≡ to_nat n w = omega arith in
    rw (even, half, of_nat-to_nat n w) refl

pub to_nat-of_nat : (n v : ℕ) → v < 2 ^ n → to_nat n (of_nat n v) ≡ v
unfolding of_nat to_nat
to_nat-of_nat zero v h = omega (arith, h)
to_nat-of_nat (suc n) v h =
    let half : v / 2 < 2 ^ n = omega (arith, h) in
    elim (Bool-cases (v % 2 == 1)) [
      | inl e ↦ rw (e, to_nat-of_nat n (v / 2) half) (ground (arith, e))
      | inr e ↦ rw (e, to_nat-of_nat n (v / 2) half) (ground (arith, e))
    ]

pub to_nat-lt : (n : ℕ) (w : Word n) → to_nat n w < 2 ^ n
unfolding to_nat
to_nat-lt zero w = omega arith
to_nat-lt (suc n) (true, w) = omega (arith, to_nat-lt n w)
to_nat-lt (suc n) (false, w) = omega (arith, to_nat-lt n w)
