-- ===== src/Auth/Users/Hash.antt =====
-- auth/user_store.rs: cmp_hash compares the hashes.
use nut_webgui.Prelude.{
  ◌≤◌, ◌≡◌, refl, ap, sym, ◌∙◌, ℕ, zero, suc, ◌+◌, ◌^◌, ◌<◌, true, false, ◌↔◌, take, drop, All,
  length, arith, ◌++◌, [], ◌∷◌, take-append-drop, subst,
}
use nut_webgui.Upsmc.Text.{Bytes}
use nut_webgui.Upsmc.Bits.{Word, bit_eq, word_or, word_eq, zeros}
use nut_webgui.Upsmc.Bits.Laws.{word_eq_iff}
use nut_webgui.Upsmc.Bits.Value.{of_nat, to_nat, to_nat-of_nat}
use nut_webgui.Auth.LittleEndian.{from_le_bytes, to_le_bytes, to_le_bytes-from_le_bytes, IsByte}
use nut_webgui.Auth.Users.{word_xor, read_u128, cmp_hash}

or_zeros : (n : ℕ) (v w : Word n) → word_or n v w ≡ zeros n → (v ≡ zeros n) × (w ≡ zeros n)
unfolding word_or zeros
or_zeros zero v w h = (refl, refl)
or_zeros (suc n) (true, v) (b, w) h = absurd (cc (ap (λ x. x.0) h))
or_zeros (suc n) (false, v) (true, w) h = absurd (cc (ap (λ x. x.0) h))
or_zeros (suc n) (false, v) (false, w) h =
    let (p, q) = or_zeros n v w (ap (λ x. x.1) h) in
    (ap (λ x. (false, x)) p, ap (λ x. (false, x)) q)

zeros-word_or : (n : ℕ) (w : Word n) → word_or n (zeros n) w ≡ w
unfolding word_or zeros
zeros-word_or zero w = refl
zeros-word_or (suc n) (b, w) = ap (λ x. (b, x)) (zeros-word_or n w)

xor_zeros : (n : ℕ) (v w : Word n) → word_xor n v w ≡ zeros n → v ≡ w
unfolding word_xor zeros bit_eq
xor_zeros zero v w h = refl
xor_zeros (suc n) (true, v) (true, w) h = ap (λ x. (true, x)) (xor_zeros n v w (ap (λ x. x.1) h))
xor_zeros (suc n) (false, v) (false, w) h = ap (λ x. (false, x)) (xor_zeros n v w (ap (λ x. x.1) h))
xor_zeros (suc n) (true, v) (false, w) h = absurd (cc (ap (λ x. x.0) h))
xor_zeros (suc n) (false, v) (true, w) h = absurd (cc (ap (λ x. x.0) h))

xor_self : (n : ℕ) (w : Word n) → word_xor n w w ≡ zeros n
unfolding word_xor zeros bit_eq
xor_self zero w = refl
xor_self (suc n) (true, w) = ap (λ x. (false, x)) (xor_self n w)
xor_self (suc n) (false, w) = ap (λ x. (false, x)) (xor_self n w)

-- What cmp_hash computes of two pairs of words is whether they are the same.
word_or_xor_iff :
    (n : ℕ) (a b c d : Word n)
    → (word_eq n (word_or n (word_or n (zeros n) (word_xor n a b)) (word_xor n c d)) (zeros n)
        ≡ true)
      ↔ ((a ≡ b) × (c ≡ d))
word_or_xor_iff n a b c d = (
  λ h.
      let (p, q) = or_zeros n _ _ ((word_eq_iff n _ (zeros n)).0 h) in
      (xor_zeros n a b (sym (zeros-word_or n (word_xor n a b)) ∙ p), xor_zeros n c d q),
  λ (p, q). (word_eq_iff n _ (zeros n)).1 (
      rw (p, q, xor_self n b, xor_self n d, zeros-word_or n (zeros n)) (zeros-word_or n (zeros n))),
)

from_le_bytes-lt : (n : ℕ) (bs : Bytes) → All IsByte bs → length bs ≡ n → from_le_bytes bs < 256 ^ n
unfolding from_le_bytes
from_le_bytes-lt zero [] h l = omega arith
from_le_bytes-lt zero (b ∷ bs) h l = absurd (omega (arith, l))
from_le_bytes-lt (suc n) [] h l = absurd (omega (arith, l))
from_le_bytes-lt (suc n) (b ∷ bs) h l =
    let below : length bs ≡ n = omega (arith, l) in
    omega (arith, h.0, from_le_bytes-lt n bs h.1 below)

from_le_bytes_injective :
    (a b : Bytes)
    → All IsByte a
    → All IsByte b
    → length a ≡ length b
    → from_le_bytes a ≡ from_le_bytes b
    → a ≡ b
from_le_bytes_injective a b h k l e =
    sym (to_le_bytes-from_le_bytes a h)
    ∙ ap (λ n. to_le_bytes n (from_le_bytes a)) l
    ∙ ap (to_le_bytes (length b)) e
    ∙ to_le_bytes-from_le_bytes b k

-- A hash of 32 bytes.
abbrev pub IsHash : Bytes → Type 0
IsHash h = (length h ≡ 32) × All IsByte h

All-take : (n : ℕ) (bs : Bytes) → All IsByte bs → All IsByte (take n bs)
All-take zero bs h = tt
All-take (suc n) [] h = tt
All-take (suc n) (b ∷ bs) h = (h.0, All-take n bs h.1)

All-drop : (n : ℕ) (bs : Bytes) → All IsByte bs → All IsByte (drop n bs)
All-drop zero bs h = h
All-drop (suc n) [] h = tt
All-drop (suc n) (b ∷ bs) h = All-drop n bs h.1

halves_length :
    (n : ℕ) (bs : Bytes)
    → n ≤ length bs
    → (length (take n bs) ≡ n) × (length (drop n bs) + n ≡ length bs)
halves_length zero bs h = (refl, omega arith)
halves_length (suc n) [] h = absurd (omega (arith, h))
halves_length (suc n) (b ∷ bs) h =
    let (p, q) = halves_length n bs (omega (arith, h)) in (omega (arith, p), omega (arith, q))

take_all : (n : ℕ) (bs : Bytes) → length bs ≤ n → take n bs ≡ bs
take_all zero [] h = refl
take_all zero (b ∷ bs) h = absurd (omega (arith, h))
take_all (suc n) [] h = refl
take_all (suc n) (b ∷ bs) h = ap (λ x. b ∷ x) (take_all n bs (omega (arith, h)))

-- Sixteen bytes are known from their word.
word_injective :
    (a b : Bytes)
    → All IsByte a
    → All IsByte b
    → length a ≡ 16
    → length b ≡ 16
    → of_nat 128 (from_le_bytes a) ≡ of_nat 128 (from_le_bytes b)
    → a ≡ b
word_injective a b h k l m e = from_le_bytes_injective a b h k (l ∙ sym m) (
    sym (to_nat-of_nat 128 _ (from_le_bytes-lt 16 a h l))
    ∙ ap (to_nat 128) e
    ∙ to_nat-of_nat 128 _ (from_le_bytes-lt 16 b k m))

-- The second read takes what is behind the first sixteen bytes.
second : (a : Bytes) → IsHash a → (take 16 (drop 16 a) ≡ drop 16 a) × (length (drop 16 a) ≡ 16)
second a h =
    let (p, q) = halves_length 16 a (omega (arith, h.0)) in
    let half : length (drop 16 a) ≡ 16 = omega (arith, q, h.0) in
    (take_all 16 (drop 16 a) (omega (arith, half)), half)

-- Two hashes compare as equal exactly if they are the same bytes.
pub cmp_hash_iff : (a b : Bytes) → IsHash a → IsHash b → (cmp_hash a b ≡ true) ↔ (a ≡ b)
unfolding cmp_hash read_u128
cmp_hash_iff a b ha hb = (
  λ h.
      let (p, q) = (word_or_xor_iff 128 _ _ _ _).0 h in
      let (ea, na) = second a ha in
      let (eb, nb) = second b hb in
      let low : take 16 a ≡ take 16 b =
        word_injective (take 16 a) (take 16 b) (All-take 16 a ha.1) (All-take 16 b hb.1)
          (halves_length 16 a (omega (arith, ha.0))).0 (halves_length 16 b (omega (arith, hb.0))).0
          p in
      let high : drop 16 a ≡ drop 16 b =
        word_injective (drop 16 a) (drop 16 b) (All-drop 16 a ha.1) (All-drop 16 b hb.1) na nb (
          ap (λ x. of_nat 128 (from_le_bytes x)) (sym ea)
          ∙ q
          ∙ ap (λ x. of_nat 128 (from_le_bytes x)) eb) in
      sym (take-append-drop 16 a)
      ∙ ap (λ x. x ++ drop 16 a) low
      ∙ ap (λ x. take 16 b ++ x) high
      ∙ take-append-drop 16 b,
  λ e. subst (λ x. cmp_hash a x ≡ true) e ((word_or_xor_iff 128 _ _ _ _).1 (refl, refl)),
)
