-- ===== src/Upsmc/Bits.antt =====
-- A machine word as its bits, lowest first, with the operators of Rust that the flags of
-- ups_status.rs and auth/permission.rs use.
pub mod Laws
pub mod Iter
pub mod Value
use nut_webgui.Prelude.{
  ℕ, zero, suc, ◌+◌, Bool, true, false, not, ◌&&◌, ◌||◌, if◌then◌else◌, Option, none, some, List,
  [], ◌∷◌,
}

abbrev pub Word : ℕ → Type 0
Word zero = Unit
Word (suc n) = Bool × Word n

-- Bit `i`; there is none from `n` on.
unfoldable pub bit : (n : ℕ) → Word n → ℕ → Bool
bit zero w i = false
bit (suc n) (b, w) zero = b
bit (suc n) (b, w) (suc i) = bit n w i

unfoldable pub zeros : (n : ℕ) → Word n
zeros zero = tt
zeros (suc n) = (false, zeros n)

-- `1 << i`.
unfoldable pub single : (n : ℕ) → ℕ → Word n
single zero i = tt
single (suc n) zero = (true, zeros n)
single (suc n) (suc i) = (false, single n i)

unfoldable pub word_or : (n : ℕ) → Word n → Word n → Word n
word_or zero v w = tt
word_or (suc n) (a, v) (b, w) = (a || b, word_or n v w)

unfoldable pub word_and : (n : ℕ) → Word n → Word n → Word n
word_and zero v w = tt
word_and (suc n) (a, v) (b, w) = (a && b, word_and n v w)

unfoldable pub word_not : (n : ℕ) → Word n → Word n
word_not zero w = tt
word_not (suc n) (b, w) = (not b, word_not n w)

unfoldable pub bit_eq : Bool → Bool → Bool
bit_eq true b = b
bit_eq false b = not b

unfoldable pub word_eq : (n : ℕ) → Word n → Word n → Bool
word_eq zero v w = true
word_eq (suc n) (a, v) (b, w) = bit_eq a b && word_eq n v w

unfoldable pub count_ones : (n : ℕ) → Word n → ℕ
count_ones zero w = 0
count_ones (suc n) (b, w) = (if b then 1 else 0) + count_ones n w

unfoldable pub trailing_zeros : (n : ℕ) → Word n → ℕ
trailing_zeros zero w = 0
trailing_zeros (suc n) (true, w) = 0
trailing_zeros (suc n) (false, w) = suc (trailing_zeros n w)

-- The methods that `UpsStatus` and `Permissions` share, word for word.
unfoldable pub has : (n : ℕ) → Word n → Word n → Bool
has n self rhs = word_eq n (word_and n self rhs) rhs

unfoldable pub set : (n : ℕ) → Word n → Word n → Word n
set n self value = word_or n self value

unfoldable pub unset : (n : ℕ) → Word n → Word n → Word n
unset n self value = word_and n self (word_not n value)

-- `Iter::next`.
unfoldable pub next : (n : ℕ) → Word n → Option (Word n × Word n)
next n state =
    let mask = single n (trailing_zeros n state) in
    let yield_val = word_and n state mask in
    if word_eq n state (zeros n) then none else some (yield_val, unset n state yield_val)

-- What a `for` loop over `iter()` sees, on fuel.
unfoldable pub iter_loop : ℕ → (n : ℕ) → Word n → List (Word n)
iter_loop zero n state = []
iter_loop (suc fuel) n state = elim (next n state) [
  | none ↦ []
  | some step ↦ step.0 ∷ iter_loop fuel n step.1
]

unfoldable pub iter : (n : ℕ) → Word n → List (Word n)
iter n = iter_loop (suc n) n
