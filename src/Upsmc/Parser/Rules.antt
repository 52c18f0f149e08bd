-- ===== src/Upsmc/Parser/Rules.antt =====
-- The rules by which calls of internal/parser_utils.rs are followed: what a successful call
-- guarantees and consumes, and that each call ends.
use nut_webgui.Upsmc.Parser.{fail_at, expect_text}
use nut_webgui.Upsmc.Lexer.Total.{Scans-length, next_token_total}
use nut_webgui.Prelude.{
  Option-cases, sym, subst, none, some, inl, inr, Option, inr, inl, length, ℕ, ◌+◌, ◌≤◌, [], ◌≡◌,
  refl, arith,
}
use nut_webgui.Upsmc.Text.{Bytes}
use nut_webgui.Upsmc.Error.{ParseError, Result, ok, err, panic, diverged}
use nut_webgui.Upsmc.Lexer.{
  extract_from_token, or_panic, Token, lf, text, quoted_text, next_token, bind, State, M, ◌>>=◌,
}
use nut_webgui.Upsmc.Lexer.Cursor.{At}

-- From the front of `input` the call comes to an end. If it succeeds, its value has the property
-- `P`, and at least `cost` bytes are behind the lexer.
abbrev pub Returns : {A : Type 0} → Bytes → Bytes → ℕ → (A → Type 0) → Result A × State → Type 0
Returns buffer input cost P (ok a, t) =
    P a × ((rest : Bytes) × At buffer t rest × (length rest + cost ≤ length input))
Returns buffer input cost P (err e, t) = Unit
Returns buffer input cost P (panic, t) = Unit
Returns buffer input cost P (diverged, t) = ⊥

-- The rule for `>>=`: the costs add up.
pub Returns-bind :
    {A B : Type 0} {buffer : Bytes} (input : Bytes) (P : A → Type 0) (Q : B → Type 0) (j k : ℕ)
    (s : State) (m : M A) (f : A → M B)
    → Returns buffer input j P (m s)
    → ((a : A) (t : State) (rest : Bytes)
        → P a
        → At buffer t rest
        → length rest + j ≤ length input
        → Returns buffer rest k Q (f a t))
    → Returns buffer input (j + k) Q ((m >>= f) s)
Returns-bind {A} {B} {buffer} input P Q j k s m f h g = go (m s) h
  where
    weaken :
        (rest : Bytes) (r : Result B × State)
        → length rest + j ≤ length input
        → Returns buffer rest k Q r
        → Returns buffer input (j + k) Q r
    weaken rest (ok b, t) e (q, (last, v, l)) = (q, (last, v, omega arith))
    weaken rest (err x, t) e h = tt
    weaken rest (panic, t) e h = tt
    weaken rest (diverged, t) e h = h

    go :
        (r : Result A × State)
        → Returns buffer input j P r
        → Returns buffer input (j + k) Q (bind r f)
    go (ok a, t) (p, (rest, v, l)) = weaken rest (f a t) l (g a t rest p v l)
    go (err e, t) h = tt
    go (panic, t) h = tt
    go (diverged, t) h = h

-- A call that only looks at the token it was given.
abbrev pub Keeps : {A : Type 0} → (A → Type 0) → State → Result A × State → Type 0
Keeps P s (ok a, t) = P a × (t ≡ s)
Keeps P s (err e, t) = Unit
Keeps P s (panic, t) = Unit
Keeps P s (diverged, t) = ⊥

pub Keeps-Returns :
    {A : Type 0} {buffer : Bytes} (input : Bytes) (P : A → Type 0) (s : State)
    (r : Result A × State)
    → At buffer s input
    → Keeps P s r
    → Returns buffer input 0 P r
Keeps-Returns {buffer} input P s (ok a, t) v (p, e) =
    (p, (input, subst (λ x. At buffer x input) (sym e) v, omega arith))
Keeps-Returns input P s (err e, t) v h = tt
Keeps-Returns input P s (panic, t) v h = tt
Keeps-Returns input P s (diverged, t) v h = h

pub Returns-weaken :
    {A : Type 0} (buffer input rest : Bytes) (j k : ℕ) (P : A → Type 0) (r : Result A × State)
    → length rest + j ≤ length input + k
    → Returns buffer rest k P r
    → Returns buffer input j P r
Returns-weaken buffer input rest j k P (ok a, t) e (p, (last, v, l)) = (p, (last, v, omega arith))
Returns-weaken buffer input rest j k P (err x, t) e h = tt
Returns-weaken buffer input rest j k P (panic, t) e h = tt
Returns-weaken buffer input rest j k P (diverged, t) e h = h

module _ {A : Type 0} {buffer : Bytes} (input : Bytes) (P : A → Type 0) (s : State)
    (f : Option Token → M A) where
  -- A call that wants a token costs a byte.
  pub next_token-Returns :
      At buffer s input
      → ((t : State) → Keeps (λ a. ⊥) t (f none t))
      → ((token : Token) (t : State) → Keeps P t (f (some token) t))
      → Returns buffer input 1 P ((next_token buffer >>= f) s)
  next_token-Returns v g h = elim (next_token_total s v) [
    | inl (b, t, r, u) ↦ rw r (missing t (f none t) (g t))
    | inr (inl (lexeme, rest, k, (o, t, r, (token, e, d), u))) ↦
        rw (r, e)
          (Returns-weaken buffer input rest 1 0 P (f (some token) t) (omega (arith, Scans-length k))
            (Keeps-Returns rest P t (f (some token) t) u (h token t)))
    | inr (inr (u, (t, r))) ↦ rw r tt
  ]
    where
      missing : (t : State) (r : Result A × State) → Keeps (λ a. ⊥) t r → Returns buffer input 1 P r
      missing t (ok a, u) k = absurd k.0
      missing t (err e, u) k = tt
      missing t (panic, u) k = tt
      missing t (diverged, u) k = k

  -- A call that may do without a token.
  pub next_token-Returns_zero :
      At buffer s input
      → ((t : State) (rest : Bytes) → At buffer t rest → Keeps P t (f none t))
      → ((token : Token) (t : State) (rest : Bytes)
          → At buffer t rest
          → Returns buffer rest 0 P (f (some token) t))
      → Returns buffer input 0 P ((next_token buffer >>= f) s)
  next_token-Returns_zero v g h = elim (next_token_total s v) [
    | inl (b, t, r, u) ↦ rw r (
        Returns-weaken buffer input [] 0 0 P (f none t) (omega arith)
          (Keeps-Returns [] P t (f none t) u (g t [] u)))
    | inr (inl (lexeme, rest, k, (o, t, r, (token, e, d), u))) ↦
        rw (r, e)
          (Returns-weaken buffer input rest 0 0 P (f (some token) t) (omega (arith, Scans-length k))
            (h token t rest u))
    | inr (inr (u, (t, r))) ↦ rw r tt
  ]

pub or_panic-Keeps :
    {A : Type 0} (o : Option A) (s : State) → Keeps (λ a. Unit {0}) s (or_panic o s)
or_panic-Keeps none s = tt
or_panic-Keeps (some a) s = (tt, refl)

-- A text, then a test of it.
pub text_then :
    {A : Type 0} (buffer : Bytes) (missing : ParseError) (P : A → Type 0) (g : Bytes → M A)
    → ((t : Bytes) (s : State) → Keeps P s (g t s))
    → (o : Option Token) (s : State) → Keeps P s ((expect_text buffer missing o >>= g) s)
unfolding expect_text fail_at
text_then buffer missing P g h (some (text start end)) s =
    elim (Option-cases (extract_from_token buffer (text start end))) [
      | inl e ↦ rw e tt
      | inr (t, e) ↦ rw e (h t s)
    ]
text_then buffer missing P g h (some lf) s = tt
text_then buffer missing P g h (some (quoted_text start end)) s = tt
text_then buffer missing P g h none s = tt

pub Keeps-bind :
    {A B : Type 0} (P : A → Type 0) (Q : B → Type 0) (s : State) (m : M A) (f : A → M B)
    → Keeps P s (m s)
    → ((a : A) → P a → Keeps Q s (f a s))
    → Keeps Q s ((m >>= f) s)
Keeps-bind {A} {B} P Q s m f h g = go (m s) h
  where
    go : (r : Result A × State) → Keeps P s r → Keeps Q s (bind r f)
    go (ok a, t) (p, e) = rw e (g a p)
    go (err e, t) k = tt
    go (panic, t) k = tt
    go (diverged, t) k = k

-- The rule for `>>=` where what is consumed does not matter, or only the first call's.
pub Returns-then :
    {A B : Type 0} {buffer : Bytes} (input : Bytes) (P : A → Type 0) (Q : B → Type 0) (j : ℕ)
    (s : State) (m : M A) (f : A → M B)
    → Returns buffer input j P (m s)
    → ((a : A) (t : State) (rest : Bytes)
        → P a
        → At buffer t rest
        → length rest + j ≤ length input
        → Returns buffer rest 0 Q (f a t))
    → Returns buffer input 0 Q ((m >>= f) s)
Returns-then {buffer} input P Q j s m f h g =
    Returns-weaken buffer input input 0 (j + 0) Q ((m >>= f) s) (omega arith)
      (Returns-bind input P Q j 0 s m f h g)
