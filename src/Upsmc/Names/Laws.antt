-- ===== src/Upsmc/Names/Laws.antt =====
-- A text is a name exactly when it is one lexeme of the protocol of the right alphabet.
use nut_webgui.Prelude.{
  ◌⊎◌, ◌≤◌, ℕ, inr, inl, Bool, List, Bool-cases, false, arith, ◌↔◌, true, refl, All, ◌≢◌, [], ◌∷◌,
  ◌≡◌,
}
use nut_webgui.Upsmc.Text.{
  is_ascii_alphabetic, is_ascii_whitespace, text_eq_iff, codes, text_eq, Bytes,
}
use Prim.Native.String.{String}
use nut_webgui.Upsmc.Names.VarName.{standard_names, is_standard, var_name_new}
use nut_webgui.Upsmc.Names.{
  invalid, is_ascii_rfc9271, no_whitespace, is_var_name, is_ups_name, is_cmd_name, all_rfc9271,
  valid,
}

abbrev pub IsUpsName : Bytes → Type 0
IsUpsName t = (t ≢ []) × All (λ c. is_ascii_whitespace c ≡ false) t

-- Names of commands and variables: a letter, then letters, digits and `-`, `.`, `_`.
abbrev pub IsName : Bytes → Type 0
IsName [] = ⊥
IsName (c ∷ cs) = (is_ascii_alphabetic c ≡ true) × All (λ x. is_ascii_rfc9271 x ≡ true) (c ∷ cs)

no_whitespace_iff :
    (t : Bytes) → (no_whitespace t ≡ valid) ↔ All (λ c. is_ascii_whitespace c ≡ false) t
unfolding no_whitespace
no_whitespace_iff [] = (λ _. tt, λ _. refl)
no_whitespace_iff (c ∷ cs) =
    let (f, g) = no_whitespace_iff cs in (λ h. ground (arith, f), λ h. ground (arith, g h.1))

all_rfc9271_iff : (t : Bytes) → (all_rfc9271 t ≡ valid) ↔ All (λ c. is_ascii_rfc9271 c ≡ true) t
unfolding all_rfc9271
all_rfc9271_iff [] = (λ _. tt, λ _. refl)
all_rfc9271_iff (c ∷ cs) =
    let (f, g) = all_rfc9271_iff cs in (λ h. ground (arith, f), λ h. ground (arith, g h.1))

-- A UPS name is accepted exactly when it is not empty and holds no white space.
pub is_ups_name_iff : (t : Bytes) → (is_ups_name t ≡ valid) ↔ IsUpsName t
unfolding is_ups_name
is_ups_name_iff [] = (λ h. cc, λ h. absurd (h.0 refl))
is_ups_name_iff (c ∷ cs) =
    let (f, g) = no_whitespace_iff (c ∷ cs) in (λ h. (λ e. cc, f h), λ h. g h.1)

-- A command name is accepted exactly when it is a letter followed by letters, digits, hyphens,
-- dots and underscores.
pub is_cmd_name_iff : (t : Bytes) → (is_cmd_name t ≡ valid) ↔ IsName t
unfolding is_cmd_name
is_cmd_name_iff [] = (λ h. cc, λ h. absurd h)
is_cmd_name_iff (c ∷ cs) =
    let (f, g) = all_rfc9271_iff (c ∷ cs) in (λ h. ground (arith, f), λ h. ground (arith, g h.1))

pub is_var_name-is_cmd_name : (t : Bytes) → is_var_name t ≡ is_cmd_name t
unfolding is_var_name is_cmd_name
is_var_name-is_cmd_name [] = refl
is_var_name-is_cmd_name (c ∷ cs) = refl

-- Each standard name passes the test that is skipped for it.
all_valid : List String → Bool
all_valid [] = true
all_valid (n ∷ ns) = elim (is_var_name (codes n)) [ valid ↦ all_valid ns | invalid e ↦ false ]

standard_names_valid : all_valid standard_names ≡ true
unfolding all_valid is_var_name is_ascii_alphabetic is_ascii_rfc9271
standard_names_valid = refl

is_standard-is_var_name :
    (ns : List String) (t : Bytes)
    → all_valid ns ≡ true
    → is_standard ns t ≡ true
    → is_var_name t ≡ valid
unfolding all_valid is_standard
is_standard-is_var_name [] t h k = cc
is_standard-is_var_name (n ∷ ns) t h k = elim (Bool-cases (text_eq (codes n) t)) [
  | inl e ↦ rw (← (text_eq_iff (codes n) t).0 e) (ground arith)
  | inr e ↦ is_standard-is_var_name ns t (ground arith) (ground arith)
]

-- A variable name is accepted exactly when it has a command name's form, standard or not.
pub var_name_new_iff : (t : Bytes) → (var_name_new t ≡ valid) ↔ IsName t
unfolding var_name_new
var_name_new_iff t =
    let custom : (is_var_name t ≡ valid) ↔ IsName t =
      rw (is_var_name-is_cmd_name t) (is_cmd_name_iff t) in
    elim (Bool-cases (is_standard standard_names t)) [
      | inl e ↦ (
        λ h. custom.0 (is_standard-is_var_name standard_names t standard_names_valid e),
        λ h. rw e,
      )
      | inr e ↦ rw e custom
    ]

-- Letters, and the other characters of names, as codes of ASCII.
abbrev pub IsLetter : ℕ → Type 0
IsLetter c = ((65 ≤ c) × (c ≤ 90)) ⊎ ((97 ≤ c) × (c ≤ 122))

abbrev pub IsNameCharacter : ℕ → Type 0
IsNameCharacter c = IsLetter c ⊎ (((48 ≤ c) × (c ≤ 57)) ⊎ ((c ≡ b'-') ⊎ ((c ≡ b'.') ⊎ (c ≡ b'_'))))

-- Space, tab, line feed, form feed and carriage return.
abbrev pub IsSpace : ℕ → Type 0
IsSpace c = (c ≡ 32) ⊎ ((c ≡ 9) ⊎ ((c ≡ 10) ⊎ ((c ≡ 12) ⊎ (c ≡ 13))))

abbrev pub IsDeviceName : Bytes → Type 0
IsDeviceName t = (t ≢ []) × All (λ c. ¬ IsSpace c) t

abbrev pub IsDottedName : Bytes → Type 0
IsDottedName [] = ⊥
IsDottedName (c ∷ cs) = IsLetter c × All IsNameCharacter cs

is_ascii_alphabetic_iff : (c : ℕ) → (is_ascii_alphabetic c ≡ true) ↔ IsLetter c
unfolding is_ascii_alphabetic
is_ascii_alphabetic_iff c = (λ h. ground arith, λ h. ground arith)

is_ascii_rfc9271_iff : (c : ℕ) → (is_ascii_rfc9271 c ≡ true) ↔ IsNameCharacter c
unfolding is_ascii_rfc9271
is_ascii_rfc9271_iff c = (λ h. ground arith, λ h. ground arith)

is_ascii_whitespace_iff : (c : ℕ) → (is_ascii_whitespace c ≡ false) ↔ (¬ IsSpace c)
unfolding is_ascii_whitespace
is_ascii_whitespace_iff c = (λ h. ground arith, λ h. ground arith)

All_iff : {P Q : ℕ → Type 0} (f : (c : ℕ) → P c ↔ Q c) (t : Bytes) → All P t ↔ All Q t
All_iff f [] = (λ h. h, λ h. h)
All_iff f (c ∷ cs) =
    let (g, k) = All_iff f cs in (λ h. ((f c).0 h.0, g h.1), λ h. ((f c).1 h.0, k h.1))

IsUpsName-IsDeviceName : (t : Bytes) → IsUpsName t ↔ IsDeviceName t
IsUpsName-IsDeviceName t =
    let (f, g) = All_iff is_ascii_whitespace_iff t in (λ h. (h.0, f h.1), λ h. (h.0, g h.1))

IsName-IsDottedName : (t : Bytes) → IsName t ↔ IsDottedName t
IsName-IsDottedName [] = (λ h. h, λ h. h)
IsName-IsDottedName (c ∷ cs) =
    let (f, g) = All_iff is_ascii_rfc9271_iff cs in
    let (letter, alphabetic) = is_ascii_alphabetic_iff c in
    (
      λ h. (letter h.0, f h.1.1),
      λ h. (alphabetic h.0, ((is_ascii_rfc9271_iff c).1 (inl h.0), g h.1)),
    )

iff_trans : {P Q R : Type 0} → P ↔ Q → Q ↔ R → P ↔ R
iff_trans f g = (λ p. g.0 (f.0 p), λ r. f.1 (g.1 r))

-- A UPS name is accepted exactly when it is not empty and holds no space, tab, line feed, form
-- feed or carriage return; a command name and a variable name, standard or not, exactly when it is
-- a letter of ASCII followed by letters and digits of ASCII, hyphens, dots and underscores.
pub names_iff :
    (t : Bytes)
    → ((is_ups_name t ≡ valid) ↔ IsDeviceName t)
      × ((is_cmd_name t ≡ valid) ↔ IsDottedName t)
      × ((var_name_new t ≡ valid) ↔ IsDottedName t)
names_iff t = (
  iff_trans (is_ups_name_iff t) (IsUpsName-IsDeviceName t),
  iff_trans (is_cmd_name_iff t) (IsName-IsDottedName t),
  iff_trans (var_name_new_iff t) (IsName-IsDottedName t),
)
