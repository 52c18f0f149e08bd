-- ===== src/Upsmc/Values/Variables.antt =====
-- ups_variables.rs as the list responses fill it.
use nut_webgui.Prelude.{
  ◌≡◌, refl, sym, ap, ◌∙◌, true, false, if◌then◌else◌, Option, none, some, List, [], ◌∷◌,
  Bool-cases, inl, inr,
}
use nut_webgui.Upsmc.Text.{Bytes, text_eq, text_eq_iff}
use nut_webgui.Upsmc.Value.{Value}
use nut_webgui.Upsmc.Values.{UpsVariables, insert, get, insert_all}

-- The last value among the lines for this name, or else the given one.
unfoldable pub last_value :
    {F : Type 0} → Bytes → List (Bytes × Value F) → Option (Value F) → Option (Value F)
last_value name [] value = value
last_value name (entry ∷ entries) value =
    last_value name entries (if text_eq entry.0 name then some entry.1 else value)

text_eq-same : (t : Bytes) → text_eq t t ≡ true
text_eq-same t = (text_eq_iff t t).1 refl

get-insert :
    {F : Type 0} (name key : Bytes) (value : Value F) (variables : UpsVariables F)
    → get name (insert key value variables)
      ≡ (if text_eq key name then some value else get name variables)
unfolding get insert
get-insert name key value [] = refl
get-insert name key value (entry ∷ rest) = elim (Bool-cases (text_eq entry.0 key)) [
  | inl e ↦ elim (Bool-cases (text_eq key name)) [
    | inl k ↦ rw (e, k) refl
    | inr k ↦
        let same : text_eq entry.0 name ≡ false =
          ap (λ t. text_eq t name) ((text_eq_iff entry.0 key).0 e) ∙ k in
        rw (e, k, same) refl
  ]
  | inr e ↦ elim (Bool-cases (text_eq entry.0 name)) [
    | inl n ↦
        let other : text_eq key name ≡ false = elim (Bool-cases (text_eq key name)) [
          | inl k ↦
              let same = (text_eq_iff entry.0 name).0 n ∙ sym ((text_eq_iff key name).0 k) in
              absurd (cc ((text_eq_iff entry.0 key).1 same, e))
          | inr k ↦ k
        ] in
        rw (e, n, other) refl
    | inr n ↦ rw (e, n) (get-insert name key value rest)
  ]
]

get-insert_all :
    {F : Type 0} (name : Bytes) (variables : UpsVariables F) (entries : List (Bytes × Value F))
    → get name (insert_all variables entries) ≡ last_value name entries (get name variables)
unfolding insert_all last_value
get-insert_all name variables [] = refl
get-insert_all name variables (entry ∷ entries) =
    get-insert_all name (insert entry.0 entry.1 variables) entries
    ∙ ap (last_value name entries) (get-insert name entry.0 entry.1 variables)

-- The entries that are put into an empty map one after the other leave the last value of a name.
pub get-variables :
    {F : Type 0} (name : Bytes) (entries : List (Bytes × Value F))
    → get name (insert_all [] entries) ≡ last_value name entries none
unfolding get
get-variables name entries = get-insert_all name [] entries
