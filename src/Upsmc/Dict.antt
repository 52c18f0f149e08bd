-- ===== src/Upsmc/Dict.antt =====
-- What the crates use of `HashMap` with texts as keys: a list of entries without its order.
use nut_webgui.Prelude.{
  ◌≡◌, refl, sym, ap, ◌∙◌, Bool, true, false, if◌then◌else◌, Option, none, some, List, [], ◌∷◌,
  Bool-cases, inl, inr,
}
use mathlib.Core.Option
use nut_webgui.Upsmc.Text.{Bytes, text_eq, text_eq_iff}

abbrev pub Dict : Type 0 → Type 0
Dict V = List (Bytes × V)

abbrev pub is_some : {A : Type 0} → Option A → Bool
is_some none = false
is_some (some x) = true

module _ {V : Type 0} where
  unfoldable pub lookup : Bytes → Dict V → Option V
  lookup key [] = none
  lookup key (entry ∷ rest) = if text_eq entry.0 key then some entry.1 else lookup key rest

  -- An entry that is there is replaced.
  unfoldable pub insert : Bytes → V → Dict V → Dict V
  insert key value [] = (key, value) ∷ []
  insert key value (entry ∷ rest) =
      let later = insert key value rest in
      if text_eq entry.0 key then (key, value) ∷ rest else entry ∷ later

  unfoldable pub remove : Bytes → Dict V → Dict V
  remove key [] = []
  remove key (entry ∷ rest) =
      let later = remove key rest in if text_eq entry.0 key then later else entry ∷ later

  -- What is written through `get_mut`.
  unfoldable pub update : Bytes → (V → V) → Dict V → Dict V
  update key f [] = []
  update key f (entry ∷ rest) =
      let later = update key f rest in
      if text_eq entry.0 key then (entry.0, f entry.1) ∷ rest else entry ∷ later

  unfoldable pub keys : Dict V → List Bytes
  keys [] = []
  keys (entry ∷ rest) = entry.0 ∷ keys rest

pub text_eq_self : (t : Bytes) → text_eq t t ≡ true
text_eq_self t = (text_eq_iff t t).1 refl

-- A key that is equal to another one compares as that one does.
pub text_eq-left : (a b c : Bytes) → text_eq a b ≡ true → text_eq a c ≡ text_eq b c
text_eq-left a b c h = ap (λ t. text_eq t c) ((text_eq_iff a b).0 h)

pub text_eq-right : (a b c : Bytes) → text_eq a b ≡ true → text_eq c a ≡ text_eq c b
text_eq-right a b c h = ap (text_eq c) ((text_eq_iff a b).0 h)

pub text_eq_comm : (a b : Bytes) → text_eq a b ≡ text_eq b a
text_eq_comm a b = elim (Bool-cases (text_eq a b)) [
  | inl e ↦ e ∙ sym ((text_eq_iff b a).1 (sym ((text_eq_iff a b).0 e)))
  | inr e ↦ elim (Bool-cases (text_eq b a)) [
    | inl f ↦ (text_eq_iff a b).1 (sym ((text_eq_iff b a).0 f)) ∙ sym f
    | inr f ↦ e ∙ sym f
  ]
]

module _ {V : Type 0} where
  pub lookup-insert :
      (j k : Bytes) (v : V) (m : Dict V)
      → lookup j (insert k v m) ≡ (if text_eq k j then some v else lookup j m)
  unfolding lookup insert
  lookup-insert j k v [] = refl
  lookup-insert j k v (entry ∷ rest) = elim (Bool-cases (text_eq entry.0 k)) [
    | inl e ↦ elim (Bool-cases (text_eq k j)) [
      | inl f ↦ rw (e, f) refl
      | inr f ↦ rw (e, text_eq-left entry.0 k j e, f) refl
    ]
    | inr e ↦ elim (Bool-cases (text_eq k j)) [
      | inl f ↦
          let other : text_eq entry.0 j ≡ false = sym (text_eq-right k j entry.0 f) ∙ e in
          rw (e, other) (lookup-insert j k v rest)
      | inr f ↦ elim (Bool-cases (text_eq entry.0 j)) [
        | inl g ↦ rw (e, g, f) refl
        | inr g ↦ rw (e, g) (lookup-insert j k v rest)
      ]
    ]
  ]

  pub lookup-remove :
      (j k : Bytes) (m : Dict V)
      → lookup j (remove k m) ≡ (if text_eq k j then none else lookup j m)
  unfolding lookup remove
  lookup-remove j k [] = elim (Bool-cases (text_eq k j)) [ inl e ↦ rw e refl | inr e ↦ rw e refl ]
  lookup-remove j k (entry ∷ rest) = elim (Bool-cases (text_eq entry.0 k)) [
    | inl e ↦ elim (Bool-cases (text_eq k j)) [
      | inl f ↦ rw (e, f) (lookup-remove j k rest ∙ rw f refl)
      | inr f ↦ rw (e, text_eq-left entry.0 k j e, f) (lookup-remove j k rest ∙ rw f refl)
    ]
    | inr e ↦ elim (Bool-cases (text_eq entry.0 j)) [
      | inl g ↦
          let other : text_eq k j ≡ false =
            sym (text_eq-right entry.0 j k g) ∙ text_eq_comm k entry.0 ∙ e in
          rw (e, g, other) refl
      | inr g ↦ rw (e, g) (lookup-remove j k rest)
    ]
  ]

  pub lookup-update :
      (j k : Bytes) (f : V → V) (m : Dict V)
      → lookup j (update k f m) ≡ (if text_eq k j then Option.map f (lookup j m) else lookup j m)
  unfolding lookup update
  lookup-update j k f [] = elim (Bool-cases (text_eq k j)) [ inl e ↦ rw e refl | inr e ↦ rw e refl ]
  lookup-update j k f (entry ∷ rest) = elim (Bool-cases (text_eq entry.0 k)) [
    | inl e ↦ elim (Bool-cases (text_eq k j)) [
      | inl g ↦ rw (e, text_eq-left entry.0 k j e, g) refl
      | inr g ↦ rw (e, text_eq-left entry.0 k j e, g) refl
    ]
    | inr e ↦ elim (Bool-cases (text_eq entry.0 j)) [
      | inl g ↦
          let other : text_eq k j ≡ false =
            sym (text_eq-right entry.0 j k g) ∙ text_eq_comm k entry.0 ∙ e in
          rw (e, g, other) refl
      | inr g ↦ rw (e, g) (lookup-update j k f rest)
    ]
  ]
