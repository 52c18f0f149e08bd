-- ===== src/Sync/Descriptions/Once.antt =====
-- sync/sync_desc.rs: each missing description is asked for once.
use nut_webgui.Prelude.{
  refl, Option-cases, ◌≡◌, ap, ◌∙◌, ℕ, ◌+◌, Bool, false, ◌||◌, if◌then◌else◌, none, some, List, [],
  ◌∷◌, Bool-cases, inl, inr, arith,
}
use nut_webgui.Upsmc.Text.{Bytes, text_eq, text_eq_iff}
use nut_webgui.Upsmc.Dict.{Dict, lookup, keys, is_some}
use nut_webgui.Sync.State.{DeviceEntry}
use nut_webgui.Sync.Descriptions.{task_contexts, push_context, TaskContext, has_name, unknown_names}

-- How often a name stands in a list.
unfoldable pub count : Bytes → List Bytes → ℕ
count name [] = 0
count name (x ∷ xs) = (if text_eq x name then 1 else 0) + count name xs

-- How many requests for the description of a name some contexts make.
unfoldable pub requests : Bytes → List TaskContext → ℕ
requests name [] = 0
requests name (ctx ∷ rest) = count name ctx.vars + (count name ctx.cmds + requests name rest)

-- A device with one of these names has a variable or a command of that name.
unfoldable pub is_mentioned : {F : Type 0} → Dict (DeviceEntry F) → List Bytes → Bytes → Bool
is_mentioned devices [] name = false
is_mentioned devices (d ∷ rest) name = elim (lookup d devices) [
  | none ↦ is_mentioned devices rest name
  | some entry ↦
      (has_name name (keys entry.variables) || has_name name entry.commands)
      || is_mentioned devices rest name
]

module _ (shared_desc : Dict Bytes) (name : Bytes) where
  abbrev known : List Bytes → Bool
  known tmp = is_some (lookup name shared_desc) || has_name name tmp

  unknown_names_lem :
      (names tmp : List Bytes)
      → (count name (unknown_names shared_desc names tmp).0
          ≡ (if known tmp then 0 else if has_name name names then 1 else 0))
        × (known (unknown_names shared_desc names tmp).1 ≡ (known tmp || has_name name names))
  unfolding unknown_names count
  unknown_names_lem [] tmp = ground arith
  unknown_names_lem (x ∷ rest) tmp =
      let (c, k) = unknown_names_lem rest tmp in
      let (d, l) = unknown_names_lem rest (x ∷ tmp) in
      elim (Bool-cases (text_eq x name)) [
        | inl t ↦
            let same : (is_some (lookup x shared_desc) || has_name x tmp) ≡ known tmp =
              ap (λ y. is_some (lookup y shared_desc) || has_name y tmp)
                ((text_eq_iff x name).0 t) in
            elim (Bool-cases (known tmp)) [
              | inl s ↦ rw (unknown_names, same ∙ s, t) (ground arith, ground arith)
              | inr s ↦ rw (unknown_names, same ∙ s, t) (ground arith, ground arith)
            ]
        | inr t ↦ elim (Bool-cases (is_some (lookup x shared_desc) || has_name x tmp)) [
          | inl s ↦ rw (unknown_names, s, t) (ground arith, ground arith)
          | inr s ↦ rw (unknown_names, s, t) (ground arith, ground arith)
        ]
      ]

requests-push_context :
    (name device : Bytes) (cmds vars : List Bytes) (ctxs : List TaskContext)
    → requests name (push_context (record { name = device; cmds = cmds; vars = vars }) ctxs)
      ≡ count name vars + (count name cmds + requests name ctxs)
unfolding requests count
requests-push_context name device [] [] ctxs = omega arith
requests-push_context name device [] (x ∷ xs) ctxs = refl
requests-push_context name device (y ∷ ys) vars ctxs = refl

module _ {F : Type 0} (devices : Dict (DeviceEntry F)) (shared_desc : Dict Bytes)
    (name : Bytes) where
  requests_lem :
      (names tmp : List Bytes)
      → requests name (task_contexts devices shared_desc names tmp) ≡ (
          if known shared_desc name tmp
          then 0
          else if is_mentioned devices names name
          then 1
          else 0)
  unfolding task_contexts requests is_mentioned
  requests_lem [] tmp = ground arith
  requests_lem (d ∷ rest) tmp = elim (Option-cases (lookup d devices)) [
    | inl n ↦ rw (task_contexts, n, is_mentioned) (requests_lem rest tmp)
    | inr (entry, n) ↦
        let (c, k) = unknown_names_lem shared_desc name (keys entry.variables) tmp in
        let vars = unknown_names shared_desc (keys entry.variables) tmp in
        let (e, l) = unknown_names_lem shared_desc name entry.commands vars.1 in
        let cmds = unknown_names shared_desc entry.commands vars.1 in
        let below = requests_lem rest cmds.1 in
        rw
          (
            task_contexts,
            n,
            is_mentioned,
            requests-push_context name d cmds.0 vars.0
                (task_contexts devices shared_desc rest cmds.1),
            c,
            e,
            below,
            l,
            k,
          )
          (ground arith)
  ]

  -- For a list of added devices, the description of a name is asked for once if it is not known
  -- and a listed device has a variable or a command of that name, and else never.
  pub requests-task_contexts :
      (names : List Bytes)
      → requests name (task_contexts devices shared_desc names []) ≡ (
          if is_some (lookup name shared_desc)
          then 0
          else if is_mentioned devices names name
          then 1
          else 0)
  requests-task_contexts names = requests_lem names [] ∙ ground arith
