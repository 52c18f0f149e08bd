-- ===== src/Upsmc/Response/Returns.antt =====
-- The responses of response.rs: each `deserialize` ends on every text, and what it accepts is
-- well formed.
use nut_webgui.Upsmc.Names.Laws.{IsUpsName, IsName}
use nut_webgui.Upsmc.Parser.{
  extract_ups_name, extract_cmd_name, extract_quoted_text, end_parser, cmp_literal,
}
use nut_webgui.Upsmc.Parser.Returns.{
  finish-Returns, end_parser-Returns, cmp_literal-Returns, extract_ups_name-Returns,
  extract_cmd_name-Returns, extract_quoted_text-Returns, peek_as_str-Returns,
}
use nut_webgui.Prelude.{
  inr, inl, Bool-cases, refl, List, length, ℕ, zero, suc, ◌<◌, ◌≤◌, [], ◌∷◌, ◌++◌, All, All-append,
  arith,
}
use nut_webgui.Upsmc.Text.{codes, Bytes}
use nut_webgui.Upsmc.Lexer.{◌>>◌, peek_as_str, State, M, init, ◌>>=◌}
use nut_webgui.Upsmc.Lexer.Cursor.{At-length, isize_max, At}
use nut_webgui.Upsmc.Parser.Rules.{Returns, Returns-bind, Returns-then}
use nut_webgui.Upsmc.Response.{
  list_cmd_line, list_cmd, CmdList, read_list, ups_device, list_ups, is_key, list_loop, UpsDevice,
}

-- Any value.
abbrev pub Any : {A : Type 0} → A → Type 0
Any a = Unit {0}

pub init-At : (buffer : Bytes) → length buffer ≤ isize_max → At buffer init buffer
init-At buffer h = record { ahead = refl; inside = omega arith; allocated = h }

list_loop-Returns :
    {A : Type 0} {buffer : Bytes} (key : Bytes) (line : M A) (P : A → Type 0)
    → ((s : State) (rest : Bytes) → At buffer s rest → Returns buffer rest 1 P (line s))
    → (fuel : ℕ) (items : List A) (input : Bytes) (s : State) → length input < fuel
    → All P items
    → At buffer s input
    → Returns buffer input 0 (All P) (list_loop fuel buffer key line items s)
unfolding list_loop
list_loop-Returns key line P h zero items input s l p v = absurd (omega arith)
list_loop-Returns {buffer} key line P h (suc fuel) items input s l p v =
    Returns-bind input Any (All P) 0 0 s (peek_as_str buffer) _ (peek_as_str-Returns s v)
      (λ head t rest _ u b. elim (Bool-cases (is_key key head)) [
        | inl e ↦ rw e (
            Returns-then rest P (All P) 1 t line _ (h t rest u) (λ item w last q x k.
              list_loop-Returns key line P h fuel (items ++ (item ∷ [])) last w
                (omega (arith, l, b, k)) (All-append P items (item ∷ []) p (q, tt)) x))
        | inr e ↦ rw e (p, (rest, u, omega arith))
      ])

module _ {A : Type 0} {buffer : Bytes} (Q : A → Type 0) (input : Bytes) (s : State)
    (v : At buffer s input) where
  -- The rule for a call whose value does not matter.
  pub literal-then :
      (cmp : Bytes) (k : M A)
      → ((t : State) (rest : Bytes) → At buffer t rest → Returns buffer rest 0 Q (k t))
      → Returns buffer input 0 Q ((cmp_literal buffer cmp >> k) s)
  literal-then cmp k h =
      Returns-then input Any Q 1 s (cmp_literal buffer cmp) (λ _. k) (cmp_literal-Returns s v cmp)
        (λ a t rest _ u _. h t rest u)

  -- The same, where the caller counts the bytes of the literal.
  pub literal-first :
      (cmp : Bytes) (k : M A)
      → ((t : State) (rest : Bytes) → At buffer t rest → Returns buffer rest 0 Q (k t))
      → Returns buffer input 1 Q ((cmp_literal buffer cmp >> k) s)
  literal-first cmp k h =
      Returns-bind input Any Q 1 0 s (cmp_literal buffer cmp) (λ _. k) (cmp_literal-Returns s v cmp)
        (λ a t rest _ u _. h t rest u)

  pub end_parser-then :
      (k : M A)
      → ((t : State) (rest : Bytes) → At buffer t rest → Returns buffer rest 0 Q (k t))
      → Returns buffer input 0 Q ((end_parser buffer >> k) s)
  end_parser-then k h =
      Returns-then input Any Q 0 s (end_parser buffer) (λ _. k) (end_parser-Returns s v)
        (λ a t rest _ u _. h t rest u)

  pub quoted-then :
      (k : Bytes → M A)
      → ((a : Bytes) (t : State) (rest : Bytes)
          → At buffer t rest
          → Returns buffer rest 0 Q (k a t))
      → Returns buffer input 0 Q ((extract_quoted_text buffer >>= k) s)
  quoted-then k h =
      Returns-then input Any Q 1 s (extract_quoted_text buffer) k (extract_quoted_text-Returns s v)
        (λ a t rest _ u _. h a t rest u)

  pub ups_name-then :
      (k : Bytes → M A)
      → ((a : Bytes)
          → IsUpsName a
          → (t : State) (rest : Bytes) → At buffer t rest
          → Returns buffer rest 0 Q (k a t))
      → Returns buffer input 0 Q ((extract_ups_name buffer >>= k) s)
  ups_name-then k h =
      Returns-then input IsUpsName Q 1 s (extract_ups_name buffer) k (extract_ups_name-Returns s v)
        (λ a t rest p u _. h a p t rest u)

  pub cmd_name-then :
      (k : Bytes → M A)
      → ((a : Bytes)
          → IsName a
          → (t : State) (rest : Bytes) → At buffer t rest
          → Returns buffer rest 0 Q (k a t))
      → Returns buffer input 0 Q ((extract_cmd_name buffer >>= k) s)
  cmd_name-then k h =
      Returns-then input IsName Q 1 s (extract_cmd_name buffer) k (extract_cmd_name-Returns s v)
        (λ a t rest p u _. h a p t rest u)

  pub read_list-then :
      {B : Type 0} (key : Bytes) (line : M B) (P : B → Type 0) (k : List B → M A)
      → ((t : State) (rest : Bytes) → At buffer t rest → Returns buffer rest 1 P (line t))
      → ((items : List B)
          → All P items
          → (t : State) (rest : Bytes) → At buffer t rest
          → Returns buffer rest 0 Q (k items t))
      → Returns buffer input 0 Q ((read_list buffer key line >>= k) s)
  unfolding read_list
  read_list-then key line P k g h =
      Returns-then input (All P) Q 0 s (read_list buffer key line) k
        (list_loop-Returns key line P g (suc (length buffer)) [] input s
          (omega (arith, At-length v)) tt v)
        (λ items t rest p u _. h items p t rest u)

abbrev pub DeviceIsNamed : UpsDevice → Type 0
DeviceIsNamed d = IsUpsName d.ups_name

module _ {buffer : Bytes} where
  ups_device-Returns :
      (s : State) (rest : Bytes)
      → At buffer s rest
      → Returns buffer rest 1 DeviceIsNamed (ups_device buffer s)
  unfolding ups_device
  ups_device-Returns s input v = literal-first DeviceIsNamed input s v (codes "UPS") _ λ t₁ r₁ v₁.
      ups_name-then DeviceIsNamed r₁ t₁ v₁ _ λ name named t₂ r₂ v₂.
        quoted-then DeviceIsNamed r₂ t₂ v₂ _ λ desc t₃ r₃ v₃.
          end_parser-then DeviceIsNamed r₃ t₃ v₃ _ λ t₄ r₄ v₄. (named, (r₄, v₄, omega arith))

-- A text of at most isize::MAX bytes is parsed to an end as a list of devices, and what is
-- accepted has valid names only.
pub list_ups-Returns :
    (buffer : Bytes)
    → length buffer ≤ isize_max
    → Returns buffer buffer 0 (All DeviceIsNamed) (list_ups buffer init)
unfolding list_ups
list_ups-Returns buffer h =
    let Q = All DeviceIsNamed in
    literal-then Q buffer init (init-At buffer h) _ _ λ t₁ r₁ v₁.
      literal-then Q r₁ t₁ v₁ _ _ λ t₂ r₂ v₂. literal-then Q r₂ t₂ v₂ _ _ λ t₃ r₃ v₃.
        end_parser-then Q r₃ t₃ v₃ _ λ t₄ r₄ v₄.
          read_list-then Q r₄ t₄ v₄ _ _ DeviceIsNamed _ ups_device-Returns λ devices p t₅ r₅ v₅.
            literal-then Q r₅ t₅ v₅ _ _ λ t₆ r₆ v₆. literal-then Q r₆ t₆ v₆ _ _ λ t₇ r₇ v₇.
              literal-then Q r₇ t₇ v₇ _ _ λ t₈ r₈ v₈.
                end_parser-then Q r₈ t₈ v₈ _ λ t₉ r₉ v₉. finish-Returns t₉ v₉ Q devices p

list_cmd_line-Returns :
    {buffer : Bytes} (ups : Bytes) (s : State) (rest : Bytes)
    → At buffer s rest
    → Returns buffer rest 1 IsName (list_cmd_line buffer ups s)
unfolding list_cmd_line
list_cmd_line-Returns ups s input v = literal-first IsName input s v (codes "CMD") _ λ t₁ r₁ v₁.
    literal-then IsName r₁ t₁ v₁ ups _ λ t₂ r₂ v₂.
      cmd_name-then IsName r₂ t₂ v₂ _ λ name named t₃ r₃ v₃.
        end_parser-then IsName r₃ t₃ v₃ _ λ t₄ r₄ v₄. (named, (r₄, v₄, omega arith))

abbrev pub CmdsAreNamed : CmdList → Type 0
CmdsAreNamed l = IsUpsName l.ups_name × All IsName l.cmds

-- A text of at most isize::MAX bytes is parsed to an end as a list of commands, and what is
-- accepted has a valid device name and valid command names only.
pub list_cmd-Returns :
    (buffer : Bytes)
    → length buffer ≤ isize_max
    → Returns buffer buffer 0 CmdsAreNamed (list_cmd buffer init)
unfolding list_cmd
list_cmd-Returns buffer h =
    let Q = CmdsAreNamed in
    literal-then Q buffer init (init-At buffer h) _ _ λ t₁ r₁ v₁.
      literal-then Q r₁ t₁ v₁ _ _ λ t₂ r₂ v₂. literal-then Q r₂ t₂ v₂ _ _ λ t₃ r₃ v₃.
        ups_name-then Q r₃ t₃ v₃ _ λ ups named t₄ r₄ v₄. end_parser-then Q r₄ t₄ v₄ _ λ t₅ r₅ v₅.
          read_list-then Q r₅ t₅ v₅ _ _ IsName _ (list_cmd_line-Returns ups) λ cmds p t₆ r₆ v₆.
            literal-then Q r₆ t₆ v₆ _ _ λ t₇ r₇ v₇. literal-then Q r₇ t₇ v₇ _ _ λ t₈ r₈ v₈.
              literal-then Q r₈ t₈ v₈ _ _ λ t₉ r₉ v₉.
                literal-then Q r₉ t₉ v₉ ups _
                  λ t r v. end_parser-then Q r t v _ λ u l w. finish-Returns u w Q _ (named, p)
