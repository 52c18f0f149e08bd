-- ===== src/Upsmc/Values/Returns.antt =====
-- The responses that hold values: each `deserialize` ends on every text, and what it accepts is well
-- formed.
use nut_webgui.Upsmc.Names.VarName.{var_name_new}
use nut_webgui.Prelude.{
  none, some, refl, inr, inl, Bool-cases, ◌∷◌, some, [], List, All, ◌≤◌, length, Option, arith,
}
use nut_webgui.Upsmc.Text.{text_eq, codes, Bytes}
use nut_webgui.Upsmc.Lexer.{State, M, init, ◌>>=◌}
use nut_webgui.Upsmc.Lexer.Cursor.{At, isize_max}
use nut_webgui.Upsmc.Names.Laws.{var_name_new_iff, IsUpsName, IsName}
use nut_webgui.Upsmc.Value.{infer_number_from, Value}
use nut_webgui.Upsmc.Parser.{fail_at, extract_text, checked, extract_var_name}
use nut_webgui.Upsmc.Error.{var_name}
use nut_webgui.Upsmc.Parser.Rules.{Keeps, Keeps-Returns, Returns, Returns-then}
use nut_webgui.Upsmc.Parser.Returns.{
  checked-Keeps, extract_text-Returns, extract_var_name-Returns, finish-Returns,
}
use nut_webgui.Upsmc.Response.Returns.{
  read_list-then, Any, init-At, literal-then, literal-first, end_parser-then, quoted-then,
  ups_name-then,
}
use nut_webgui.Upsmc.Values.{
  RangeList, EnumList, range_line, list_range, list_enum, number_or_error, UpsVariables,
  list_variables, insert_all, insert, extract_numeric_value, enum_line, UpsVarList, UpsVar,
  extract_value, get_var, variable_line,
}

module _ {A : Type 0} {buffer : Bytes} (Q : A → Type 0) (input : Bytes) (s : State)
    (v : At buffer s input) where
  pub var_name-then :
      (k : Bytes → M A)
      → ((a : Bytes)
          → IsName a
          → (t : State) (rest : Bytes) → At buffer t rest
          → Returns buffer rest 0 Q (k a t))
      → Returns buffer input 0 Q ((extract_var_name buffer >>= k) s)
  var_name-then k h =
      Returns-then input IsName Q 1 s (extract_var_name buffer) k (extract_var_name-Returns s v)
        (λ a t rest p u _. h a p t rest u)

  pub text-then :
      (k : Bytes → M A)
      → ((a : Bytes) (t : State) (rest : Bytes)
          → At buffer t rest
          → Returns buffer rest 0 Q (k a t))
      → Returns buffer input 0 Q ((extract_text buffer >>= k) s)
  text-then k h =
      Returns-then input Any Q 1 s (extract_text buffer) k (extract_text-Returns s v)
        (λ a t rest p u _. h a t rest u)

  value-then :
      {F : Type 0} (parse_f64 : Bytes → Option F) (k : Value F → M A)
      → ((a : Value F) (t : State) (rest : Bytes)
          → At buffer t rest
          → Returns buffer rest 0 Q (k a t))
      → Returns buffer input 0 Q ((extract_value parse_f64 buffer >>= k) s)
  unfolding extract_value
  value-then parse_f64 k h =
      Returns-then input Any Q 0 s (extract_value parse_f64 buffer) k
        (quoted-then Any input s v _ λ t u rest w. (tt, (rest, w, omega arith)))
        (λ a t rest _ u _. h a t rest u)

module _ {F : Type 0} (parse_f64 : Bytes → Option F) (buffer : Bytes) where
  abbrev pub IsNamed : Bytes × Value F → Type 0
  IsNamed entry = IsName entry.0

  variable_line-Returns :
      (key ups : Bytes) (s : State) (rest : Bytes)
      → At buffer s rest
      → Returns buffer rest 1 IsNamed (variable_line parse_f64 buffer key ups s)
  unfolding variable_line
  variable_line-Returns key ups s input v = literal-first IsNamed input s v key _ λ t₁ r₁ v₁.
      literal-then IsNamed r₁ t₁ v₁ ups _ λ t₂ r₂ v₂.
        var_name-then IsNamed r₂ t₂ v₂ _ λ name named t₃ r₃ v₃.
          value-then IsNamed r₃ t₃ v₃ parse_f64 _ λ value t₄ r₄ v₄.
            end_parser-then IsNamed r₄ t₄ v₄ _ λ t₅ r₅ v₅. (named, (r₅, v₅, omega arith))

  -- Every text is parsed to an end as a variable, and what is accepted has valid names.
  pub get_var-Returns :
      length buffer ≤ isize_max
      → Returns buffer buffer 0
          (λ r. IsUpsName r.ups_name × IsName r.name)
          (get_var parse_f64 buffer init)
  unfolding get_var
  get_var-Returns h =
      let Q : UpsVar F → Type 0 = λ r. IsUpsName r.ups_name × IsName r.name in
      literal-then Q buffer init (init-At buffer h) _ _ λ t₁ r₁ v₁.
        ups_name-then Q r₁ t₁ v₁ _ λ ups valid t₂ r₂ v₂.
          var_name-then Q r₂ t₂ v₂ _ λ name named t₃ r₃ v₃.
            value-then Q r₃ t₃ v₃ parse_f64 _ λ value t₄ r₄ v₄.
              end_parser-then Q r₄ t₄ v₄ _ λ t₅ r₅ v₅. finish-Returns t₅ v₅ Q _ (valid, named)

  insert-All :
      (name : Bytes) (value : Value F) (variables : UpsVariables F)
      → IsName name
      → All IsNamed variables
      → All IsNamed (insert name value variables)
  unfolding insert
  insert-All name value [] n h = (n, tt)
  insert-All name value (entry ∷ rest) n h = elim (Bool-cases (text_eq entry.0 name)) [
    | inl e ↦ rw e (n, h.1)
    | inr e ↦ rw e (h.0, insert-All name value rest n h.1)
  ]

  insert_all-All :
      (variables : UpsVariables F) (entries : List (Bytes × Value F))
      → All IsNamed variables
      → All IsNamed entries
      → All IsNamed (insert_all variables entries)
  unfolding insert_all
  insert_all-All variables [] h k = h
  insert_all-All variables (entry ∷ entries) h k =
      insert_all-All (insert entry.0 entry.1 variables) entries
        (insert-All entry.0 entry.1 variables k.0 h) k.1

  abbrev pub AreNamed : UpsVarList F → Type 0
  AreNamed r = IsUpsName r.ups_name × All IsNamed r.variables

  -- A text of at most isize::MAX bytes is parsed to an end as a list of variables, under either
  -- word, and what is accepted has a valid device name and valid variable names only.
  pub list_variables-Returns :
      (key : Bytes)
      → length buffer ≤ isize_max
      → Returns buffer buffer 0 AreNamed (list_variables parse_f64 buffer key init)
  unfolding list_variables
  list_variables-Returns key h =
      let Q = AreNamed in
      literal-then Q buffer init (init-At buffer h) _ _ λ t₁ r₁ v₁.
        literal-then Q r₁ t₁ v₁ _ _ λ t₂ r₂ v₂. literal-then Q r₂ t₂ v₂ _ _ λ t₃ r₃ v₃.
          ups_name-then Q r₃ t₃ v₃ _ λ ups named t₄ r₄ v₄. end_parser-then Q r₄ t₄ v₄ _ λ t₅ r₅ v₅.
            read_list-then Q r₅ t₅ v₅ _ _ IsNamed _ (variable_line-Returns key ups)
              λ entries p t₆ r₆ v₆. literal-then Q r₆ t₆ v₆ _ _ λ t₇ r₇ v₇.
                literal-then Q r₇ t₇ v₇ _ _ λ t₈ r₈ v₈. literal-then Q r₈ t₈ v₈ _ _ λ t₉ r₉ v₉.
                  literal-then Q r₉ t₉ v₉ ups _ λ t r v.
                    end_parser-then Q r t v _
                      λ u l w. finish-Returns u w Q _ (named, insert_all-All [] entries tt p)

  -- Any value.
  enum_line-Returns :
      (ups name : Bytes) (s : State) (rest : Bytes)
      → At buffer s rest
      → Returns buffer rest 1 Any (enum_line parse_f64 buffer ups name s)
  unfolding enum_line
  enum_line-Returns ups name s input v = literal-first Any input s v (codes "ENUM") _ λ t₁ r₁ v₁.
      literal-then Any r₁ t₁ v₁ ups _ λ t₂ r₂ v₂. literal-then Any r₂ t₂ v₂ name _ λ t₃ r₃ v₃.
        value-then Any r₃ t₃ v₃ parse_f64 _
          λ value t₄ r₄ v₄. end_parser-then Any r₄ t₄ v₄ _ λ t₅ r₅ v₅. (tt, (r₅, v₅, omega arith))

  number_or_error-Keeps :
      (o : Option (Value F)) (s : State) → Keeps Any s (number_or_error parse_f64 buffer o s)
  unfolding number_or_error fail_at
  number_or_error-Keeps none s = tt
  number_or_error-Keeps (some value) s = (tt, refl)

  numeric-then :
      {A : Type 0} (Q : A → Type 0) (input : Bytes) (s : State)
      → At buffer s input
      → (k : Value F → M A)
      → ((a : Value F) (t : State) (rest : Bytes)
          → At buffer t rest
          → Returns buffer rest 0 Q (k a t))
      → Returns buffer input 0 Q ((extract_numeric_value parse_f64 buffer >>= k) s)
  unfolding extract_numeric_value
  numeric-then Q input s v k h =
      Returns-then input Any Q 0 s (extract_numeric_value parse_f64 buffer) k
        (quoted-then Any input s v _ λ t u rest w.
          Keeps-Returns rest Any u _ w (number_or_error-Keeps (infer_number_from parse_f64 t) u))
        (λ a t rest _ u _. h a t rest u)

  checked-then :
      {A : Type 0} (Q : A → Type 0) (input : Bytes) (s : State)
      → At buffer s input
      → (var : Bytes) (k : Bytes → M A)
      → ((a : Bytes)
          → IsName a
          → (t : State) (rest : Bytes) → At buffer t rest
          → Returns buffer rest 0 Q (k a t))
      → Returns buffer input 0 Q ((checked var_name var_name_new var >>= k) s)
  checked-then Q input s v var k h =
      Returns-then input IsName Q 0 s (checked var_name var_name_new var) k
        (Keeps-Returns input IsName s _ v
          (checked-Keeps IsName var_name var_name_new (λ t. (var_name_new_iff t).0) var s))
        (λ a t rest p u _. h a p t rest u)

  range_line-Returns :
      (ups name : Bytes) (s : State) (rest : Bytes)
      → At buffer s rest
      → Returns buffer rest 1 Any (range_line parse_f64 buffer ups name s)
  unfolding range_line
  range_line-Returns ups name s input v = literal-first Any input s v (codes "RANGE") _ λ t₁ r₁ v₁.
      literal-then Any r₁ t₁ v₁ ups _ λ t₂ r₂ v₂. literal-then Any r₂ t₂ v₂ name _ λ t₃ r₃ v₃.
        numeric-then Any r₃ t₃ v₃ _ λ low t₄ r₄ v₄.
          numeric-then Any r₄ t₄ v₄ _
            λ high t₅ r₅ v₅. end_parser-then Any r₅ t₅ v₅ _ λ t₆ r₆ v₆. (tt, (r₆, v₆, omega arith))

  -- A text of at most isize::MAX bytes is parsed to an end as a list of options, and what is
  -- accepted has valid names.
  pub list_enum-Returns :
      length buffer ≤ isize_max
      → Returns buffer buffer 0
          (λ r. IsUpsName r.ups_name × IsName r.name)
          (list_enum parse_f64 buffer init)
  unfolding list_enum
  list_enum-Returns h =
      let Q : EnumList F → Type 0 = λ r. IsUpsName r.ups_name × IsName r.name in
      literal-then Q buffer init (init-At buffer h) _ _ λ t₁ r₁ v₁.
        literal-then Q r₁ t₁ v₁ _ _ λ t₂ r₂ v₂. literal-then Q r₂ t₂ v₂ _ _ λ t₃ r₃ v₃.
          ups_name-then Q r₃ t₃ v₃ _ λ ups valid t₄ r₄ v₄. text-then Q r₄ t₄ v₄ _ λ var t₅ r₅ v₅.
            end_parser-then Q r₅ t₅ v₅ _ λ t₆ r₆ v₆.
              checked-then Q r₆ t₆ v₆ var _ λ name named t₇ r₇ v₇.
                read_list-then Q r₇ t₇ v₇ _ _ Any _ (enum_line-Returns ups name)
                  λ values p t₈ r₈ v₈. literal-then Q r₈ t₈ v₈ _ _ λ t₉ r₉ v₉.
                    literal-then Q r₉ t₉ v₉ _ _ λ t r v. literal-then Q r t v _ _ λ t r v.
                      literal-then Q r t v ups _ λ t r v. literal-then Q r t v name _ λ t r v.
                        end_parser-then Q r t v _ λ u l w. finish-Returns u w Q _ (valid, named)

  -- A text of at most isize::MAX bytes is parsed to an end as a list of ranges, and what is
  -- accepted has valid names.
  pub list_range-Returns :
      length buffer ≤ isize_max
      → Returns buffer buffer 0
          (λ r. IsUpsName r.ups_name × IsName r.name)
          (list_range parse_f64 buffer init)
  unfolding list_range
  list_range-Returns h =
      let Q : RangeList F → Type 0 = λ r. IsUpsName r.ups_name × IsName r.name in
      literal-then Q buffer init (init-At buffer h) _ _ λ t₁ r₁ v₁.
        literal-then Q r₁ t₁ v₁ _ _ λ t₂ r₂ v₂. literal-then Q r₂ t₂ v₂ _ _ λ t₃ r₃ v₃.
          ups_name-then Q r₃ t₃ v₃ _ λ ups valid t₄ r₄ v₄. text-then Q r₄ t₄ v₄ _ λ var t₅ r₅ v₅.
            end_parser-then Q r₅ t₅ v₅ _ λ t₆ r₆ v₆.
              checked-then Q r₆ t₆ v₆ var _ λ name named t₇ r₇ v₇.
                read_list-then Q r₇ t₇ v₇ _ _ Any _ (range_line-Returns ups name)
                  λ ranges p t₈ r₈ v₈. literal-then Q r₈ t₈ v₈ _ _ λ t₉ r₉ v₉.
                    literal-then Q r₉ t₉ v₉ _ _ λ t r v. literal-then Q r t v _ _ λ t r v.
                      literal-then Q r t v ups _ λ t r v. literal-then Q r t v name _ λ t r v.
                        end_parser-then Q r t v _ λ u l w. finish-Returns u w Q _ (valid, named)
