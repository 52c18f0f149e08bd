-- ===== src/Upsmc/Parser/Returns.antt =====
-- What a successful call of internal/parser_utils.rs guarantees, and what it consumes.
use nut_webgui.Upsmc.Names.VarName.{var_name_new}
use nut_webgui.Upsmc.Names.Laws.{
  var_name_new_iff, is_ups_name_iff, is_cmd_name_iff, IsUpsName, IsName,
}
use nut_webgui.Upsmc.Parser.{
  close, expect_quoted, expect_end, same_text, finish, extract_var_name, extract_ups_name,
  extract_text, extract_quoted_text, extract_cmd_name, end_parser, cmp_literal, checked, fail_at,
  expect_text,
}
use nut_webgui.Upsmc.Lexer.Total.{next_token_total}
use nut_webgui.Upsmc.Parser.Rules.{
  text_then, Keeps-bind, or_panic-Keeps, next_token-Returns_zero, next_token-Returns, Keeps-Returns,
  Returns, Keeps,
}
use nut_webgui.Prelude.{
  true, false, ◌==◌, Bool-cases, Option-cases, none, some, inl, inr, Option, inr, inl, length, ◌+◌,
  ◌≤◌, [], ◌∷◌, ◌≡◌, refl, arith,
}
use nut_webgui.Upsmc.Text.{text_eq, is_ascii_whitespace, slice, Bytes}
use nut_webgui.Upsmc.Names.{is_cmd_name, is_ups_name, Validity-cases, Validity, valid}
use nut_webgui.Upsmc.Error.{
  ups_name, cmd_name, var_name, expected_text_token, expected_double_quoted_text_token, NameError,
  ParseError,
}
use nut_webgui.Upsmc.Lexer.{
  move_read_head, next_line, skip_whitespaces, is_finished, skip_whitespaces_loop, raw_text,
  peek_as_str, peek, Token, lf, text, quoted_text, State,
}
use nut_webgui.Upsmc.Lexer.Cursor.{move_read_head-At, next_line-At, with_rest-At, At}

pub checked-Keeps :
    (P : Bytes → Type 0) (wrap : NameError → ParseError) (test : Bytes → Validity)
    → ((t : Bytes) → test t ≡ valid → P t)
    → (t : Bytes) (s : State) → Keeps P s (checked wrap test t s)
unfolding checked fail_at
checked-Keeps P wrap test sound t s = elim (Validity-cases (test t)) [
  | inl e ↦ rw (e, checked) (sound t e, refl)
  | inr (x, e) ↦ rw (e, checked) tt
]

same_text-Keeps : (cmp t : Bytes) (s : State) → Keeps (λ a. Unit {0}) s (same_text cmp t s)
unfolding same_text fail_at
same_text-Keeps cmp t s = elim (Bool-cases (text_eq cmp t)) [
  | inl e ↦ rw e (tt, refl)
  | inr e ↦ rw e tt
]

raw_text-Keeps :
    (buffer : Bytes) (o : Option Token) (s : State) → Keeps (λ t. Unit {0}) s (raw_text buffer o s)
unfolding raw_text
raw_text-Keeps buffer none s = (tt, refl)
raw_text-Keeps buffer (some lf) s = (tt, refl)
raw_text-Keeps buffer (some (text start end)) s = elim (Option-cases (slice buffer start end)) [
  | inl e ↦ rw e tt
  | inr (t, e) ↦ rw e (tt, refl)
]
raw_text-Keeps buffer (some (quoted_text start end)) s =
    elim (Option-cases (slice buffer start end)) [ inl e ↦ rw e tt | inr (t, e) ↦ rw e (tt, refl) ]

module _ {buffer : Bytes} where
  peek-Keeps :
      {input : Bytes} (s : State) → At buffer s input → Keeps (λ o. Unit {0}) s (peek buffer s)
  unfolding peek
  peek-Keeps s v = elim (next_token_total s v) [
    | inl (b, t, r, u) ↦ rw (r, peek) (tt, refl)
    | inr (inl (lexeme, rest, k, (o, t, r, d, u))) ↦ rw (r, peek) (tt, refl)
    | inr (inr (u, (t, r))) ↦ rw (r, peek) (tt, refl)
  ]

module _ {buffer input : Bytes} (s : State) (v : At buffer s input) where
  pub peek_as_str-Returns : Returns buffer input 0 (λ t. Unit {0}) (peek_as_str buffer s)
  unfolding peek_as_str
  peek_as_str-Returns =
      Keeps-Returns input (λ t. Unit {0}) s _ v
        (Keeps-bind (λ o. Unit {0}) (λ t. Unit {0}) s (peek buffer) (raw_text buffer)
          (peek-Keeps s v) (λ o _. raw_text-Keeps buffer o s))

  pub extract_text-Returns : Returns buffer input 1 (λ t. Unit {0}) (extract_text buffer s)
  unfolding extract_text expect_text fail_at
  extract_text-Returns = next_token-Returns input (λ t. Unit {0}) s _ v (λ t. tt) token
    where
      token :
          (k : Token) (t : State)
          → Keeps (λ x. Unit {0}) t (expect_text buffer expected_text_token (some k) t)
      token (text start end) t = or_panic-Keeps _ t
      token lf t = tt
      token (quoted_text start end) t = tt

  pub extract_quoted_text-Returns :
      Returns buffer input 1 (λ t. Unit {0}) (extract_quoted_text buffer s)
  unfolding extract_quoted_text expect_quoted fail_at
  extract_quoted_text-Returns = next_token-Returns input (λ t. Unit {0}) s _ v (λ t. tt) token
    where
      token :
          (k : Token) (t : State)
          → Keeps
              (λ x. Unit {0})
              t
              (expect_quoted buffer expected_double_quoted_text_token (some k) t)
      token (quoted_text start end) t = or_panic-Keeps _ t
      token lf t = tt
      token (text start end) t = tt

  -- The names that the parser returns are names.
  pub extract_ups_name-Returns : Returns buffer input 1 IsUpsName (extract_ups_name buffer s)
  unfolding extract_ups_name expect_text fail_at
  extract_ups_name-Returns =
      next_token-Returns input IsUpsName s _ v (λ t. tt)
        (λ token t.
          text_then buffer expected_double_quoted_text_token IsUpsName
            (checked ups_name is_ups_name)
            (checked-Keeps IsUpsName ups_name is_ups_name (λ n. (is_ups_name_iff n).0)) (some token)
            t)

  pub extract_cmd_name-Returns : Returns buffer input 1 IsName (extract_cmd_name buffer s)
  unfolding extract_cmd_name expect_text fail_at
  extract_cmd_name-Returns =
      next_token-Returns input IsName s _ v (λ t. tt)
        (λ token t.
          text_then buffer expected_text_token IsName (checked cmd_name is_cmd_name)
            (checked-Keeps IsName cmd_name is_cmd_name (λ n. (is_cmd_name_iff n).0)) (some token) t)

  pub extract_var_name-Returns : Returns buffer input 1 IsName (extract_var_name buffer s)
  unfolding extract_var_name expect_text fail_at
  extract_var_name-Returns =
      next_token-Returns input IsName s _ v (λ t. tt)
        (λ token t.
          text_then buffer expected_text_token IsName (checked var_name var_name_new)
            (checked-Keeps IsName var_name var_name_new (λ n. (var_name_new_iff n).0)) (some token)
            t)

  pub cmp_literal-Returns :
      (cmp : Bytes) → Returns buffer input 1 (λ a. Unit {0}) (cmp_literal buffer cmp s)
  unfolding cmp_literal expect_text fail_at
  cmp_literal-Returns cmp =
      next_token-Returns input (λ a. Unit {0}) s _ v (λ t. tt)
        (λ token t.
          text_then buffer expected_text_token (λ a. Unit {0}) (same_text cmp) (same_text-Keeps cmp)
            (some token) t)

  pub finish-Returns :
      {A : Type 0} (P : A → Type 0) (a : A) → P a → Returns buffer input 0 P (finish buffer a s)
  unfolding finish is_finished close fail_at
  finish-Returns P a p = Keeps-Returns input P s _ v (
      Keeps-bind (λ o. Unit {0}) P s (is_finished buffer) (close a)
        (Keeps-bind (λ o. Unit {0}) (λ b. Unit {0}) s (peek buffer) _ (peek-Keeps s v)
          (λ o _. (tt, refl)))
        (λ b _. elim b as (λ x. Keeps P s (close a x s)) [ true ↦ (p, refl) | false ↦ tt ]))

skip_whitespaces_loop-At :
    {buffer : Bytes} (input : Bytes) (s : State)
    → At buffer s input
    → (rest : Bytes) × At buffer (skip_whitespaces_loop input s) rest × (length rest ≤ length input)
unfolding skip_whitespaces_loop
skip_whitespaces_loop-At [] s v = ([], v, omega arith)
skip_whitespaces_loop-At (c ∷ cs) s v = elim (Bool-cases (is_ascii_whitespace c)) [
  | inl w ↦ elim (Bool-cases (c == b'\n')) [
    | inl e ↦
        let (rest, u, l) = skip_whitespaces_loop-At cs (next_line s 1) (next_line-At 1 v) in
        rw (w, e) (rest, u, omega (arith, l))
    | inr e ↦
        let (rest, u, l) = skip_whitespaces_loop-At cs (move_read_head s 1) (move_read_head-At v) in
        rw (w, e) (rest, u, omega (arith, l))
  ]
  | inr w ↦ rw w (c ∷ cs, v, omega arith)
]

pub end_parser-Returns :
    {buffer input : Bytes} (s : State) (v : At buffer s input)
    → Returns buffer input 0 (λ a. Unit {0}) (end_parser buffer s)
unfolding end_parser expect_end fail_at skip_whitespaces
end_parser-Returns {buffer} {input} s v =
    next_token-Returns_zero input (λ a. Unit {0}) s (expect_end buffer) v (λ t rest u. (tt, refl))
      token
  where
    token :
        (k : Token) (t : State) (rest : Bytes)
        → At buffer t rest
        → Returns buffer rest 0 (λ a. Unit {0}) (expect_end buffer (some k) t)
    token lf t rest u = rw (with_rest-At _ u) (tt, skipped (skip_whitespaces_loop-At rest t u))
      where
        skipped :
            {w : State}
            → ((last : Bytes) × At buffer w last × (length last ≤ length rest))
            → (last : Bytes) × At buffer w last × (length last + 0 ≤ length rest)
        skipped (last, x, l) = (last, x, omega arith)
    token (text start end) t rest u = tt
    token (quoted_text start end) t rest u = tt
