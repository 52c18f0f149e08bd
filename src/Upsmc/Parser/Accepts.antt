-- ===== src/Upsmc/Parser/Accepts.antt =====
-- internal/parser_utils.rs on a text of the expected form: what each call returns, and where the
-- lexer stands behind it.
use nut_webgui.Upsmc.Lexer.Cursor.{with_rest-At}
use nut_webgui.Upsmc.Names.Laws.{
  is_cmd_name_iff, var_name_new_iff, is_ups_name_iff, IsName, IsUpsName,
}
use nut_webgui.Upsmc.Parser.{
  extract_cmd_name, extract_var_name, expect_text, expect_quoted, cmp_literal, same_text,
  extract_ups_name, extract_quoted_text, checked, end_parser, expect_end, finish, close,
}
use nut_webgui.Prelude.{ℕ, false, ◌==◌, ◌≡◌, refl, [], ◌∷◌, ◌++◌, All, arith, Option, none, some}
use nut_webgui.Upsmc.Text.{text_eq_iff, is_ascii_whitespace, Bytes}
use nut_webgui.Upsmc.Error.{ups_name, cmd_name, var_name, ParseError, Result, ok}
use nut_webgui.Upsmc.Lexer.{
  extract_from_token, raw_text, next_token_loop, skip_whitespaces_loop, peek, skip_whitespaces,
  peek_as_str, is_finished, next_token, State, M, ◌>>=◌, Token, lf, text,
}
use nut_webgui.Upsmc.Lexer.Scan.{
  IsWordByte, Ends, IsBlank, Scans, line_feed, word, at_word, at_quoted, at_line_feed, Body,
}
use nut_webgui.Upsmc.Lexer.Tokens.{next_token-IsToken, Faces}
use nut_webgui.Upsmc.Lexer.Extract.{plain_text, EscapesAscii}
use nut_webgui.Upsmc.Names.VarName.{var_name_new}
use nut_webgui.Upsmc.Names.{is_cmd_name, is_ups_name}

abbrev pub Accepts : {A : Type 0} → Bytes → A → Bytes → Result A × State → Type 0
Accepts buffer a rest r = (u : State) × (r ≡ (ok a, u)) × Faces buffer u rest

pub Accepts-bind :
    {A B : Type 0} {buffer rest last : Bytes} {a : A} {b : B} (s : State) (m : M A) (f : A → M B)
    → Accepts buffer a rest (m s)
    → ((t : State) → Faces buffer t rest → Accepts buffer b last (f a t))
    → Accepts buffer b last ((m >>= f) s)
Accepts-bind s m f (t, e, v) h = rw e (h t v)

-- A word of the text: no white space, and no double quote in front.
abbrev pub IsWord : Bytes → Type 0
IsWord [] = ⊥
IsWord (c ∷ cs) = ((c == b'"') ≡ false) × All IsWordByte (c ∷ cs)

pub Scans-word :
    (ws w rest : Bytes)
    → All IsBlank ws
    → IsWord w
    → Ends rest
    → Scans (ws ++ (w ++ rest)) (word w) rest
Scans-word ws [] rest h p e = absurd p
Scans-word ws (c ∷ cs) rest h p e = at_word ws h p.0 p.1 e refl

-- The end of the text, or a byte that is no white space.
abbrev pub BeginsLine : Bytes → Type 0
BeginsLine [] = Unit
BeginsLine (c ∷ cs) = is_ascii_whitespace c ≡ false

-- A word ahead, whatever is done with it.
pub word-Accepts :
    {A : Type 0} {buffer input rest w last : Bytes} {a : A} (missing : ParseError) (f : Bytes → M A)
    (s : State)
    → Scans input (word w) rest
    → Faces buffer s input
    → ((t : State) → Faces buffer t rest → Accepts buffer a last (f w t))
    → Accepts buffer a last ((next_token buffer >>= λ o. expect_text buffer missing o >>= f) s)
unfolding expect_text
word-Accepts {buffer = buffer} missing f s (at_word ws h q w k e) v g =
    let (token, u, r, (start, end, d, x), y) = next_token-IsToken s (at_word ws h q w k e) v tt in
    rw (r, d, x) (g u y)

pub body-Accepts :
    {A : Type 0} {buffer body rest last : Bytes} {a : A} (missing : ParseError) (f : Bytes → M A)
    (s : State) (ws : Bytes) (blank : All IsBlank ws) (b : Body body)
    → EscapesAscii b
    → Faces buffer s (ws ++ (b'"' ∷ (body ++ (b'"' ∷ rest))))
    → ((t : State) → Faces buffer t rest → Accepts buffer a last (f (plain_text b) t))
    → Accepts buffer a last ((next_token buffer >>= λ o. expect_quoted buffer missing o >>= f) s)
unfolding expect_quoted
body-Accepts missing f s ws blank b i v g =
    let (token, u, r, (start, end, d, x), y) =
      next_token-IsToken s (at_quoted ws blank b refl) v i in
    rw (r, d, x) (g u y)

pub line_feed-Accepts :
    {A : Type 0} {buffer input rest last : Bytes} {a : A} (f : Option Token → M A) (s : State)
    → Scans input line_feed rest
    → Faces buffer s input
    → ((t : State) → Faces buffer t rest → Accepts buffer a last (f (some lf) t))
    → Accepts buffer a last ((next_token buffer >>= f) s)
line_feed-Accepts f s (at_line_feed ws h e) v g =
    let (token, u, r, d, y) = next_token-IsToken s (at_line_feed ws h e) v tt in rw (r, d) (g u y)

module _ {buffer : Bytes} (s : State) where
  pub cmp_literal-Accepts :
      {input w rest : Bytes}
      → Scans input (word w) rest
      → Faces buffer s input
      → Accepts buffer tt rest (cmp_literal buffer w s)
  unfolding cmp_literal same_text
  cmp_literal-Accepts {w = w} h v =
      word-Accepts _ (same_text w) s h v λ t y. rw ((text_eq_iff w w).1 refl) (t, refl, y)

  pub extract_ups_name-Accepts :
      {input w rest : Bytes}
      → IsUpsName w
      → Scans input (word w) rest
      → Faces buffer s input
      → Accepts buffer w rest (extract_ups_name buffer s)
  unfolding extract_ups_name checked
  extract_ups_name-Accepts {w = w} i h v =
      word-Accepts _ (checked ups_name is_ups_name) s h v
        λ t y. rw ((is_ups_name_iff w).1 i, checked) (t, refl, y)

  pub extract_cmd_name-Accepts :
      {input w rest : Bytes}
      → IsName w
      → Scans input (word w) rest
      → Faces buffer s input
      → Accepts buffer w rest (extract_cmd_name buffer s)
  unfolding extract_cmd_name checked
  extract_cmd_name-Accepts {w = w} i h v =
      word-Accepts _ (checked cmd_name is_cmd_name) s h v
        λ t y. rw ((is_cmd_name_iff w).1 i, checked) (t, refl, y)

  pub extract_var_name-Accepts :
      {input w rest : Bytes}
      → IsName w
      → Scans input (word w) rest
      → Faces buffer s input
      → Accepts buffer w rest (extract_var_name buffer s)
  unfolding extract_var_name checked
  extract_var_name-Accepts {w = w} i h v =
      word-Accepts _ (checked var_name var_name_new) s h v
        λ t y. rw ((var_name_new_iff w).1 i, checked) (t, refl, y)

  pub extract_quoted_text-Accepts :
      {body rest : Bytes} (ws : Bytes) (blank : All IsBlank ws) (b : Body body)
      → EscapesAscii b
      → Faces buffer s (ws ++ (b'"' ∷ (body ++ (b'"' ∷ rest))))
      → Accepts buffer (plain_text b) rest (extract_quoted_text buffer s)
  unfolding extract_quoted_text expect_quoted
  extract_quoted_text-Accepts ws blank b i v =
      let (token, u, r, (start, end, d, x), y) =
        next_token-IsToken s (at_quoted ws blank b refl) v i in
      rw (r, d, x) (u, refl, y)

  -- The rest of the text, where a line begins.
  pub end_parser-Accepts :
      {input rest : Bytes}
      → Scans input line_feed rest
      → Faces buffer s input
      → BeginsLine rest
      → Accepts buffer tt rest (end_parser buffer s)
  unfolding end_parser expect_end skip_whitespaces skip_whitespaces_loop
  end_parser-Accepts {rest = rest} h v b = line_feed-Accepts (expect_end buffer) s h v λ t y.
      rw (with_rest-At (λ r u. (ok tt, skip_whitespaces_loop r u)) y.at, stays rest t b)
        (t, refl, y)
    where
      stays : (r : Bytes) (t : State) → BeginsLine r → skip_whitespaces_loop r t ≡ t
      stays [] t b = refl
      stays (c ∷ cs) t b = ground (arith, b)

  next_token-empty : Faces buffer s [] → next_token buffer s ≡ (ok none, s)
  unfolding next_token next_token_loop
  next_token-empty v = with_rest-At (next_token_loop buffer) v.at

  pub finish-Accepts :
      {A : Type 0} (a : A) → Faces buffer s [] → Accepts buffer a [] (finish buffer a s)
  unfolding finish is_finished peek close
  finish-Accepts a v = rw (next_token-empty v, peek) (s, refl, v)

  peek-Accepts :
      {input w rest : Bytes}
      → Scans input (word w) rest
      → Faces buffer s input
      → (start : ℕ) × (end : ℕ) × (peek buffer s ≡ (ok (some (text start end)), s))
        × (extract_from_token buffer (text start end) ≡ some w)
  unfolding peek
  peek-Accepts (at_word ws h q w k e) v =
      let (token, u, r, (start, end, d, x), y) = next_token-IsToken s (at_word ws h q w k e) v tt in
      (start, end, rw (r, peek, d) refl, x)

  pub peek_as_str-word :
      {input w rest : Bytes}
      → Scans input (word w) rest
      → Faces buffer s input
      → peek_as_str buffer s ≡ (ok (some w), s)
  unfolding peek_as_str raw_text extract_from_token
  peek_as_str-word h v = let (start, end, r, x) = peek-Accepts h v in rw (r, raw_text, x) refl
