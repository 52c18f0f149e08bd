-- ===== src/Upsmc/Lexer/Tests.antt =====
-- Runs of internal/lexer.rs and internal/escape.rs on small texts.
use nut_webgui.Prelude.{[], ◌∷◌, ◌++◌, ◌≡◌, ◌⊎◌, refl, All, none, arith}
use nut_webgui.Upsmc.Text.{Bytes, codes, is_ascii_whitespace}
use nut_webgui.Upsmc.Text.Slices.{is_text-IsText, is_text}
use nut_webgui.Upsmc.Error.{ok}
use nut_webgui.Upsmc.Lexer.{init, State, next_token, unescape_text}
use nut_webgui.Upsmc.Lexer.Cursor.{At}
use nut_webgui.Upsmc.Lexer.Scan.{
  IsBlank, Scans, Lexeme, word, at_word, Body, plain, escape, nil, ReadsToken,
}
use nut_webgui.Upsmc.Lexer.Total.{next_token_total, Unterminated, Fails}
use nut_webgui.Upsmc.Lexer.Tokens.{next_token-Extracts, Extracts, Faces, value}
use nut_webgui.Upsmc.Lexer.Panic.{unescape_text_panics}
use nut_webgui.Upsmc.Escape.Laws.{escaped, as_ref-escape_nut_str}
use nut_webgui.Upsmc.Escape.RoundTrip.{next_token-escape_nut_str}
use nut_webgui.Upsmc.Escape.{is_special}

-- `  ups "a\"b" `.
abbrev line : Bytes
line = codes "  ups \"a\\\"b\" "

line-At : At line init line
line-At = record { ahead = refl; inside = omega arith; allocated = omega arith }

line-Scans : Scans line (word (codes "ups")) (codes " \"a\\\"b\" ")
unfolding is_ascii_whitespace
line-Scans =
    at_word (codes "  ") ((refl, refl), ((refl, refl), tt)) refl (refl, (refl, (refl, tt))) refl
      refl

line-Faces : Faces line init line
unfolding is_text
line-Faces = record { at = line-At; starts = refl; is_text = is_text-IsText line refl }

next_token_total_example :
    (All IsBlank line × (t : State) × (next_token line init ≡ (ok none, t)) × At line t [])
    ⊎ ((lexeme : Lexeme) × (rest : Bytes) × Scans line lexeme rest
        × ReadsToken line lexeme rest (next_token line init))
    ⊎ (Unterminated line × Fails (next_token line init))
next_token_total_example = next_token_total init line-At

next_token-Extracts_example :
    Extracts line (value line-Scans) (codes " \"a\\\"b\" ") (next_token line init)
unfolding line-Scans
next_token-Extracts_example = next_token-Extracts init line-Scans line-Faces tt

-- `a\"b`, between double quotes.
abbrev inner : Body (codes "a\\\"b")
inner = plain refl refl (escape refl (plain refl refl nil))

-- `a\é`.
unescape_text_panics_example : unescape_text (codes "a" ++ (b'\\' ∷ 195 ∷ 169 ∷ [])) ≡ none
unescape_text_panics_example = unescape_text_panics (codes "a") 195 169 [] (refl, tt) refl

-- `"a\"b"`.
abbrev sent : Bytes
sent = codes "\"a\\\"b\""

sent-Faces : Faces sent init sent
unfolding is_text
sent-Faces = record {
  at = record { ahead = refl; inside = omega arith; allocated = omega arith };
  starts = refl;
  is_text = is_text-IsText sent refl;
}

next_token-escape_nut_str_example : Extracts sent (codes "a\"b") [] (next_token sent init)
unfolding is_text escaped is_special
next_token-escape_nut_str_example =
    next_token-escape_nut_str (codes "a\"b") (codes "a\\\"b") [] sent init
      (is_text-IsText (codes "a\"b") refl) refl
      (as_ref-escape_nut_str (codes "a\"b") (is_text-IsText (codes "a\"b") refl) refl) sent-Faces
