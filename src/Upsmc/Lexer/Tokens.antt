-- ===== src/Upsmc/Lexer/Tokens.antt =====
-- internal/lexer.rs as the parser sees it: `next_token` and the text of the token together.
use nut_webgui.Upsmc.Lexer.Reads.{next_token-Scans, Ends-Starts}
use nut_webgui.Upsmc.Lexer.Extract.{unescape_text-plain_text, plain_text, EscapesAscii}
use nut_webgui.Upsmc.Lexer.Cursor.{At}
use nut_webgui.Upsmc.Lexer.Scan.{
  Denotes, line_feed, word, quoted, quoted, word, at_quoted, at_word, at_line_feed, Scans, IsBlank,
  Lexeme, Cuts,
}
use nut_webgui.Prelude.{
  Option, ap, ◌∙◌, take-append-drop, sym, length-take_of_le, take, some, All, refl, ℕ, ◌≡◌, [], ◌∷◌,
  ◌++◌, arith,
}
use nut_webgui.Upsmc.Text.{slice, is_ascii_whitespace, Bytes}
use nut_webgui.Upsmc.Lexer.{
  quoted_text, lf, text, Token, quoted_text, text, ok, Token, next_token, extract_from_token,
  Result, State,
}
use nut_webgui.Upsmc.Text.Slices.{slice_middle, Starts, IsText}

IsText-append : (a b : Bytes) → IsText (a ++ b) → IsText a × IsText b
IsText-append [] b h = (tt, h)
IsText-append (c ∷ []) b h = ((ground arith, tt), h.1)
IsText-append (c ∷ d ∷ a) b h = let (x, y) = IsText-append (d ∷ a) b h.1 in ((h.0, x), y)

Starts-blank : (ws x : Bytes) → All IsBlank ws → IsText (ws ++ x) → Starts (ws ++ x) → Starts x
unfolding is_ascii_whitespace
Starts-blank [] x h i s = s
Starts-blank (c ∷ ws) x h i s = Starts-blank ws x h.1 i.1 (ground (arith, h.0.0, i.0))

-- The text that a lexeme stands for.
unfoldable pub value : {input rest : Bytes} {lexeme : Lexeme} → Scans input lexeme rest → Bytes
value (at_line_feed ws h e) = b'\n' ∷ []
value (at_word ws {cs} {c} h q w f e) = c ∷ cs
value (at_quoted ws h b e) = plain_text b

-- No character outside ASCII is escaped.
abbrev pub IsAscii : {input rest : Bytes} {lexeme : Lexeme} → Scans input lexeme rest → Type 0
IsAscii (at_line_feed ws h e) = Unit
IsAscii (at_word ws h q w f e) = Unit
IsAscii (at_quoted ws h b e) = EscapesAscii b

-- The bytes of a lexeme as they stand in the buffer.
abbrev pub bytes : Lexeme → Bytes
bytes line_feed = b'\n' ∷ []
bytes (word t) = t
bytes (quoted t) = t

-- The lexer stands in front of `rest`, at a character boundary.
pub record Faces (buffer : Bytes) (s : State) (rest : Bytes) : Type 0 where
  pub at : At buffer s rest
  pub starts : Starts rest
  pub is_text : IsText rest

Starts-append : (a b : Bytes) → Starts a → Starts b → Starts (a ++ b)
Starts-append [] b h k = k
Starts-append (c ∷ a) b h k = h

slice-Cuts :
    (buffer : Bytes) (start end : ℕ) (t : Bytes)
    → Cuts buffer start end t
    → Starts t
    → slice buffer start end ≡ some t
slice-Cuts buffer start end t (after, ahead, e, inside, k) h =
    let a = take start buffer in
    let size = length-take_of_le start buffer inside in
    let whole : buffer ≡ a ++ (t ++ after) =
      sym (take-append-drop start buffer) ∙ ap (λ x. a ++ x) ahead in
    cc (whole, size, e, slice_middle a t after (Starts-append t after h k) k)

Starts-prefix : (a b : Bytes) → Starts (a ++ b) → Starts a
Starts-prefix [] b h = refl
Starts-prefix (c ∷ a) b h = h

-- What is left of the text behind a lexeme, and what the lexeme holds, begin with a character too.
Scans-text :
    {input rest : Bytes} {lexeme : Lexeme}
    → Scans input lexeme rest
    → IsText input
    → Starts input
    → (Starts rest × IsText rest) × (Starts (bytes lexeme) × IsText (bytes lexeme))
unfolding is_ascii_whitespace
Scans-text (at_line_feed ws {rest} h e) i s =
    let (_, j) = IsText-append ws (b'\n' ∷ rest) (rw e at i) in
    ((ground (arith, j.0), j.1), (refl, (refl, tt)))
Scans-text (at_word ws {cs} {rest} {c} h q w f e) i s =
    let (_, j) = IsText-append ws (c ∷ (cs ++ rest)) (rw e at i) in
    let (k, l) = IsText-append (c ∷ cs) rest j in
    ((Ends-Starts rest f, l), (Starts-blank ws (c ∷ (cs ++ rest)) h (rw e at i) (rw e at s), k))
Scans-text (at_quoted ws {body} {rest} h b e) i s =
    let (_, j) = IsText-append ws (b'"' ∷ (body ++ (b'"' ∷ rest))) (rw e at i) in
    let (k, l) = IsText-append body (b'"' ∷ rest) j.1 in
    ((ground (arith, l.0), l.1), (Starts-prefix body _ j.0, k))

-- The lexer reads the lexeme ahead, whose text can be extracted, and stops behind it.
abbrev pub Extracts : Bytes → Bytes → Bytes → Result (Option Token) × State → Type 0
Extracts buffer t rest r =
    (token : Token) × (u : State) × (r ≡ (ok (some token), u))
    × (extract_from_token buffer token ≡ some t)
    × Faces buffer u rest

extract-Denotes :
    {input rest : Bytes} {lexeme : Lexeme} (buffer : Bytes) (token : Token)
    (h : Scans input lexeme rest)
    → Denotes buffer token lexeme
    → Starts (bytes lexeme)
    → IsText (bytes lexeme)
    → IsAscii h
    → extract_from_token buffer token ≡ some (value h)
unfolding extract_from_token value
extract-Denotes buffer lf (at_line_feed ws h e) d s i a = refl
extract-Denotes buffer (text start end) (at_word ws h q w f e) d s i a =
    slice-Cuts buffer start end _ d s
extract-Denotes buffer (quoted_text start end) (at_quoted ws h b e) d s i a =
    rw (slice-Cuts buffer start end _ d s) (unescape_text-plain_text b i s a)
extract-Denotes buffer (text start end) (at_line_feed ws h e) d s i a = absurd d
extract-Denotes buffer (quoted_text start end) (at_line_feed ws h e) d s i a = absurd d
extract-Denotes buffer lf (at_word ws h q w f e) d s i a = absurd d
extract-Denotes buffer (quoted_text start end) (at_word ws h q w f e) d s i a = absurd d
extract-Denotes buffer lf (at_quoted ws h b e) d s i a = absurd d
extract-Denotes buffer (text start end) (at_quoted ws h b e) d s i a = absurd d

-- If a lexeme stands ahead at a character boundary of well-formed UTF-8 and no character outside
-- ASCII is escaped in it, next_token reads it, the text of the token is the text that the lexeme
-- stands for, and the lexer stops behind it at a character boundary.
pub next_token-Extracts :
    {buffer input rest : Bytes} {lexeme : Lexeme} (s : State) (h : Scans input lexeme rest)
    → Faces buffer s input
    → IsAscii h
    → Extracts buffer (value h) rest (next_token buffer s)
next_token-Extracts {buffer} s h v a =
    let (o, u, r, (token, e, d), w) = next_token-Scans s h v.at in
    let ((k, l), (m, n)) = Scans-text h v.is_text v.starts in
    (
      token,
      u,
      r ∙ ap (λ x. (ok x, u)) e,
      extract-Denotes buffer token h d m n a,
      record { at = w; starts = k; is_text = l },
    )

-- What a token that denotes the lexeme is, and its text.
abbrev pub IsToken :
    Bytes → Token → {input rest : Bytes} {lexeme : Lexeme} → Scans input lexeme rest → Type 0
IsToken buffer token (at_line_feed ws h e) = token ≡ lf
IsToken buffer token (at_word ws {cs} {rest} {c} h q w f e) =
    (start : ℕ) × (end : ℕ) × (token ≡ text start end)
    × (extract_from_token buffer (text start end) ≡ some (c ∷ cs))
IsToken buffer token (at_quoted ws h b e) =
    (start : ℕ) × (end : ℕ) × (token ≡ quoted_text start end)
    × (extract_from_token buffer (quoted_text start end) ≡ some (plain_text b))

Denotes-IsToken :
    {input rest : Bytes} {lexeme : Lexeme} (buffer : Bytes) (token : Token)
    (h : Scans input lexeme rest)
    → Denotes buffer token lexeme
    → extract_from_token buffer token ≡ some (value h)
    → IsToken buffer token h
unfolding value
Denotes-IsToken buffer lf (at_line_feed ws h e) d x = refl
Denotes-IsToken buffer (text start end) (at_word ws h q w f e) d x = (start, end, refl, x)
Denotes-IsToken buffer (quoted_text start end) (at_quoted ws h b e) d x = (start, end, refl, x)
Denotes-IsToken buffer (text start end) (at_line_feed ws h e) d x = absurd d
Denotes-IsToken buffer (quoted_text start end) (at_line_feed ws h e) d x = absurd d
Denotes-IsToken buffer lf (at_word ws h q w f e) d x = absurd d
Denotes-IsToken buffer (quoted_text start end) (at_word ws h q w f e) d x = absurd d
Denotes-IsToken buffer lf (at_quoted ws h b e) d x = absurd d
Denotes-IsToken buffer (text start end) (at_quoted ws h b e) d x = absurd d

-- The same as `next_token-Extracts`, by the kind of the lexeme.
pub next_token-IsToken :
    {buffer input rest : Bytes} {lexeme : Lexeme} (s : State) (h : Scans input lexeme rest)
    → Faces buffer s input
    → IsAscii h
    → (token : Token) × (u : State) × (next_token buffer s ≡ (ok (some token), u))
      × IsToken buffer token h
      × Faces buffer u rest
next_token-IsToken {buffer} s h v a =
    let (o, u, r, (token, e, d), w) = next_token-Scans s h v.at in
    let ((k, l), (m, n)) = Scans-text h v.is_text v.starts in
    (
      token,
      u,
      r ∙ ap (λ x. (ok x, u)) e,
      Denotes-IsToken buffer token h d (extract-Denotes buffer token h d m n a),
      record { at = w; starts = k; is_text = l },
    )
