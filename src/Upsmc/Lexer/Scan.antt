-- ===== src/Upsmc/Lexer/Scan.antt =====
-- What the tokens of internal/lexer.rs are, said of the bytes alone, and that the lexer reads them.
use nut_webgui.Prelude.{
  ◌≤◌, ℕ, ◌+◌, ◌≡◌, [], ◌∷◌, ◌++◌, true, false, length, drop, All, Option, some, ◌==◌,
}
use nut_webgui.Upsmc.Text.{Bytes, is_ascii_whitespace}
use nut_webgui.Upsmc.Text.Slices.{Starts}
use nut_webgui.Upsmc.Error.{Result, ok}
use nut_webgui.Upsmc.Lexer.{State, Token, quoted_text, lf, text}
use nut_webgui.Upsmc.Lexer.Cursor.{At}

-- White space inside a line.
abbrev pub IsBlank : ℕ → Type 0
IsBlank c = (is_ascii_whitespace c ≡ true) × ((c == b'\n') ≡ false)

abbrev pub IsWordByte : ℕ → Type 0
IsWordByte c = is_ascii_whitespace c ≡ false

-- The end of a word: the end of the text, or white space.
abbrev pub Ends : Bytes → Type 0
Ends [] = Unit
Ends (c ∷ cs) = is_ascii_whitespace c ≡ true

-- What may stand between double quotes: each backslash takes the byte behind it along.
pub data Body : Bytes → Type 0 where
  nil : Body []
  escape : {b c : ℕ} {cs : Bytes} → (b == b'\\') ≡ true → Body cs → Body (b ∷ c ∷ cs)
  plain :
      {c : ℕ} {cs : Bytes} → (c == b'\\') ≡ false → (c == b'"') ≡ false → Body cs → Body (c ∷ cs)

pub data Lexeme : Type 0 where
  quoted : Bytes → Lexeme
  line_feed : Lexeme
  word : Bytes → Lexeme

-- `input` begins with this lexeme, behind white space, and `rest` follows it.
pub data Scans (input : Bytes) : Lexeme → Bytes → Type 0 where
  at_line_feed :
      (ws : Bytes) {rest : Bytes}
      → All IsBlank ws
      → input ≡ ws ++ (b'\n' ∷ rest)
      → Scans input line_feed rest
  at_word :
      (ws : Bytes) {cs rest : Bytes} {c : ℕ}
      → All IsBlank ws
      → (c == b'"') ≡ false
      → All IsWordByte (c ∷ cs)
      → Ends rest
      → input ≡ ws ++ (c ∷ (cs ++ rest))
      → Scans input (word (c ∷ cs)) rest
  at_quoted :
      (ws : Bytes) {body rest : Bytes}
      → All IsBlank ws
      → Body body
      → input ≡ ws ++ (b'"' ∷ (body ++ (b'"' ∷ rest)))
      → Scans input (quoted body) rest

-- The token's offsets cut its lexeme out of the buffer.
abbrev pub Cuts : Bytes → ℕ → ℕ → Bytes → Type 0
Cuts buffer start end t =
    (after : Bytes) × (drop start buffer ≡ t ++ after)
    × (end ≡ start + length t)
    × (start ≤ length buffer)
    × Starts after

abbrev pub Denotes : Bytes → Token → Lexeme → Type 0
Denotes buffer lf line_feed = Unit
Denotes buffer (text start end) (word t) = Cuts buffer start end t
Denotes buffer (quoted_text start end) (quoted t) = Cuts buffer start end t
Denotes buffer _ _ = ⊥

-- The method takes the lexer from `input` to `rest` and returns a value with this property.
abbrev pub Reads : {A : Type 0} → Bytes → (A → Type 0) → Bytes → Result A × State → Type 0
Reads {A} buffer P rest r = (a : A) × (t : State) × (r ≡ (ok a, t)) × P a × At buffer t rest

abbrev pub ReadsToken : Bytes → Lexeme → Bytes → Result (Option Token) × State → Type 0
ReadsToken buffer lexeme = Reads buffer (λ o. (t : Token) × (o ≡ some t) × Denotes buffer t lexeme)
