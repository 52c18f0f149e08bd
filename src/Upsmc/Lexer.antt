-- ===== src/Upsmc/Lexer.antt =====
-- internal/lexer.rs. The lexer is its buffer, which never changes, and a `State`; a method that
-- takes `&mut self` is a function from the state to its outcome and the new state.
pub mod Cursor
pub mod Scan
pub mod Reads
pub mod Total
pub mod Extract
pub mod Panic
pub mod Tokens
mod Tests
use mathlib.Core.Option
use nut_webgui.Prelude.{
  ℕ, ◌+◌, Bool, true, false, [], ◌∷◌, ◌++◌, Option, none, some, and_then, length, drop, ltb, leb,
  ◌==◌, if◌then◌else◌,
}
use nut_webgui.Upsmc.Text.{Bytes, is_ascii_whitespace, slice, encode_latin1, saturating_add}
use nut_webgui.Upsmc.Error.{
  Position, Error, parse_error, expected_double_quote, Result, ok, err, panic, diverged,
}

-- Both numbers of a token are offsets into the buffer.
pub data Token : Type 0 where
  quoted_text : ℕ → ℕ → Token
  lf : Token
  text : ℕ → ℕ → Token

pub record State : Type 0 where
  pub read_head : ℕ
  pub position : Position

abbrev pub M : Type 0 → Type 0
M A = State → Result A × State

abbrev pub bind : {A B : Type 0} → Result A × State → (A → M B) → Result B × State
bind (ok a, s) f = f a s
bind (err e, s) f = (err e, s)
bind (panic, s) f = (panic, s)
bind (diverged, s) f = (diverged, s)

infixl 5 ◌>>=◌ ◌>>◌
abbrev pub ◌>>=◌ : {A B : Type 0} → M A → (A → M B) → M B
◌>>=◌ m f s = bind (m s) f

abbrev pub ◌>>◌ : {B : Type 0} → M (Unit {0}) → M B → M B
m >> k = m >>= λ _. k

abbrev pub return : {A : Type 0} → A → M A
return a s = (ok a, s)

abbrev pub fail : {A : Type 0} → Error → M A
fail e s = (err e, s)

-- `new`.
abbrev pub init : State
init = record { read_head = 0; position = record { line = 1; col = 1 } }

unfoldable pub move_read_head : State → ℕ → State
move_read_head s by = record {
  read_head = saturating_add s.read_head by;
  position = record { line = s.position.line; col = saturating_add s.position.col by };
}

-- What a line feed does to the state; the two callers disagree on the column.
unfoldable pub next_line : State → ℕ → State
next_line s col = record {
  read_head = s.read_head + 1;
  position = record { line = s.position.line + 1; col = col };
}

-- `&self.buffer.as_bytes()[start..]`, which panics behind the end.
unfoldable pub with_rest : {A : Type 0} → Bytes → (Bytes → M A) → M A
with_rest buffer k s =
    if leb s.read_head (length buffer) then k (drop s.read_head buffer) s else (panic, s)

unfoldable pub read_text_loop : Bytes → ℕ → State → ℕ × State
read_text_loop [] end s = (end, s)
read_text_loop (c ∷ cs) end s =
    if is_ascii_whitespace c
    then (end, s)
    else read_text_loop cs (move_read_head s 1).read_head (move_read_head s 1)

unfoldable pub read_text : Bytes → M (ℕ × ℕ)
read_text buffer =
    with_rest buffer
      λ rest s. let (end, t) = read_text_loop rest s.read_head s in (ok (s.read_head, end), t)

-- The end of the quoted text, at its closing quote. The flag says that a backslash takes the
-- next byte along (`_ = buffer_iter.next()`); the read head is past that byte already.
unfoldable pub read_quoted_loop : Bool → Bytes → M ℕ
read_quoted_loop escaped [] s = (err (parse_error expected_double_quote s.position), s)
read_quoted_loop true (c ∷ cs) s = read_quoted_loop false cs s
read_quoted_loop false (c ∷ cs) s = elim (c == b'\\') [
  | true ↦ read_quoted_loop true cs (move_read_head s 2)
  | false ↦ elim (c == b'"') [
    | true ↦ (ok s.read_head, s)
    | false ↦ read_quoted_loop false cs (move_read_head s 1)
  ]
]

abbrev from_start : ℕ → M ℕ → M (ℕ × ℕ)
from_start start m = do end ← m; return (start, end)

unfoldable pub read_quoted_text : Bytes → M (ℕ × ℕ)
read_quoted_text buffer =
    with_rest buffer λ rest s. from_start s.read_head (read_quoted_loop false rest) s

unfoldable pub skip : ℕ → M (Unit {0})
skip by s = (ok tt, move_read_head s by)

-- The two branches of `next_token` that build a token with a text.
unfoldable pub quoted_token : Bytes → M (Option Token)
quoted_token buffer = do
  skip 1
  (start, end) ← read_quoted_text buffer
  skip 1
  return (some (quoted_text start end))

unfoldable pub text_token : Bytes → M (Option Token)
text_token buffer = do (start, end) ← read_text buffer; return (some (text start end))

unfoldable pub next_token_loop : Bytes → Bytes → M (Option Token)
next_token_loop buffer [] s = (ok none, s)
next_token_loop buffer (c ∷ cs) s =
    if c == b'\n'
    then (ok (some lf), next_line s 0)
    else if is_ascii_whitespace c
    then next_token_loop buffer cs (move_read_head s 1)
    else if c == b'"'
    then quoted_token buffer s
    else text_token buffer s

unfoldable pub next_token : Bytes → M (Option Token)
next_token buffer = with_rest buffer (next_token_loop buffer)

-- `next_token` on a copy of the state. An error is no token here.
unfoldable pub peek : Bytes → M (Option Token)
peek buffer s = elim (next_token buffer s).0 [
  | ok token ↦ (ok token, s)
  | err e ↦ (ok none, s)
  | panic ↦ (panic, s)
  | diverged ↦ (diverged, s)
]

abbrev pub or_panic : {A : Type 0} → Option A → M A
or_panic none s = (panic, s)
or_panic (some a) s = (ok a, s)

-- The text of a token as it stands in the buffer, escapes included.
unfoldable pub raw_text : Bytes → Option Token → M (Option Bytes)
raw_text buffer none = return none
raw_text buffer (some lf) = return (some (b'\n' ∷ []))
raw_text buffer (some (text start end)) = do t ← or_panic (slice buffer start end); return (some t)
raw_text buffer (some (quoted_text start end)) = do
  t ← or_panic (slice buffer start end)
  return (some t)

unfoldable pub peek_as_str : Bytes → M (Option Bytes)
peek_as_str buffer = do token ← peek buffer; raw_text buffer token

unfoldable pub is_finished : Bytes → M Bool
is_finished buffer = do token ← peek buffer; return (elim token [ none ↦ true | some t ↦ false ])

unfoldable pub skip_whitespaces_loop : Bytes → State → State
skip_whitespaces_loop [] s = s
skip_whitespaces_loop (c ∷ cs) s =
    let after =
      skip_whitespaces_loop cs (if c == b'\n' then next_line s 1 else move_read_head s 1) in
    if is_ascii_whitespace c then after else s

unfoldable pub skip_whitespaces : Bytes → M (Unit {0})
skip_whitespaces buffer = with_rest buffer λ rest s. (ok tt, skip_whitespaces_loop rest s)

-- `extract_from_token`. The loop copies the text in slices between the escapes; `out` is the
-- buffer `escaped`, and `none` is the panic of a slice off a character boundary.
unfoldable pub push_slice : Bytes → ℕ → ℕ → Bytes → Option Bytes
push_slice t start end out =
    if ltb start end then Option.map (λ piece. out ++ piece) (slice t start end) else some out

-- The flag says that the byte is the one behind a backslash.
unfoldable pub unescape_loop : Bytes → Bool → Bytes → ℕ → ℕ → Bytes → Option (Bytes × ℕ)
unescape_loop t escaped [] idx slice_start out = some (out, slice_start)
unescape_loop t true (c ∷ cs) idx slice_start out =
    unescape_loop t false cs (idx + 1) (idx + 1) (out ++ encode_latin1 c)
unescape_loop t false (c ∷ cs) idx slice_start out = elim (c == b'\\') [
  | true ↦
      and_then (push_slice t slice_start idx out)
        (λ o. unescape_loop t true cs (idx + 1) slice_start o)
  | false ↦ unescape_loop t false cs (idx + 1) slice_start out
]

unfoldable pub finish_unescape : Bytes → Bytes × ℕ → Option Bytes
finish_unescape t ([], slice_start) = some t
finish_unescape t (o ∷ out, slice_start) = push_slice t slice_start (length t) (o ∷ out)

unfoldable pub unescape_text : Bytes → Option Bytes
unescape_text t = and_then (unescape_loop t false t 0 0 []) (finish_unescape t)

unfoldable pub extract_from_token : Bytes → Token → Option Bytes
extract_from_token buffer lf = some (b'\n' ∷ [])
extract_from_token buffer (text start end) = slice buffer start end
extract_from_token buffer (quoted_text start end) = and_then (slice buffer start end) unescape_text
