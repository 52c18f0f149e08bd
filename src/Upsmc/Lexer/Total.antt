-- ===== src/Upsmc/Lexer/Total.antt =====
-- `next_token` of internal/lexer.rs on every input: the three outcomes, and that there is no other.
use nut_webgui.Prelude.{
  ℕ, ◌<◌, ◌≡◌, refl, ap, ◌∙◌, [], ◌∷◌, ◌++◌, ◌⊎◌, inl, inr, true, false, length, All, none, ◌==◌,
  ==_iff, arith, Bool-cases, length-append,
}
use nut_webgui.Upsmc.Text.{Bytes, is_ascii_whitespace}
use nut_webgui.Upsmc.Error.{parse_error, expected_double_quote, Result, ok, err}
use nut_webgui.Upsmc.Lexer.{
  State, move_read_head, read_quoted_loop, read_quoted_text, skip, quoted_token, next_token_loop,
  next_token,
}
use nut_webgui.Upsmc.Lexer.Cursor.{At, move_read_head-At, with_rest-At}
use nut_webgui.Upsmc.Lexer.Scan.{
  IsBlank, IsWordByte, Ends, Body, nil, Lexeme, quoted, line_feed, word, Scans, at_line_feed,
  at_word, at_quoted, ReadsToken,
}
use nut_webgui.Upsmc.Lexer.Reads.{next_token_loop-blank, next_token-Scans, next_token-blank}

-- The bytes behind a double quote that is never closed: a backslash may end the text.
pub data OpenBody : Bytes → Type 0 where
  end : OpenBody []
  last : {b : ℕ} → (b == b'\\') ≡ true → OpenBody (b ∷ [])
  escape : {b c : ℕ} {cs : Bytes} → (b == b'\\') ≡ true → OpenBody cs → OpenBody (b ∷ c ∷ cs)
  plain :
      {c : ℕ} {cs : Bytes}
      → (c == b'\\') ≡ false
      → (c == b'"') ≡ false
      → OpenBody cs
      → OpenBody (c ∷ cs)

pub record Unterminated (input : Bytes) : Type 0 where
  pub ws : Bytes
  pub body : Bytes
  pub blank : All IsBlank ws
  pub open_body : OpenBody body
  pub splits : input ≡ ws ++ (b'"' ∷ body)

abbrev Closes : Bytes → Type 0
Closes b = (body : Bytes) × (rest : Bytes) × Body body × (b ≡ body ++ (b'"' ∷ rest))

Closes-or_open : (b : Bytes) → Closes b ⊎ OpenBody b
Closes-or_open [] = inr end
Closes-or_open (c ∷ []) = elim (Bool-cases (c == b'\\')) [
  | inl e ↦ inr (last e)
  | inr e ↦ elim (Bool-cases (c == b'"')) [
    | inl q ↦ inl ([], [], nil, ap (λ x. x ∷ []) ((==_iff c _).0 q))
    | inr q ↦ inr (plain e q end)
  ]
]
Closes-or_open (c ∷ d ∷ cs) = elim (Bool-cases (c == b'\\')) [
  | inl e ↦ elim (Closes-or_open cs) [
    | inl (body, rest, h, k) ↦ inl (c ∷ d ∷ body, rest, Body.escape e h, ap (λ x. c ∷ d ∷ x) k)
    | inr o ↦ inr (escape e o)
  ]
  | inr e ↦ elim (Bool-cases (c == b'"')) [
    | inl q ↦ inl ([], d ∷ cs, nil, ap (λ x. x ∷ d ∷ cs) ((==_iff c _).0 q))
    | inr q ↦ elim (Closes-or_open (d ∷ cs)) [
      | inl (body, rest, h, k) ↦ inl (c ∷ body, rest, Body.plain e q h, ap (◌∷◌ c) k)
      | inr o ↦ inr (plain e q o)
    ]
  ]
]

abbrev Splits : Bytes → Type 0
Splits b = (w : Bytes) × (rest : Bytes) × All IsWordByte w × Ends rest × (b ≡ w ++ rest)

split_word : (b : Bytes) → Splits b
split_word [] = ([], [], tt, tt, refl)
split_word (c ∷ cs) = elim (Bool-cases (is_ascii_whitespace c)) [
  | inl e ↦ ([], c ∷ cs, tt, e, refl)
  | inr e ↦ let (w, rest, h, k, p) = split_word cs in (c ∷ w, rest, (e, h), k, ap (◌∷◌ c) p)
]

-- What stands ahead: nothing but white space, a lexeme, or an open quote.
abbrev Ahead : Bytes → Type 0
Ahead input =
    All IsBlank input
    ⊎ ((lexeme : Lexeme) × (rest : Bytes) × Scans input lexeme rest)
    ⊎ Unterminated input

Ahead-blank : (c : ℕ) (input : Bytes) → IsBlank c → Ahead input → Ahead (c ∷ input)
Ahead-blank c input h (inl b) = inl (h, b)
Ahead-blank c input h (inr (inl (_, rest, at_line_feed ws b e))) =
    inr (inl (line_feed, rest, at_line_feed (c ∷ ws) (h, b) (ap (◌∷◌ c) e)))
Ahead-blank c input h (inr (inl (_, rest, at_word ws b q w f e))) =
    inr (inl (_, rest, at_word (c ∷ ws) (h, b) q w f (ap (◌∷◌ c) e)))
Ahead-blank c input h (inr (inl (_, rest, at_quoted ws b d e))) =
    inr (inl (_, rest, at_quoted (c ∷ ws) (h, b) d (ap (◌∷◌ c) e)))
Ahead-blank c input h (inr (inr u)) = inr (
    inr (record {
      ws = c ∷ u.ws;
      body = u.body;
      blank = (h, u.blank);
      open_body = u.open_body;
      splits = ap (◌∷◌ c) u.splits;
    }))

Ahead-quote : (c : ℕ) (cs : Bytes) → (c == b'"') ≡ true → Ahead (c ∷ cs)
Ahead-quote c cs q =
    let e : c ≡ b'"' = (==_iff c _).0 q in
    elim (Closes-or_open cs) [
      | inl (body, rest, h, k) ↦ inr (
          inl (
            quoted body,
            rest,
            at_quoted [] tt h (ap (◌∷◌ c) k ∙ ap (λ x. x ∷ (body ++ (b'"' ∷ rest))) e),
          ))
      | inr o ↦ inr (
          inr
            (record { ws = []; body = cs; blank = tt; open_body = o; splits = ap (λ x. x ∷ cs) e }))
    ]

Ahead-word :
    (c : ℕ) (cs : Bytes) → (c == b'"') ≡ false → is_ascii_whitespace c ≡ false → Ahead (c ∷ cs)
Ahead-word c cs q w =
    let (ds, rest, h, e, k) = split_word cs in
    inr (inl (word (c ∷ ds), rest, at_word [] tt q (w, h) e (ap (◌∷◌ c) k)))

Ahead-total : (input : Bytes) → Ahead input
Ahead-total [] = inl tt
Ahead-total (c ∷ cs) =
    let later = Ahead-total cs in
    elim (Bool-cases (c == b'\n')) [
      | inl e ↦ inr (inl (line_feed, cs, at_line_feed [] tt (ap (λ x. x ∷ cs) ((==_iff c _).0 e))))
      | inr e ↦ elim (Bool-cases (is_ascii_whitespace c)) [
        | inl w ↦ Ahead-blank c cs (w, e) later
        | inr w ↦ elim (Bool-cases (c == b'"')) [
          | inl q ↦ Ahead-quote c cs q
          | inr q ↦ Ahead-word c cs q w
        ]
      ]
    ]

abbrev pub Fails : {A : Type 0} → Result A × State → Type 0
Fails r = (t : State) × (r ≡ (err (parse_error expected_double_quote t.position), t))

read_quoted_loop-OpenBody :
    {body : Bytes} (s : State) → OpenBody body → Fails (read_quoted_loop false body s)
unfolding read_quoted_loop
read_quoted_loop-OpenBody s end = (s, refl)
read_quoted_loop-OpenBody s (last e) = (move_read_head s 2, ground arith)
read_quoted_loop-OpenBody s (escape e o) =
    let (t, r) = read_quoted_loop-OpenBody (move_read_head s 2) o in (t, ground (arith, r))
read_quoted_loop-OpenBody s (plain e q o) =
    let (t, r) = read_quoted_loop-OpenBody (move_read_head s 1) o in (t, ground (arith, r))

module _ {buffer : Bytes} where
  quoted_token-OpenBody :
      {body : Bytes} (s : State)
      → OpenBody body
      → At buffer s (b'"' ∷ body)
      → Fails (quoted_token buffer s)
  unfolding quoted_token read_quoted_text skip
  quoted_token-OpenBody s o v =
      let (t, r) = read_quoted_loop-OpenBody (move_read_head s 1) o in
      (t, rw (with_rest-At _ (move_read_head-At v), r))

  next_token-Unterminated :
      {input : Bytes} (s : State)
      → Unterminated input
      → At buffer s input
      → Fails (next_token buffer s)
  unfolding next_token next_token_loop is_ascii_whitespace
  next_token-Unterminated s u v =
      rw (with_rest-At _ v, u.splits)
        (let (t, r, w) = next_token_loop-blank u.ws _ s u.blank (rw u.splits at v) in
          rw r (quoted_token-OpenBody t u.open_body w))

  -- From any state in front of the rest of a text, next_token has one of three outcomes: nothing
  -- but white space is left, and there is no token; or it reads the lexeme ahead and stops behind
  -- it; or a double quote is never closed, which is the one error. It never panics.
  pub next_token_total :
      {input : Bytes} (s : State)
      → At buffer s input
      → (All IsBlank input × (t : State) × (next_token buffer s ≡ (ok none, t)) × At buffer t [])
        ⊎ ((lexeme : Lexeme) × (rest : Bytes) × Scans input lexeme rest
            × ReadsToken buffer lexeme rest (next_token buffer s))
        ⊎ (Unterminated input × Fails (next_token buffer s))
  next_token_total {input} s v = elim (Ahead-total input) [
    | inl b ↦ let (t, r, u) = next_token-blank s b v in inl (b, t, r, u)
    | inr (inl (lexeme, rest, h)) ↦ inr (inl (lexeme, rest, h, next_token-Scans s h v))
    | inr (inr u) ↦ inr (inr (u, next_token-Unterminated s u v))
  ]

-- A token costs at least one byte, so a text has no more tokens than bytes.
pub Scans-length :
    {input rest : Bytes} {lexeme : Lexeme} → Scans input lexeme rest → length rest < length input
Scans-length (at_line_feed ws {rest} h e) = rw e (omega (arith, length-append ws (b'\n' ∷ rest)))
Scans-length (at_word ws {cs} {rest} {c} h q w f e) =
    rw e (omega (arith, length-append ws (c ∷ (cs ++ rest)), length-append cs rest))
Scans-length (at_quoted ws {body} {rest} h b e) = rw e (
    omega
      (arith, length-append ws (b'"' ∷ (body ++ (b'"' ∷ rest))), length-append body (b'"' ∷ rest)))
