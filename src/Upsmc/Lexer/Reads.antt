-- ===== src/Upsmc/Lexer/Reads.antt =====
-- `next_token` of internal/lexer.rs reads the lexeme that stands ahead of it.
use nut_webgui.Prelude.{
  ℕ, ◌+◌, ◌≡◌, refl, [], ◌∷◌, ◌++◌, false, length, All, some, none, ◌==◌, arith, append-nil,
}
use nut_webgui.Upsmc.Text.{Bytes, is_ascii_whitespace}
use nut_webgui.Upsmc.Text.Slices.{Starts}
use nut_webgui.Upsmc.Error.{ok}
use nut_webgui.Upsmc.Lexer.{
  State, quoted_text, lf, text, move_read_head, next_line, read_text_loop, read_text,
  read_quoted_loop, read_quoted_text, skip, quoted_token, text_token, next_token_loop, next_token,
}
use nut_webgui.Upsmc.Lexer.Cursor.{
  At, move_read_head-suc, move_read_head-At, next_line-At, with_rest-At, move_read_head_two,
}
use nut_webgui.Upsmc.Lexer.Scan.{
  IsBlank, IsWordByte, Ends, Body, nil, escape, plain, Lexeme, quoted, line_feed, word, Scans,
  at_line_feed, at_word, at_quoted, ReadsToken,
}

-- White space is ASCII.
pub Ends-Starts : (rest : Bytes) → Ends rest → Starts rest
unfolding is_ascii_whitespace
Ends-Starts [] h = refl
Ends-Starts (c ∷ cs) h = ground arith

module _ {buffer : Bytes} where
  read_text_loop-At :
      (w rest : Bytes) (s : State)
      → All IsWordByte w
      → Ends rest
      → At buffer s (w ++ rest)
      → (t : State) × (read_text_loop (w ++ rest) s.read_head s ≡ (s.read_head + length w, t))
        × At buffer t rest
  unfolding read_text_loop
  read_text_loop-At [] [] s h e v = (s, ground arith, v)
  read_text_loop-At [] (c ∷ rest) s h e v = (s, ground arith, v)
  read_text_loop-At (c ∷ w) rest s h e v =
      let (t, r, u) = read_text_loop-At w rest (move_read_head s 1) h.1 e (move_read_head-At v) in
      (t, ground (arith, r, move_read_head-suc v), u)

  read_quoted_loop-At :
      {body : Bytes} (rest : Bytes) (s : State)
      → Body body
      → At buffer s (body ++ (b'"' ∷ rest))
      → (t : State) × (read_quoted_loop false (body ++ (b'"' ∷ rest)) s
          ≡ (ok (s.read_head + length body), t))
        × At buffer t (b'"' ∷ rest)
        × (t.read_head ≡ s.read_head + length body)
  unfolding read_quoted_loop
  read_quoted_loop-At rest s nil v = (s, ground arith, v, omega arith)
  read_quoted_loop-At rest s (escape e b) v =
      let (a, h) = move_read_head_two v in
      let (t, r, u, k) = read_quoted_loop-At rest (move_read_head s 2) b a in
      (t, ground (arith, r, h), u, omega (arith, k, h))
  read_quoted_loop-At rest s (plain e q b) v =
      let h = move_read_head-suc v in
      let (t, r, u, k) = read_quoted_loop-At rest (move_read_head s 1) b (move_read_head-At v) in
      (t, ground (arith, r, h), u, omega (arith, k, h))

  text_token-At :
      (w rest : Bytes) (s : State)
      → All IsWordByte w
      → Ends rest
      → At buffer s (w ++ rest)
      → ReadsToken buffer (word w) rest (text_token buffer s)
  unfolding text_token read_text
  text_token-At w rest s h e v =
      let (t, r, u) = read_text_loop-At w rest s h e v in
      (
        some (text s.read_head (s.read_head + length w)),
        t,
        rw (with_rest-At _ v, r),
        (
          text s.read_head (s.read_head + length w),
          refl,
          (rest, v.ahead, refl, v.inside, Ends-Starts rest e),
        ),
        u,
      )

  quoted_token-At :
      (body rest : Bytes) (s : State)
      → Body body
      → At buffer s (b'"' ∷ (body ++ (b'"' ∷ rest)))
      → ReadsToken buffer (quoted body) rest (quoted_token buffer s)
  unfolding quoted_token read_quoted_text skip
  quoted_token-At body rest s h v =
      let begins = move_read_head-At v in
      let (t, r, u, k) = read_quoted_loop-At rest (move_read_head s 1) h begins in
      let start = (move_read_head s 1).read_head in
      (
        some (quoted_text start (start + length body)),
        move_read_head t 1,
        rw (with_rest-At _ begins, r),
        (
          quoted_text start (start + length body),
          refl,
          (b'"' ∷ rest, begins.ahead, refl, begins.inside, refl),
        ),
        move_read_head-At u,
      )

  pub next_token_loop-blank :
      (ws rest : Bytes) (s : State)
      → All IsBlank ws
      → At buffer s (ws ++ rest)
      → (t : State) × (next_token_loop buffer (ws ++ rest) s ≡ next_token_loop buffer rest t)
        × At buffer t rest
  unfolding next_token_loop
  next_token_loop-blank [] rest s h v = (s, refl, v)
  next_token_loop-blank (c ∷ ws) rest s h v =
      let (t, r, u) =
        next_token_loop-blank ws rest (move_read_head s 1) h.1 (move_read_head-At v) in
      (t, ground (arith, r, h.0), u)

  next_token_loop-line_feed :
      (rest : Bytes) (s : State)
      → At buffer s (b'\n' ∷ rest)
      → ReadsToken buffer line_feed rest (next_token_loop buffer (b'\n' ∷ rest) s)
  unfolding next_token_loop
  next_token_loop-line_feed rest s v =
      (some lf, next_line s 0, ground arith, (lf, refl, tt), next_line-At 0 v)

  next_token_loop-word :
      (c : ℕ) (cs rest : Bytes) (s : State)
      → (c == b'"') ≡ false
      → All IsWordByte (c ∷ cs)
      → Ends rest
      → At buffer s (c ∷ (cs ++ rest))
      → ReadsToken buffer (word (c ∷ cs)) rest (next_token_loop buffer (c ∷ (cs ++ rest)) s)
  unfolding next_token_loop is_ascii_whitespace
  next_token_loop-word c cs rest s q h e v =
      let (o, t, r, d, u) = text_token-At (c ∷ cs) rest s h e v in
      (o, t, ground (arith, r, h.0), d, u)

  next_token_loop-quoted :
      (body rest : Bytes) (s : State)
      → Body body
      → At buffer s (b'"' ∷ (body ++ (b'"' ∷ rest)))
      → ReadsToken buffer
          (quoted body)
          rest
          (next_token_loop buffer (b'"' ∷ (body ++ (b'"' ∷ rest))) s)
  unfolding next_token_loop is_ascii_whitespace
  next_token_loop-quoted body rest s h v =
      let (o, t, r, d, u) = quoted_token-At body rest s h v in (o, t, ground (arith, r), d, u)

  next_token_loop-Scans :
      {input rest : Bytes} {lexeme : Lexeme} (s : State)
      → Scans input lexeme rest
      → At buffer s input
      → ReadsToken buffer lexeme rest (next_token_loop buffer input s)
  next_token_loop-Scans {rest} s (at_line_feed ws h e) v = rw e (
      let (t, r, u) = next_token_loop-blank ws _ s h (rw e at v) in
      rw r (next_token_loop-line_feed rest t u))
  next_token_loop-Scans {rest} s (at_word ws {cs} {c} h q w f e) v = rw e (
      let (t, r, u) = next_token_loop-blank ws _ s h (rw e at v) in
      rw r (next_token_loop-word c cs rest t q w f u))
  next_token_loop-Scans {rest} s (at_quoted ws {body} h b e) v = rw e (
      let (t, r, u) = next_token_loop-blank ws _ s h (rw e at v) in
      rw r (next_token_loop-quoted body rest t b u))

  -- The lexer reads the lexeme that stands ahead of it, and stops behind it.
  pub next_token-Scans :
      {input rest : Bytes} {lexeme : Lexeme} (s : State)
      → Scans input lexeme rest
      → At buffer s input
      → ReadsToken buffer lexeme rest (next_token buffer s)
  unfolding next_token
  next_token-Scans s h v = rw (with_rest-At _ v) (next_token_loop-Scans s h v)

  pub next_token-blank :
      {input : Bytes} (s : State)
      → All IsBlank input
      → At buffer s input
      → (t : State) × (next_token buffer s ≡ (ok none, t)) × At buffer t []
  unfolding next_token next_token_loop
  next_token-blank {input} s h v =
      let (t, r, u) = next_token_loop-blank input [] s h (rw append-nil v) in
      (t, rw (with_rest-At _ v) (rw append-nil at r), u)
