-- ===== src/Upsmc/Lexer/Cursor.antt =====
-- The read head of internal/lexer.rs as the bytes that lie ahead of it.
use nut_webgui.Prelude.{
  ℕ, suc, ◌+◌, ◌≤◌, ◌≡◌, ap, ◌∷◌, length, drop, length-drop, drop-suc, arith, le→leb,
}
use nut_webgui.Upsmc.Text.{Bytes, saturating_add}
use nut_webgui.Upsmc.Lexer.{State, M, move_read_head, next_line, with_rest}

-- No Rust allocation is longer than `isize::MAX` bytes.
abbrev pub isize_max : ℕ
isize_max = 9_223_372_036_854_775_807

-- The lexer stands in front of `rest`.
pub record At (buffer : Bytes) (s : State) (rest : Bytes) : Type 0 where
  pub ahead : drop s.read_head buffer ≡ rest
  pub inside : s.read_head ≤ length buffer
  pub allocated : length buffer ≤ isize_max

module _ {buffer : Bytes} {s : State} where
  pub At-length : {rest : Bytes} → At buffer s rest → s.read_head + length rest ≡ length buffer
  At-length v = omega (arith, ap length v.ahead, length-drop s.read_head buffer, v.inside)

  pub move_read_head-suc :
      {c : ℕ} {rest : Bytes}
      → At buffer s (c ∷ rest)
      → (move_read_head s 1).read_head ≡ suc s.read_head
  unfolding move_read_head saturating_add
  move_read_head-suc v = omega (arith, At-length v, v.allocated)

  pub move_read_head-At :
      {c : ℕ} {rest : Bytes} → At buffer s (c ∷ rest) → At buffer (move_read_head s 1) rest
  move_read_head-At v = record {
    ahead = rw (move_read_head-suc v) (drop-suc s.read_head buffer v.ahead);
    inside = omega (arith, At-length v, move_read_head-suc v);
    allocated = v.allocated;
  }

  pub next_line-At :
      {c : ℕ} {rest : Bytes} (col : ℕ) → At buffer s (c ∷ rest) → At buffer (next_line s col) rest
  unfolding next_line
  next_line-At col v =
      let e : s.read_head + 1 ≡ suc s.read_head = omega arith in
      record {
        ahead = rw e (drop-suc s.read_head buffer v.ahead);
        inside = omega (arith, At-length v);
        allocated = v.allocated;
      }

  pub with_rest-At :
      {A : Type 0} {rest : Bytes} (k : Bytes → M A)
      → At buffer s rest
      → with_rest buffer k s ≡ k rest s
  unfolding with_rest
  with_rest-At k v = rw (le→leb _ _ v.inside, v.ahead)

  -- An escape moves the read head over two bytes at once.
  pub move_read_head_two :
      {c d : ℕ} {rest : Bytes}
      → At buffer s (c ∷ d ∷ rest)
      → (At buffer (move_read_head s 2) rest)
        × ((move_read_head s 2).read_head ≡ suc (suc s.read_head))
  move_read_head_two {c} {d} {rest} v = (
    record {
      ahead = rw heads (drop-suc (suc s.read_head) buffer (drop-suc s.read_head buffer v.ahead));
      inside = omega (arith, At-length v, heads);
      allocated = v.allocated;
    },
    heads,
  )
    where
      heads : (move_read_head s 2).read_head ≡ suc (suc s.read_head)
      heads = unfold move_read_head saturating_add in omega (arith, At-length v, v.allocated)
