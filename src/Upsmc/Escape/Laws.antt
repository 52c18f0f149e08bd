-- ===== src/Upsmc/Escape/Laws.antt =====
-- internal/escape.rs never panics, copies only when it must, and the lexer undoes it.
use mathlib.Core.Option
use nut_webgui.Prelude.{
  refl, ap, ◌≤◌, inr, append_assoc, ◌∙◌, length-append, some, ◌||◌, inl, Bool-cases, ◌≢◌, ◌<◌, true,
  sym, false, append-nil, length, if◌then◌else◌, Bool, ℕ, ◌+◌, ◌≡◌, [], ◌∷◌, ◌++◌, arith,
}
use nut_webgui.Upsmc.Text.{Bytes, encode_latin1}
use nut_webgui.Upsmc.Text.Slices.{Starts, IsText}
use nut_webgui.Upsmc.Lexer.{push_slice}
use nut_webgui.Upsmc.Lexer.Extract.{
  EscapesAscii, push_slice-Copies, list_cases, encode_latin1-ascii, push_slice_pending, Copies,
}
use nut_webgui.Upsmc.Lexer.Tokens.{value, IsAscii}
use nut_webgui.Upsmc.Lexer.Scan.{plain, nil, escape, Body, Scans, quoted, at_quoted}
use nut_webgui.Upsmc.Lexer.Extract.{plain_text}
use nut_webgui.Upsmc.Escape.{
  as_ref, borrowed, owned, finish_escape, escape_nut_str, is_special, escape_loop,
}

-- A backslash in front of each double quote and each backslash.
unfoldable pub escaped : Bytes → Bytes
escaped [] = []
escaped (c ∷ cs) = if is_special c then b'\\' ∷ c ∷ escaped cs else c ∷ escaped cs

unfoldable pub has_special : Bytes → Bool
has_special [] = false
has_special (c ∷ cs) = is_special c || has_special cs

escape_loop-Copies :
    (rest t plainly pre pending out : Bytes) (idx start : ℕ)
    → t ≡ pre ++ (pending ++ rest)
    → plainly ≡ out ++ (pending ++ escaped rest)
    → idx ≡ length pre + length pending
    → start ≡ length pre
    → IsText rest
    → Starts (pending ++ rest)
    → (out ≡ [] → pre ≡ [])
    → Copies t plainly (escape_loop t rest idx start out)
unfolding escape_loop escaped
escape_loop-Copies [] t plainly pre pending out idx start et ep ei es i h u = record {
  pre = pre;
  pending = pending;
  copied = out;
  splits = rw append-nil at et;
  starts = rw append-nil at h;
  gives = rw es;
  total = sym (rw append-nil at ep);
  untouched = u;
}
escape_loop-Copies (c ∷ cs) t plainly pre pending out idx start et ep ei es i h u =
    elim (Bool-cases (is_special c)) [
      | inl e ↦
          let small : c < 128 = special-lt c e in
          let push : push_slice t start idx out ≡ some (out ++ pending) =
            rw (et, ei, es)
              (push_slice_pending pre pending (c ∷ cs) out h (ground (arith, small))) in
          let past = pre ++ (pending ++ (c ∷ [])) in
          let length-past : length past ≡ length pre + length pending + 1 =
            omega
              (arith, length-append pre (pending ++ (c ∷ [])), length-append pending (c ∷ [])) in
          let next : Starts cs = ground (arith, i.0, small) in
          let piece = b'\\' ∷ encode_latin1 c in
          rw (e, escape_loop, push)
            (escape_loop-Copies cs t plainly past [] ((out ++ pending) ++ piece) (idx + 1) (idx + 1)
              (et ∙ simp append_assoc)
              ((rw e at ep) ∙ rw (encode_latin1-ascii c small) (simp append_assoc))
              (omega (arith, length-past, ei)) (omega (arith, length-past, ei)) i.1 next
              (λ z. absurd (append-ne-nil (out ++ pending) b'\\' (encode_latin1 c) z)))
      | inr e ↦
          rw (e, escape_loop)
            (escape_loop-Copies cs t plainly pre (pending ++ (c ∷ [])) out (idx + 1) start
              (et ∙ simp append_assoc) ((rw e at ep) ∙ simp append_assoc)
              (omega (arith, length-append pending (c ∷ []), ei)) es i.1 (simp append_assoc h) u)
    ]
  where
    special-lt : (c : ℕ) → is_special c ≡ true → c < 128
    special-lt c e = unfold is_special in ground arith

    append-ne-nil : (o : Bytes) (x : ℕ) (xs : Bytes) → o ++ (x ∷ xs) ≢ []
    append-ne-nil [] x xs e = cc
    append-ne-nil (y ∷ o) x xs e = cc

escape_loop_plain :
    (t rest out : Bytes) (idx start : ℕ)
    → has_special rest ≡ false
    → escape_loop t rest idx start out ≡ some (out, start)
unfolding escape_loop has_special
escape_loop_plain t [] out idx start h = refl
escape_loop_plain t (c ∷ cs) out idx start h =
    ground (arith, escape_loop_plain t cs out (idx + 1) start)

length-escaped_le : (t : Bytes) → length t ≤ length (escaped t)
unfolding escaped
length-escaped_le [] = omega arith
length-escaped_le (c ∷ cs) = ground (arith, length-escaped_le cs)

length-escaped_lt : (t : Bytes) → has_special t ≡ true → length t < length (escaped t)
unfolding escaped has_special
length-escaped_lt [] h = cc
length-escaped_lt (c ∷ cs) h = ground (arith, length-escaped_lt cs, length-escaped_le cs)

escape_nut_str-Copies :
    (t : Bytes)
    → has_special t ≡ true
    → Copies t (escaped t) (escape_loop t t 0 0 [])
    → escape_nut_str t ≡ some (owned (escaped t))
unfolding escape_nut_str finish_escape
escape_nut_str-Copies t h e = elim (list_cases e.copied) [
  | inl none_copied ↦
      let same : t ≡ escaped t =
        e.splits ∙ rw (e.untouched none_copied) (rw none_copied at e.total) in
      absurd (omega (arith, length-escaped_lt t h, ap length same))
  | inr (c, cs, some_copied) ↦
      let last = push_slice-Copies t e in ground (arith, e.gives, some_copied, last)
]

-- On well-formed UTF-8, escape_nut_str does not panic: it puts a backslash in front of each double
-- quote and backslash, and copies the text only if there is one.
pub escape_nut_str_lem :
    (t : Bytes)
    → IsText t
    → Starts t
    → escape_nut_str t ≡ some (if has_special t then owned (escaped t) else borrowed t)
unfolding escape_nut_str finish_escape
escape_nut_str_lem t i h = elim (Bool-cases (has_special t)) [
  | inl e ↦ rw e (
      escape_nut_str-Copies t e
        (escape_loop-Copies t t (escaped t) [] [] [] 0 0 refl refl refl refl i h (λ _. refl)))
  | inr e ↦ rw (e, escape_loop_plain t t [] 0 0 e)
]

-- A text with nothing to escape stands for itself.
escaped_plain : (t : Bytes) → has_special t ≡ false → escaped t ≡ t
unfolding escaped has_special
escaped_plain [] h = refl
escaped_plain (c ∷ cs) h = ground (arith, escaped_plain cs)

-- The bytes that are sent, whether copied or not.
pub as_ref-escape_nut_str :
    (t : Bytes) → IsText t → Starts t → Option.map as_ref (escape_nut_str t) ≡ some (escaped t)
as_ref-escape_nut_str t i h = elim (Bool-cases (has_special t)) [
  | inl e ↦ rw (escape_nut_str_lem t i h, e)
  | inr e ↦ rw (escape_nut_str_lem t i h, e, escaped_plain t e)
]

-- What is escaped may stand between double quotes, and is read back there.
pub record Quotable (t q : Bytes) : Type 0 where
  pub body : Body q
  pub reads : plain_text body ≡ t
  pub ascii : EscapesAscii body

escaped_Quotable-cons :
    (c : ℕ) (cs q : Bytes)
    → Quotable cs q
    → Quotable (c ∷ cs) (if is_special c then b'\\' ∷ c ∷ q else c ∷ q)
unfolding is_special plain_text
escaped_Quotable-cons c cs q v = elim (Bool-cases (is_special c)) [
  | inl e ↦ rw e (record {
    body = escape refl v.body;
    reads = ap (◌∷◌ c) v.reads;
    ascii = (ground arith, v.ascii);
  })
  | inr e ↦ rw e (record {
    body = plain (ground arith) (ground arith) v.body;
    reads = ap (◌∷◌ c) v.reads;
    ascii = v.ascii;
  })
]

pub escaped-Quotable : (t : Bytes) → Quotable t (escaped t)
unfolding escaped plain_text
escaped-Quotable [] = record { body = nil; reads = refl; ascii = tt }
escaped-Quotable (c ∷ cs) = escaped_Quotable-cons c cs (escaped cs) (escaped-Quotable cs)

-- What is sent between double quotes comes out of the lexer as it was, in front of any rest.
pub escaped-Scans :
    (t rest : Bytes)
    → (h : Scans (b'"' ∷ (escaped t ++ (b'"' ∷ rest))) (quoted (escaped t)) rest) × (value h ≡ t)
      × IsAscii h
unfolding value
escaped-Scans t rest = let q = escaped-Quotable t in (at_quoted [] tt q.body refl, q.reads, q.ascii)
