-- ===== src/Upsmc/Lexer/Extract.antt =====
-- `extract_from_token` of internal/lexer.rs: which text a quoted token stands for.
use nut_webgui.Prelude.{
  refl, inr, ap, inl, ◌⊎◌, ℕ, ◌+◌, ◌<◌, ◌≡◌, ◌≢◌, sym, ◌∙◌, false, [], ◌∷◌, ◌++◌, Option, some,
  length, length-append, append-nil, append_assoc, arith, lt→ltb,
}
use nut_webgui.Upsmc.Text.{Bytes, encode_latin1}
use nut_webgui.Upsmc.Text.Slices.{Starts, IsText, slice_middle}
use nut_webgui.Upsmc.Lexer.{finish_unescape, unescape_text, push_slice, unescape_loop}
use nut_webgui.Upsmc.Lexer.Scan.{Body, nil, escape, plain}

-- The text without its escapes: a backslash goes, and the byte behind it stays.
unfoldable pub plain_text : {t : Bytes} → Body t → Bytes
plain_text nil = []
plain_text (escape {c} e b) = c ∷ plain_text b
plain_text (plain {c} e q b) = c ∷ plain_text b

-- Every backslash is followed by an ASCII character.
abbrev pub EscapesAscii : {t : Bytes} → Body t → Type 0
EscapesAscii nil = Unit
EscapesAscii (escape {c} e b) = (c < 128) × EscapesAscii b
EscapesAscii (plain e q b) = EscapesAscii b

-- The pending bytes, from `slice_start` to the loop's index, are copied.
pub push_slice_pending :
    (pre pending rest out : Bytes)
    → Starts (pending ++ rest)
    → Starts rest
    → push_slice (pre ++ (pending ++ rest)) (length pre) (length pre + length pending) out
      ≡ some (out ++ pending)
unfolding push_slice
push_slice_pending pre [] rest out h k = rw append-nil (ground arith)
push_slice_pending pre (c ∷ p) rest out h k = ground (arith, slice_middle pre (c ∷ p) rest h k)

pub encode_latin1-ascii : (c : ℕ) → c < 128 → encode_latin1 c ≡ c ∷ []
unfolding encode_latin1
encode_latin1-ascii c h = rw (lt→ltb c 128 h)

pub list_cases : (o : Bytes) → (o ≡ []) ⊎ ((c : ℕ) × (cs : Bytes) × (o ≡ c ∷ cs))
list_cases [] = inl refl
list_cases (c ∷ cs) = inr (c, cs, refl)

-- How the loop ends: `copied`, and behind `slice_start` the bytes that are still to be copied.
pub record Copies (t plainly : Bytes) (r : Option (Bytes × ℕ)) : Type 0 where
  pub pre : Bytes
  pub pending : Bytes
  pub copied : Bytes
  pub splits : t ≡ pre ++ pending
  pub starts : Starts pending
  pub gives : r ≡ some (copied, length pre)
  pub total : copied ++ pending ≡ plainly
  pub untouched : copied ≡ [] → pre ≡ []

pub append_cons-ne-nil : (o : Bytes) (c : ℕ) → o ++ (c ∷ []) ≢ []
append_cons-ne-nil [] c e = cc
append_cons-ne-nil (x ∷ o) c e = cc

unescape_loop-Copies :
    {rest : Bytes} (b : Body rest) (t plainly pre pending out : Bytes) (idx start : ℕ)
    → t ≡ pre ++ (pending ++ rest)
    → plainly ≡ out ++ (pending ++ plain_text b)
    → idx ≡ length pre + length pending
    → start ≡ length pre
    → IsText rest
    → Starts (pending ++ rest)
    → EscapesAscii b
    → (out ≡ [] → pre ≡ [])
    → Copies t plainly (unescape_loop t false rest idx start out)
unfolding unescape_loop plain_text
unescape_loop-Copies nil t plainly pre pending out idx start et ep ei es i h a u = record {
  pre = pre;
  pending = pending;
  copied = out;
  splits = rw append-nil at et;
  starts = rw append-nil at h;
  gives = rw es;
  total = sym (rw append-nil at ep);
  untouched = u;
}
unescape_loop-Copies (escape {b = s} {c} {cs} e b) t plainly pre pending out idx start et ep ei es i
      h a u =
    let push : push_slice t start idx out ≡ some (out ++ pending) =
      rw (et, ei, es) (push_slice_pending pre pending (s ∷ c ∷ cs) out h (ground (arith, e))) in
    let past = pre ++ (pending ++ (s ∷ c ∷ [])) in
    let length-past : length past ≡ length pre + length pending + 2 =
      omega
        (arith, length-append pre (pending ++ (s ∷ c ∷ [])), length-append pending (s ∷ c ∷ [])) in
    let next : Starts cs = ground (arith, i.1.0, a.0) in
    rw (e, unescape_loop, push)
      (unescape_loop-Copies b t plainly past [] ((out ++ pending) ++ encode_latin1 c) (idx + 1 + 1)
        (idx + 1 + 1) (et ∙ simp append_assoc)
        (ep ∙ rw (encode_latin1-ascii c a.0) (simp append_assoc)) (omega (arith, length-past, ei))
        (omega (arith, length-past, ei)) i.1.1 next a.1
        (λ z. absurd (append_cons-ne-nil (out ++ pending) c (rw (encode_latin1-ascii c a.0) at z))))
unescape_loop-Copies (plain {c} {cs} e q b) t plainly pre pending out idx start et ep ei es i h a
      u =
    rw (e, unescape_loop)
      (unescape_loop-Copies b t plainly pre (pending ++ (c ∷ [])) out (idx + 1) start
        (et ∙ simp append_assoc) (ep ∙ simp append_assoc)
        (omega (arith, length-append pending (c ∷ []), ei)) es i.1 (simp append_assoc h) a u)

-- The last slice, behind the loop.
pub push_slice-Copies :
    {plainly : Bytes} {r : Option (Bytes × ℕ)} (t : Bytes) (e : Copies t plainly r)
    → push_slice t (length e.pre) (length t) e.copied ≡ some plainly
push_slice-Copies t e =
    let last =
      rw append-nil at
        (push_slice_pending e.pre e.pending [] e.copied (rw append-nil e.starts) refl) in
    cc (e.splits, length-append e.pre e.pending, last, e.total)

unescape_text-Copies :
    (t : Bytes) (b : Body t)
    → Copies t (plain_text b) (unescape_loop t false t 0 0 [])
    → unescape_text t ≡ some (plain_text b)
unfolding unescape_text finish_unescape
unescape_text-Copies t b e = elim (list_cases e.copied) [
  | inl none_copied ↦
      rw (e.gives, none_copied, finish_unescape)
        (ap some (e.splits ∙ rw (e.untouched none_copied) (rw none_copied at e.total)))
  | inr (c, cs, some_copied) ↦
      let last = push_slice-Copies t e in ground (arith, e.gives, some_copied, last)
]

-- A well-formed quoted text in which only ASCII is escaped is extracted as the text without its
-- escapes.
pub unescape_text-plain_text :
    {t : Bytes} (b : Body t)
    → IsText t
    → Starts t
    → EscapesAscii b
    → unescape_text t ≡ some (plain_text b)
unescape_text-plain_text {t} b i h a =
    unescape_text-Copies t b
      (unescape_loop-Copies b t (plain_text b) [] [] [] 0 0 refl refl refl refl i h a (λ _. refl))
