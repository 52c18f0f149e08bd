-- ===== src/Upsmc/Client/Lines.antt =====
-- The lines of a response under client/client_base.rs.
use nut_webgui.Prelude.{
  ◌≡◌, refl, ap, sym, ◌∙◌, ℕ, zero, suc, ◌+◌, ◌≤◌, ◌<◌, [], ◌∷◌, ◌++◌, append_assoc, List, All,
  Bool, true, false, ◌==◌, none, some, length, length-append, drop-length_append, arith,
}
use nut_webgui.Upsmc.Text.{Bytes, codes}
use nut_webgui.Auth.Utf8.{from_utf8}
use nut_webgui.Upsmc.Error.{ok}
use nut_webgui.Upsmc.Client.{
  Stream, split_line, line, checked_line, read_line, replied, starts_with, read_list_lines,
  read_response, inner_send_raw, send_raw,
}

-- No line feed inside.
abbrev pub IsFlat : Bytes → Type 0
IsFlat body = All (λ c. (c == b'\n') ≡ false) body

abbrev pub end_line : Bytes → Bytes
end_line body = body ++ (b'\n' ∷ [])

-- A line without its end, which the reader takes as text.
abbrev pub IsReadable : Bytes → Type 0
IsReadable body = IsFlat body × ((cs : List ℕ) × (from_utf8 (end_line body) ≡ some cs))

-- `rest` behind some lines.
unfoldable pub lines : List Bytes → Bytes → Bytes
lines [] rest = rest
lines (b ∷ bs) rest = b ++ (b'\n' ∷ lines bs rest)

split_line-line :
    (body rest : Bytes)
    → IsFlat body
    → split_line (body ++ (b'\n' ∷ rest)) ≡ some (end_line body, rest)
unfolding split_line
split_line-line [] rest h = refl
split_line-line (c ∷ cs) rest h = rw (h.0, split_line-line cs rest h.1) refl

regroup : (buf b rest : Bytes) → (buf ++ end_line b) ++ rest ≡ buf ++ (b ++ (b'\n' ∷ rest))
regroup buf b rest =
    append_assoc buf (end_line b) rest ∙ ap (◌++◌ buf) (append_assoc b (b'\n' ∷ []) rest)

pub length-lines :
    (bs : List Bytes) (rest : Bytes) → length bs + length rest ≤ length (lines bs rest)
unfolding lines
length-lines [] rest = omega arith
length-lines (b ∷ bs) rest =
    omega (arith, length-lines bs rest, length-append b (b'\n' ∷ lines bs rest))

-- A response of several lines: the first opens a list, the last ends it, and none between does.
pub record IsListing (first : Bytes) (bs : List Bytes) (last : Bytes) : Type 0 where
  pub first_reads : IsReadable first
  pub first_opens : starts_with (codes "BEGIN LIST") (end_line first) ≡ true
  pub between : All (λ b. IsReadable b × (starts_with (codes "END LIST") (end_line b) ≡ false)) bs
  pub last_reads : IsReadable last
  pub last_ends : starts_with (codes "END LIST") (end_line last) ≡ true

module _ (closed : Bool) where
  abbrev pub on_wire : Bytes → Stream
  on_wire incoming = record { incoming = incoming; closed = closed }

  pub read_line-line :
      (body rest : Bytes)
      → IsReadable body
      → read_line (on_wire (body ++ (b'\n' ∷ rest))) ≡ line (end_line body) (on_wire rest)
  unfolding read_line checked_line
  read_line-line body rest (flat, (cs, e)) =
      rw (read_line, split_line-line body rest flat, checked_line, e) refl

  -- The loop returns the lines up to the first that ends the list, and leaves what is behind it.
  read_list_lines-lines :
      (bs : List Bytes) (last rest buf : Bytes) (fuel : ℕ)
      → All (λ b. IsReadable b × (starts_with (codes "END LIST") (end_line b) ≡ false)) bs
      → IsReadable last
      → starts_with (codes "END LIST") (end_line last) ≡ true
      → length bs < fuel
      → read_list_lines fuel (on_wire (lines bs (last ++ (b'\n' ∷ rest)))) buf (length buf)
        ≡ replied (ok (buf ++ lines bs (end_line last))) (on_wire rest)
  unfolding read_list_lines lines
  read_list_lines-lines bs last rest buf zero h l e f = absurd (omega arith)
  read_list_lines-lines [] last rest buf (suc fuel) h l e f =
      rw (read_list_lines, read_line-line last rest l, drop-length_append buf (end_line last), e)
        refl
  read_list_lines-lines (b ∷ bs) last rest buf (suc fuel) (hb, hs) l e f =
      rw
        (
          read_list_lines,
          read_line-line b (lines bs (last ++ (b'\n' ∷ rest))) hb.0,
          drop-length_append buf (end_line b),
          hb.1,
        )
        (ap (read_list_lines fuel (on_wire (lines bs (last ++ (b'\n' ∷ rest)))) (buf ++ end_line b))
            (sym (length-append buf (end_line b)))
          ∙ read_list_lines-lines bs last rest (buf ++ end_line b) fuel hs l e (omega arith)
          ∙ ap (λ x. replied (ok x) (on_wire rest)) (regroup buf b (lines bs (end_line last))))

  -- A list is returned from its first line to its last one, whatever follows, and what follows is
  -- left for the next request.
  pub send_raw-lines :
      (first : Bytes) (bs : List Bytes) (last rest : Bytes)
      → IsListing first bs last
      → send_raw none (on_wire (lines (first ∷ bs) (last ++ (b'\n' ∷ rest))))
        ≡ (ok (lines (first ∷ bs) (end_line last)), on_wire rest)
  unfolding send_raw inner_send_raw read_response lines
  send_raw-lines first bs last rest v =
      let behind = lines bs (last ++ (b'\n' ∷ rest)) in
      let enough : length bs < suc (length (first ++ (b'\n' ∷ behind))) =
        omega
          (arith, length-append first (b'\n' ∷ behind), length-lines bs (last ++ (b'\n' ∷ rest))) in
      rw
        (
          send_raw,
          inner_send_raw,
          read_line-line first behind v.first_reads,
          read_response,
          v.first_opens,
          read_list_lines-lines bs last rest (end_line first)
              (suc (length (first ++ (b'\n' ∷ behind)))) v.between v.last_reads v.last_ends enough,
        )
        (ap (λ x. (ok x, on_wire rest))
          (append_assoc first (b'\n' ∷ []) (lines bs (end_line last))))
