-- ===== src/Upsmc/Client/Truncated.antt =====
-- A connection that ends inside of a list, under client/client_base.rs.
use nut_webgui.Prelude.{
  ◌≡◌, refl, ap, sym, ◌∙◌, zero, suc, ℕ, [], ◌∷◌, ◌++◌, List, All, false, true, none, length,
  length-append, drop-length_append, arith, ◌≤◌,
}
use nut_webgui.Upsmc.Text.{Bytes, codes, strip_prefix}
use nut_webgui.Upsmc.Error.{err, request_timeout}
use nut_webgui.Upsmc.Client.{
  line, read_line, split_line, checked_line, starts_with, read_list_lines, unfinished, send_raw,
  inner_send_raw, read_response,
}
use nut_webgui.Auth.Utf8.{from_utf8, decode_loop}
use nut_webgui.Upsmc.Client.Lines.{
  on_wire, lines, length-lines, IsReadable, end_line, read_line-line,
}

silent : read_line (on_wire true []) ≡ line [] (on_wire true [])
unfolding read_line split_line checked_line from_utf8 decode_loop
silent = refl

blank : starts_with (codes "END LIST") [] ≡ false
unfolding starts_with strip_prefix
blank = refl

-- The connection is closed and nothing is left of it: the loop reads empty lines for ever.
read_list_lines_closed :
    (fuel : ℕ) (buf : Bytes)
    → read_list_lines fuel (on_wire true []) buf (length buf) ≡ unfinished (on_wire true [])
unfolding read_list_lines
read_list_lines_closed zero buf = refl
read_list_lines_closed (suc fuel) buf =
    rw (read_list_lines, silent, drop-length_append buf [], blank)
      (ap (read_list_lines fuel (on_wire true []) (buf ++ [])) (sym (length-append buf []))
        ∙ read_list_lines_closed fuel (buf ++ []))

-- The same behind lines of which none ends the list.
read_list_lines_truncated :
    (bs : List Bytes) (buf : Bytes) (fuel : ℕ)
    → All (λ b. IsReadable b × (starts_with (codes "END LIST") (end_line b) ≡ false)) bs
    → length bs ≤ fuel
    → read_list_lines fuel (on_wire true (lines bs [])) buf (length buf)
      ≡ unfinished (on_wire true [])
unfolding read_list_lines lines
read_list_lines_truncated [] buf fuel h f = read_list_lines_closed fuel buf
read_list_lines_truncated (b ∷ bs) buf zero h f = absurd (omega arith)
read_list_lines_truncated (b ∷ bs) buf (suc fuel) (hb, hs) f =
    rw
      (
        read_list_lines,
        read_line-line true b (lines bs []) hb.0,
        drop-length_append buf (end_line b),
        hb.1,
      )
      (ap (read_list_lines fuel (on_wire true (lines bs [])) (buf ++ end_line b))
          (sym (length-append buf (end_line b)))
        ∙ read_list_lines_truncated bs (buf ++ end_line b) fuel hs (omega arith))

-- If upsd closes the connection behind lines of which the first opens a list and none ends it, the
-- request never ends by itself: send_raw returns the error of its timeout.
pub send_raw_truncated :
    (first : Bytes) (bs : List Bytes)
    → IsReadable first
    → starts_with (codes "BEGIN LIST") (end_line first) ≡ true
    → All (λ b. IsReadable b × (starts_with (codes "END LIST") (end_line b) ≡ false)) bs
    → send_raw none (on_wire true (lines (first ∷ bs) [])) ≡ (err request_timeout, on_wire true [])
unfolding send_raw inner_send_raw read_response lines
send_raw_truncated first bs r o h =
    let behind = lines bs [] in
    let enough : length bs ≤ suc (length (first ++ (b'\n' ∷ behind))) =
      omega (arith, length-append first (b'\n' ∷ behind), length-lines bs []) in
    rw
      (
        send_raw,
        inner_send_raw,
        read_line-line true first behind r,
        read_response,
        o,
        read_list_lines_truncated bs (end_line first) (suc (length (first ++ (b'\n' ∷ behind)))) h
            enough,
      )
      refl
