-- ===== src/Upsmc/Client/ListUps.antt =====
-- The list of the devices over the connection: client/client_base.rs with response.rs.
use nut_webgui.Prelude.{
  ◌≡◌, refl, ap, sym, ◌∙◌, subst, [], ◌∷◌, ◌++◌, append_assoc, List, All, Bool, false, none, map,
  length, ◌≤◌,
}
use nut_webgui.Upsmc.Text.{Bytes, codes, strip_prefix}
use nut_webgui.Upsmc.Text.Slices.{IsText}
use nut_webgui.Upsmc.Escape.Laws.{escaped}
use nut_webgui.Upsmc.Error.{ok}
use nut_webgui.Upsmc.Lexer.Cursor.{isize_max}
use nut_webgui.Upsmc.Response.{UpsDevice, list_ups}
use nut_webgui.Upsmc.Response.RoundTrip.{
  list_ups-print_list_ups, print_list_ups, device_lines, device_line, list_line, IsPrintable,
}
use nut_webgui.Auth.Utf8.{from_utf8, decode_loop, decode_byte, push_char}
use nut_webgui.Upsmc.Client.{send_raw, send, starts_with, deserialized}
use nut_webgui.Upsmc.Client.Lines.{IsReadable, IsListing, end_line, lines, on_wire, send_raw-lines}

-- A device's line without its end.
abbrev pub device_body : UpsDevice → Bytes
device_body d =
    codes "UPS" ++ (b' ' ∷ (d.ups_name ++ (b' ' ∷ (b'"' ∷ (escaped d.desc ++ (b'"' ∷ []))))))

abbrev opening : Bytes
opening = codes "BEGIN LIST UPS"

abbrev closing : Bytes
closing = codes "END LIST UPS"

opening-IsReadable : IsReadable opening
unfolding from_utf8 decode_loop decode_byte push_char
opening-IsReadable = (
  (
    refl,
    (
      refl,
      (
        refl,
        (refl, (refl, (refl, (refl, (refl, (refl, (refl, (refl, (refl, (refl, (refl, tt))))))))))),
      ),
    ),
  ),
  (_, refl),
)

closing-IsReadable : IsReadable closing
unfolding from_utf8 decode_loop decode_byte push_char
closing-IsReadable = (
  (
    refl,
    (refl, (refl, (refl, (refl, (refl, (refl, (refl, (refl, (refl, (refl, (refl, tt))))))))))),
  ),
  (_, refl),
)

device_body-lem :
    (d : UpsDevice) (rest : Bytes) → device_line d rest ≡ device_body d ++ (b'\n' ∷ rest)
unfolding device_line
device_body-lem d rest =
    rw
      (
        append_assoc d.ups_name (b' ' ∷ (b'"' ∷ (escaped d.desc ++ (b'"' ∷ [])))) (b'\n' ∷ rest),
        append_assoc (escaped d.desc) (b'"' ∷ []) (b'\n' ∷ rest),
      )
      refl

device_bodies_lem :
    (ds : List UpsDevice) (rest : Bytes) → device_lines ds rest ≡ lines (map device_body ds) rest
unfolding device_lines lines
device_bodies_lem [] rest = refl
device_bodies_lem (d ∷ ds) rest =
    device_body-lem d (device_lines ds rest)
    ∙ ap (λ x. device_body d ++ (b'\n' ∷ x)) (device_bodies_lem ds rest)

lines-append : (bs : List Bytes) (t rest : Bytes) → lines bs t ++ rest ≡ lines bs (t ++ rest)
unfolding lines
lines-append [] t rest = refl
lines-append (b ∷ bs) t rest =
    append_assoc b (b'\n' ∷ lines bs t) rest ∙ ap (λ x. b ++ (b'\n' ∷ x)) (lines-append bs t rest)

print_list_ups-lines :
    (ds : List UpsDevice)
    → print_list_ups ds ≡ lines (opening ∷ map device_body ds) (end_line closing)
unfolding print_list_ups list_line lines
print_list_ups-lines ds = ap (λ x. opening ++ (b'\n' ∷ x)) (device_bodies_lem ds (end_line closing))

between_lem :
    (ds : List UpsDevice)
    → All (λ d. IsReadable (device_body d)) ds
    → All
        (λ b. IsReadable b × (starts_with (codes "END LIST") (end_line b) ≡ false))
        (map device_body ds)
unfolding starts_with strip_prefix
between_lem [] h = tt
between_lem (d ∷ ds) (h, hs) = ((h, refl), between_lem ds hs)

listing :
    (ds : List UpsDevice)
    → All (λ d. IsReadable (device_body d)) ds
    → IsListing opening (map device_body ds) closing
unfolding starts_with strip_prefix
listing ds h = record {
  first_reads = opening-IsReadable;
  first_opens = refl;
  between = between_lem ds h;
  last_reads = closing-IsReadable;
  last_ends = refl;
}

send_raw-list_ups :
    (closed : Bool) (ds : List UpsDevice) (rest : Bytes)
    → All (λ d. IsReadable (device_body d)) ds
    → send_raw none (on_wire closed (print_list_ups ds ++ rest))
      ≡ (ok (print_list_ups ds), on_wire closed rest)
send_raw-list_ups closed ds rest r =
    let body = lines (opening ∷ map device_body ds) (end_line closing) in
    subst (λ t. send_raw none (on_wire closed (t ++ rest)) ≡ (ok t, on_wire closed rest))
      (sym (print_list_ups-lines ds))
      (ap (λ t. send_raw none (on_wire closed t))
          (lines-append (opening ∷ map device_body ds) (end_line closing) rest)
        ∙ send_raw-lines closed opening (map device_body ds) closing rest (listing ds r))

-- A request for the list of devices returns the list that upsd prints and leaves on the connection
-- what follows it, if each name is valid and does not begin with a double quote, each line is
-- UTF-8 without a line feed inside, and the list is well-formed UTF-8 that fits into memory.
pub send-list_ups :
    (closed : Bool) (ds : List UpsDevice) (rest : Bytes)
    → All IsPrintable ds
    → All (λ d. IsReadable (device_body d)) ds
    → IsText (print_list_ups ds)
    → length (print_list_ups ds) ≤ isize_max
    → send list_ups none (on_wire closed (print_list_ups ds ++ rest)) ≡ (ok ds, on_wire closed rest)
unfolding send deserialized print_list_ups list_line
send-list_ups closed ds rest p r i h =
    rw (send_raw-list_ups closed ds rest r)
      (ap (λ x. (x, on_wire closed rest)) (list_ups-print_list_ups ds p i h))
