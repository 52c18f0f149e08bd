-- ===== src/Upsmc/Client/Tests.antt =====
-- Runs of the client over connections that hold a few lines.
use nut_webgui.Prelude.{
  ℕ, zero, suc, suc, ℕ, ◌≡◌, refl, [], ◌∷◌, ◌++◌, List, All, true, false, none, length, ◌≤◌, arith,
}
use nut_webgui.Upsmc.Text.{Bytes, codes, is_ascii_whitespace, strip_prefix}
use nut_webgui.Upsmc.Text.Slices.{is_text-IsText, is_text, IsText}
use nut_webgui.Upsmc.Escape.{is_special}
use nut_webgui.Upsmc.Escape.Laws.{escaped}
use nut_webgui.Upsmc.Error.{Result, ok, err, request_timeout}
use nut_webgui.Upsmc.Lexer.Cursor.{isize_max}
use nut_webgui.Upsmc.Response.{UpsDevice, list_ups}
use nut_webgui.Upsmc.Response.RoundTrip.{
  print_list_ups, device_lines, device_line, list_line, IsPrintable,
}
use nut_webgui.Auth.Utf8.{from_utf8, decode_loop, decode_byte, push_char}
use nut_webgui.Upsmc.Client.{send, send_raw, starts_with}
use nut_webgui.Upsmc.Client.Lines.{IsReadable, end_line, lines, on_wire}
use nut_webgui.Upsmc.Client.ListUps.{send-list_ups, device_body}
use nut_webgui.Upsmc.Client.Truncated.{send_raw_truncated}
use nut_webgui.Upsmc.Client.Pooled.{
  is_retried, is_dropped, again, action, settle, Pooled, pooled_call, pooled_call_lem, dropped,
  released,
}

abbrev one_device : List UpsDevice
one_device = record { ups_name = codes "u"; desc = codes "A\"" } ∷ []

one_device-IsPrintable : All IsPrintable one_device
unfolding is_ascii_whitespace
one_device-IsPrintable = ((((λ e. cc), (refl, tt)), (refl, (refl, tt))), tt)

one_device-IsReadable : All (λ d. IsReadable (device_body d)) one_device
unfolding from_utf8 decode_loop decode_byte push_char escaped is_special
one_device-IsReadable = (
  (
    (refl, (refl, (refl, (refl, (refl, (refl, (refl, (refl, (refl, (refl, (refl, tt))))))))))),
    (_, refl),
  ),
  tt,
)

one_device-IsText : IsText (print_list_ups one_device)
unfolding print_list_ups device_lines device_line list_line escaped is_special is_text
one_device-IsText = is_text-IsText (print_list_ups one_device) refl

one_device_fits : length (print_list_ups one_device) ≤ isize_max
unfolding print_list_ups device_lines device_line list_line escaped is_special
one_device_fits = omega arith

send-list_ups_example :
    send list_ups none (on_wire false (print_list_ups one_device ++ codes "OK\n"))
    ≡ (ok one_device, on_wire false (codes "OK\n"))
send-list_ups_example =
    send-list_ups false one_device (codes "OK\n") one_device-IsPrintable one_device-IsReadable
      one_device-IsText one_device_fits

abbrev opening : Bytes
opening = codes "BEGIN LIST UPS"

opening-IsReadable : IsReadable opening
unfolding from_utf8 decode_loop decode_byte push_char
opening-IsReadable = (
  (
    refl,
    (
      refl,
      (
        refl,
        (refl, (refl, (refl, (refl, (refl, (refl, (refl, (refl, (refl, (refl, (refl, tt))))))))))),
      ),
    ),
  ),
  (_, refl),
)

opening_opens : starts_with (codes "BEGIN LIST") (end_line opening) ≡ true
unfolding starts_with strip_prefix
opening_opens = refl

send_raw_truncated_example :
    send_raw none (on_wire true (lines (opening ∷ []) [])) ≡ (err request_timeout, on_wire true [])
send_raw_truncated_example = send_raw_truncated opening [] opening-IsReadable opening_opens tt

-- A client is the number of its calls; its first call times out.
abbrev first_times_out : ℕ → Result ℕ × ℕ
first_times_out zero = (err request_timeout, 1)
first_times_out (suc n) = (ok n, suc (suc n))

pooled_call_lem_example :
    Pooled first_times_out
      (ok 0)
      (ok 5)
      (pooled_call first_times_out (ok 0) (ok 5)).0
      (pooled_call first_times_out (ok 0) (ok 5)).1
pooled_call_lem_example = pooled_call_lem first_times_out (ok 0) (ok 5)

retried : pooled_call first_times_out (ok 0) (ok 5) ≡ (ok 4, dropped 1 ∷ (released 6 ∷ []))
unfolding pooled_call again action settle is_retried is_dropped
retried = refl
