-- ===== src/Upsmc/Response/Tests.antt =====
-- Runs of the responses of response.rs on small texts.
use nut_webgui.Upsmc.Escape.{is_special}
use nut_webgui.Prelude.{◌≤◌, [], ◌∷◌, List, ◌≡◌, refl, All, length, arith}
use nut_webgui.Upsmc.Text.{Bytes, codes, is_ascii_whitespace}
use nut_webgui.Upsmc.Text.Slices.{is_text-IsText, is_text, IsText}
use nut_webgui.Upsmc.Error.{ok}
use nut_webgui.Upsmc.Lexer.{init}
use nut_webgui.Upsmc.Lexer.Cursor.{isize_max}
use nut_webgui.Upsmc.Escape.Laws.{escaped}
use nut_webgui.Upsmc.Response.{UpsDevice, list_ups}
use nut_webgui.Upsmc.Response.Returns.{list_ups-Returns, DeviceIsNamed}
use nut_webgui.Upsmc.Response.RoundTrip.{
  list_ups-print_list_ups, print_list_ups, device_lines, device_line, list_line, IsPrintable,
}
use nut_webgui.Upsmc.Parser.Rules.{Returns}

abbrev two_devices : List UpsDevice
two_devices =
    record { ups_name = codes "bx"; desc = b'"' ∷ codes " a\\" }
    ∷ record { ups_name = codes "c1"; desc = [] }
    ∷ []

two_devices-IsPrintable : All IsPrintable two_devices
unfolding is_ascii_whitespace
two_devices-IsPrintable = (
  (((λ e. cc), (refl, (refl, tt))), (refl, (refl, (refl, tt)))),
  ((((λ e. cc), (refl, (refl, tt))), (refl, (refl, (refl, tt)))), tt),
)

two_devices-IsText : IsText (print_list_ups two_devices)
unfolding print_list_ups device_lines device_line list_line escaped is_special is_text
two_devices-IsText = is_text-IsText (print_list_ups two_devices) refl

two_devices_fit : length (print_list_ups two_devices) ≤ isize_max
unfolding print_list_ups device_lines device_line list_line escaped is_special
two_devices_fit = omega arith

list_ups-print_list_ups_example : (list_ups (print_list_ups two_devices) init).0 ≡ ok two_devices
list_ups-print_list_ups_example =
    list_ups-print_list_ups two_devices two_devices-IsPrintable two_devices-IsText two_devices_fit

abbrev one_command : Bytes
one_command = codes "BEGIN LIST CMD a\nCMD a beeper.on\nEND LIST CMD a\n"

abbrev one_device : Bytes
one_device = codes "BEGIN LIST UPS\nUPS a \"b\"\nEND LIST UPS\n"

list_ups-Returns_example :
    Returns one_device one_device 0 (All DeviceIsNamed) (list_ups one_device init)
list_ups-Returns_example = list_ups-Returns one_device (omega arith)
