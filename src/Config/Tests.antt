-- ===== src/Config/Tests.antt =====
-- Runs of config/uri_path.rs.
use nut_webgui.Prelude.{◌≡◌, ◌↔◌, refl, some, none}
use nut_webgui.Upsmc.Text.{codes}
use nut_webgui.Upsmc.Status.{is_whitespace}
use nut_webgui.Upsmc.Str.{trim_end_matches, trim_start_matches, trim_last, as_bytes, encode_utf8}
use nut_webgui.Config.UriPath.{uri_path_new, from_normalized, valid_loop, is_uri_char}
use nut_webgui.Config.UriPath.Laws.{IsUriPath, uri_path_new_lem}

new_ups : uri_path_new (codes " nut/ups/ / ") ≡ some (codes "/nut/ups")
unfolding uri_path_new from_normalized trim_end_matches trim_start_matches is_whitespace trim_last
    valid_loop as_bytes encode_utf8 is_uri_char
new_ups = refl

new_double : uri_path_new (codes "/nut//ups") ≡ none
unfolding uri_path_new from_normalized trim_end_matches trim_start_matches is_whitespace trim_last
    valid_loop as_bytes encode_utf8 is_uri_char
new_double = refl

uri_path_new_lem_example :
    ((uri_path_new (codes " nut/ups/ / ") ≡ some (codes "/nut/ups")) → IsUriPath (codes "/nut/ups"))
    × ((uri_path_new (codes "/nut/ups") ≡ some (codes "/nut/ups")) ↔ IsUriPath (codes "/nut/ups"))
uri_path_new_lem_example = uri_path_new_lem (codes " nut/ups/ / ") (codes "/nut/ups")
