-- ===== src/Upsmc/Status/Tests.antt =====
-- Runs of ups_status.rs on small words.
use nut_webgui.Prelude.{ℕ, ◌<◌, ◌≡◌, true, arith}
use nut_webgui.Upsmc.Text.{codes}
use nut_webgui.Upsmc.Bits.{bit, single}
use nut_webgui.Upsmc.Bits.Laws.{bit-single}
use nut_webgui.Upsmc.Status.{status_new, to_string, split_whitespace}
use nut_webgui.Upsmc.Status.Laws.{bit-status_new, names_flag}
use nut_webgui.Upsmc.Status.RoundTrip.{status_new-to_string}

bit-status_new_example :
    bit 32 (status_new (codes "OL CHRG")) 4 ≡ names_flag 4 (split_whitespace (codes "OL CHRG"))
bit-status_new_example = bit-status_new (codes "OL CHRG") 4 (omega arith)

single-known : (i : ℕ) → bit 32 (single 32 11) i ≡ true → i < 19
single-known i h = ground (arith, h, bit-single 32 11 i)

status_new-to_string_example : status_new (to_string (single 32 11)) ≡ single 32 11
status_new-to_string_example = status_new-to_string (single 32 11) single-known
