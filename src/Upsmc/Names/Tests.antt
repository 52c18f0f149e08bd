-- ===== src/Upsmc/Names/Tests.antt =====
-- Runs of the names of ups_name.rs, cmd_name.rs and var_name.rs.
use nut_webgui.Prelude.{◌≡◌, ◌↔◌}
use nut_webgui.Upsmc.Text.{codes}
use nut_webgui.Upsmc.Names.{valid, is_ups_name, is_cmd_name}
use nut_webgui.Upsmc.Names.VarName.{var_name_new}
use nut_webgui.Upsmc.Names.Laws.{names_iff, IsDeviceName, IsDottedName}

names_iff_example :
    ((is_ups_name (codes "beeper.on") ≡ valid) ↔ IsDeviceName (codes "beeper.on"))
    × ((is_cmd_name (codes "beeper.on") ≡ valid) ↔ IsDottedName (codes "beeper.on"))
    × ((var_name_new (codes "beeper.on") ≡ valid) ↔ IsDottedName (codes "beeper.on"))
names_iff_example = names_iff (codes "beeper.on")
