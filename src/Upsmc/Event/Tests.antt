-- ===== src/Upsmc/Event/Tests.antt =====
-- A run of ups_event.rs.
use nut_webgui.Prelude.{◌≡◌}
use nut_webgui.Upsmc.Bits.{single, zeros}
use nut_webgui.Upsmc.Event.{alarm_on, contains, events_new}
use nut_webgui.Upsmc.Event.Laws.{contains-events_new, is_edge, edge}

contains-events_new_example :
    contains (events_new (zeros 32) (single 32 0)) alarm_on
    ≡ is_edge (edge alarm_on) (zeros 32) (single 32 0)
contains-events_new_example = contains-events_new (zeros 32) (single 32 0) alarm_on
