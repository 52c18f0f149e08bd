-- ===== src/Sync/Descriptions/Tests.antt =====
-- Runs of sync_desc.rs on one device with a variable and a command.
use nut_webgui.Prelude.{◌≡◌, ℕ, [], ◌∷◌, if◌then◌else◌}
use nut_webgui.Upsmc.Text.{Bytes, codes}
use nut_webgui.Upsmc.Value
use nut_webgui.Upsmc.Dict.{Dict, lookup, is_some}
use nut_webgui.Sync.State.{DeviceEntry, nocomm}
use nut_webgui.Sync.Descriptions.{task_contexts}
use nut_webgui.Sync.Descriptions.Once.{requests, is_mentioned, requests-task_contexts}

abbrev bx : DeviceEntry ℕ
bx = record {
  attached = [];
  commands = codes "beeper.on" ∷ [];
  desc = [];
  last_modified = 0;
  name = codes "bx";
  rw_variables = [];
  status = nocomm;
  variables = (codes "ups.load", Value.string (codes "3")) ∷ [];
}

abbrev devices : Dict (DeviceEntry ℕ)
devices = (codes "bx", bx) ∷ []

requests-task_contexts_example :
    requests (codes "beeper.on") (task_contexts devices [] (codes "bx" ∷ (codes "bx" ∷ [])) []) ≡ (
      if is_some (lookup {V = Bytes} (codes "beeper.on") [])
      then 0
      else if is_mentioned devices (codes "bx" ∷ (codes "bx" ∷ [])) (codes "beeper.on")
      then 1
      else 0)
requests-task_contexts_example =
    requests-task_contexts devices [] (codes "beeper.on") (codes "bx" ∷ (codes "bx" ∷ []))
