-- ===== src/Sync/Tests.antt =====
-- Runs of sync/ and of event/ with two devices.
use nut_webgui.Prelude.{
  ◌≡◌, refl, ℕ, ◌+◌, ◌≤◌, ◌<◌, [], ◌∷◌, List, Bool, false, none, some, Option, arith,
}
use nut_webgui.Upsmc.Text.{Bytes, codes}
use nut_webgui.Upsmc.Dict.{Dict, lookup, keys}
use nut_webgui.Upsmc.Bits.{single}
use nut_webgui.Upsmc.Response.{UpsDevice}
use nut_webgui.Upsmc.Value.{string}
use nut_webgui.Upsmc.Values.{UpsVar}
use nut_webgui.Sync.State.{
  IpAddr, v4, ClientInfo, DeviceEntry, DaemonState, daemon_state_new, dead, online, not_ready,
}
use nut_webgui.Sync.Events.{batch_new, EventBatch, SystemEvent, send}
use nut_webgui.Sync.Events.Laws.{send-wanted, wanted, until_unheard}
use nut_webgui.Sync.Clients.{sync_clients, has_client, contains_ip}
use nut_webgui.Sync.Clients.Laws.{has_client-sync_clients}
use nut_webgui.Sync.Devices.{
  Joined, Remote, DeviceDiffPatch, patched, client_error, failed, next, diff_upsd, patch_of,
  is_listed, failure_count, sort_devices, sort_device, failures,
}
use nut_webgui.Sync.Devices.Load.{Client, load_task, load_device_entry, load_task-IsLoader}
use nut_webgui.Sync.Devices.Names.{is_known}
use nut_webgui.Sync.Devices.Errors.{next-events, next-failed, next-no_devices}
use nut_webgui.Sync.Statuses.{
  tick, UpsPollInterval, full, poll_interval, status_sync, state_sync, Details,
}
use nut_webgui.Sync.Statuses.Laws.{status_sync-changes, state_sync-changes, status_at, replay}
use nut_webgui.Sync.Statuses.Runs.{Runs, next-Runs}
use nut_webgui.Sync.Statuses.Ticks.{Ticks, here, later, last_full, tick-full}

abbrev no_name : IpAddr → Option Bytes
no_name ip = none

abbrev attached_one : List ClientInfo
attached_one = record { addr = v4 (10 ∷ 0 ∷ 0 ∷ 1 ∷ []); name = none } ∷ []

abbrev listed_ips : List IpAddr
listed_ips = v4 (10 ∷ 0 ∷ 0 ∷ 2 ∷ []) ∷ []

has_client-sync_clients_example :
    has_client (sync_clients no_name attached_one listed_ips) (v4 (10 ∷ 0 ∷ 0 ∷ 2 ∷ []))
    ≡ contains_ip listed_ips (v4 (10 ∷ 0 ∷ 0 ∷ 2 ∷ []))
has_client-sync_clients_example =
    has_client-sync_clients no_name (v4 (10 ∷ 0 ∷ 0 ∷ 2 ∷ [])) attached_one listed_ips

abbrev client : Client Bytes
client = record {
  list_client = λ ups. some listed_ips;
  list_cmd = λ ups. some [];
  list_rw = λ ups. some [];
  list_var = λ ups. some ((codes "ups.status", string (codes "OL")) ∷ []);
  get_var_type = λ ups name. none;
  list_enum = λ ups name. none;
  list_range = λ ups name. none;
}

abbrev load : UpsDevice → Joined Bytes
load = load_task client no_name 7

abbrev in_order : List (Joined Bytes) → List (Joined Bytes)
in_order js = js

abbrev two_devices : Remote
two_devices = record {
  devices =
      record { ups_name = codes "a"; desc = [] } ∷ record { ups_name = codes "b"; desc = [] } ∷ [];
  prot_ver = codes "1.3";
  upsd_ver = codes "2.8.2";
}

abbrev no_devices : Remote
no_devices = record { devices = []; prot_ver = codes "1.3"; upsd_ver = codes "2.8.2" }

abbrev fresh : DaemonState Bytes
fresh = record {
  devices = [];
  last_device_sync = none;
  status = not_ready;
  prot_ver = none;
  ver = none;
}

fresh_lem : daemon_state_new ≡ fresh
unfolding daemon_state_new
fresh_lem = refl

loads_both :
    diff_upsd load in_order 7 fresh (some two_devices)
    ≡ patched (patch_of load in_order 7 fresh two_devices)
unfolding diff_upsd failure_count sort_devices sort_device lookup load_task load_device_entry
    failures
loads_both = refl

next-Runs_example :
    is_known
      (codes "a")
      (next
        (codes "default")
        7
        fresh
        (patched (patch_of load in_order 7 fresh two_devices))).0.devices
    ≡ is_listed two_devices.devices (codes "a")
next-Runs_example =
    next-Runs load (load_task-IsLoader client no_name 7) in_order (λ p js. refl) (codes "default") 7
      fresh fresh two_devices Runs.idle (patch_of load in_order 7 fresh two_devices) loads_both
      (codes "a")

next-no_devices_example :
    (next (codes "default") 7 fresh (diff_upsd load in_order 7 fresh (some no_devices))).0.status
    ≡ dead
next-no_devices_example =
    next-no_devices load in_order (codes "default") 7 fresh fresh no_devices refl

abbrev failing : DeviceEntry Bytes
failing = record {
  attached = attached_one;
  commands = [];
  desc = [];
  last_modified = 3;
  name = codes "a";
  rw_variables = [];
  status = single 32 11;
  variables = [];
}

abbrev one_device : Dict (DeviceEntry Bytes)
one_device = (codes "a", failing) ∷ []

abbrev one_patch : DeviceDiffPatch Bytes
one_patch = record {
  added = failing ∷ [];
  deleted = codes "b" ∷ [];
  updated = [];
  prot_ver = codes "1.3";
  upsd_ver = codes "2.8.2";
}

next-events_example :
    ((next (codes "default") 7 fresh (patched one_patch)).1.new ≡ codes "a" ∷ [])
    × ((next (codes "default") 7 fresh (patched one_patch)).1.removed ≡ codes "b" ∷ [])
    × ((next (codes "default") 7 fresh (patched one_patch)).1.upsd_status ≡ some online)
    × ((next (codes "default") 7 fresh (patched one_patch)).0.status ≡ online)
next-events_example = next-events (codes "default") 7 fresh one_patch

abbrev known : DaemonState Bytes
known = record fresh { devices = one_device; status = online }

next-failed_example :
    ((next (codes "default") 7 known (failed client_error)).0.devices ≡ [])
    × ((next (codes "default") 7 known (failed client_error)).0.status ≡ dead)
    × ((next (codes "default") 7 known (failed client_error)).1.removed ≡ keys one_device)
    × ((next (codes "default") 7 known (failed client_error)).1.upsd_status ≡ some dead)
next-failed_example = next-failed (codes "default") 7 known client_error

abbrev on_battery : List (Option (UpsVar Bytes))
on_battery =
    some (record { value = string (codes "OB"); name = codes "ups.status"; ups_name = codes "a" })
    ∷ (none ∷ [])

status_sync-changes_example :
    status_at (codes "a") (status_sync 9 on_battery (one_device, [])).0
    ≡ replay
        (codes "a")
        (status_sync 9 on_battery (one_device, [])).1
        (status_at (codes "a") one_device)
status_sync-changes_example = status_sync-changes (codes "a") 9 one_device on_battery

abbrev gone : List (Bytes × Option (Details Bytes))
gone = (codes "a", none) ∷ []

state_sync-changes_example :
    status_at (codes "a") (state_sync 9 no_name gone (one_device, batch_new (codes "n"))).0
    ≡ replay
        (codes "a")
        (state_sync 9 no_name gone (one_device, batch_new (codes "n"))).1.status_changes
        (status_at (codes "a") one_device)
state_sync-changes_example = state_sync-changes (codes "a") (codes "n") 9 no_name one_device gone

abbrev one_event : EventBatch
one_event = record {
  namespace = codes "n";
  upsd_status = some online;
  new = codes "a" ∷ [];
  removed = [];
  status_changes = [];
  updated = [];
  disconnections = [];
  connections = [];
}

abbrev nobody : SystemEvent → Bool
nobody event = false

send-wanted_example : (send nobody one_event).0 ≡ until_unheard nobody (wanted one_event)
send-wanted_example = send-wanted nobody one_event

abbrev every_30 : UpsPollInterval
every_30 = record { last_full_sync = none; full_sync_period = 30 }

first_tick : Ticks (poll_interval 2 30) 100 every_30 101 (tick 101 every_30).1 (some 101)
unfolding poll_interval tick last_full
first_tick = later 101 here (omega arith) (omega arith)

tick-full_example :
    (◌≡◌ {A = Option ℕ} (some 101) none → (tick 103 (tick 101 every_30).1).0 ≡ full)
    × ((l : ℕ)
        → ◌≡◌ {A = Option ℕ} (some 101) (some l)
        → (103 < l + 30 + 30) × ((l + 30 ≤ 103) → (tick 103 (tick 101 every_30).1).0 ≡ full))
unfolding poll_interval
tick-full_example = tick-full 2 30 (omega arith) refl refl first_tick 103 (omega arith)
