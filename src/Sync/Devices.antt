-- ===== src/Sync/Devices.antt =====
-- sync/sync_device.rs: how the devices of a server follow upsd. The calls of the client and the
-- resolver are arguments, so is the order in which the tasks of a JoinSet end.
pub mod Load
pub mod Names
pub mod Follows
pub mod Errors
use nut_webgui.Prelude.{
  ◌+◌, ℕ, suc, [], ◌∷◌, ◌++◌, List, Bool, true, false, ◌&&◌, if◌then◌else◌, ltb, length, map,
  Option, none, some,
}
use nut_webgui.Upsmc.Text.{Bytes, text_eq}
use nut_webgui.Upsmc.Dict.{Dict, lookup, insert, remove, update, keys}
use nut_webgui.Upsmc.Response.{UpsDevice}
use nut_webgui.Sync.State.{
  DeviceEntry, DaemonState, ConnectionStatus, dead, online, not_ready, is_dead, is_online, nocomm,
  is_nocomm,
}
use nut_webgui.Sync.Events.{
  EventBatch, batch_new, new_device, removed_device, updated_device, set_upsd_status,
}

-- The end of a task: a device, the name of one that could not be loaded, or no end at all.
pub data Joined (F : Type 0) : Type 0 where
  loaded : DeviceEntry F → Joined F
  load_failed : Bytes → Joined F
  join_failed : Joined F

pub record DeviceDiffPatch (F : Type 0) : Type 0 where
  pub added : List (DeviceEntry F)
  pub deleted : List Bytes
  pub updated : List UpsDevice
  pub prot_ver : Bytes
  pub upsd_ver : Bytes

pub data SyncTaskError : Type 0 where
  client_error device_load_failed : SyncTaskError

pub data DiffResult (F : Type 0) : Type 0 where
  patched : DeviceDiffPatch F → DiffResult F
  failed : SyncTaskError → DiffResult F

-- What upsd says of itself in `try_join!`.
pub record Remote : Type 0 where
  pub devices : List UpsDevice
  pub prot_ver : Bytes
  pub upsd_ver : Bytes

unfoldable pub is_listed : List UpsDevice → Bytes → Bool
is_listed [] name = false
is_listed (d ∷ ds) name =
    let later = is_listed ds name in if text_eq d.ups_name name then true else later

unfoldable pub deleted_names : List UpsDevice → List Bytes → List Bytes
deleted_names remote [] = []
deleted_names remote (name ∷ names) =
    let later = deleted_names remote names in if is_listed remote name then later else name ∷ later

pub record Sorted : Type 0 where
  pub new : List UpsDevice
  pub recheck : List UpsDevice
  pub updated : List UpsDevice

-- The devices and the events.
abbrev pub Change : Type 0 → Type 0
Change F = Dict (DeviceEntry F) × EventBatch

unfoldable pub removed_all : List Bytes → EventBatch → EventBatch
removed_all [] events = events
removed_all (name ∷ names) events = removed_all names (removed_device name events)

unfoldable pub set_online : ConnectionStatus → EventBatch → EventBatch
set_online status events = if is_online status then events else set_upsd_status online events

module _ {F : Type 0} where
  unfoldable pub sort_device : Option (DeviceEntry F) → UpsDevice → Sorted → Sorted
  sort_device none remote s = record s { new = remote ∷ s.new }
  sort_device (some entry) remote s =
      if is_nocomm entry.status
      then record s { recheck = remote ∷ s.recheck }
      else if text_eq entry.desc remote.desc
      then s
      else record s { updated = remote ∷ s.updated }

  -- The loop over the devices of upsd.
  unfoldable pub sort_devices : Dict (DeviceEntry F) → List UpsDevice → Sorted
  sort_devices devices [] = record { new = []; recheck = []; updated = [] }
  sort_devices devices (d ∷ ds) =
      sort_device (lookup d.ups_name devices) d (sort_devices devices ds)

  -- The entry of a device that is listed and cannot be loaded.
  unfoldable pub unreachable : ℕ → Bytes → DeviceEntry F
  unreachable now name = record {
    attached = [];
    commands = [];
    desc = [];
    last_modified = now;
    name = name;
    rw_variables = [];
    status = nocomm;
    variables = [];
  }

  unfoldable pub added_by : ℕ → List (Joined F) → List (DeviceEntry F)
  added_by now [] = []
  added_by now (loaded entry ∷ rest) = entry ∷ added_by now rest
  added_by now (load_failed name ∷ rest) = unreachable now name ∷ added_by now rest
  added_by now (join_failed ∷ rest) = added_by now rest

  unfoldable pub rechecked_by : List (Joined F) → List (DeviceEntry F)
  rechecked_by [] = []
  rechecked_by (loaded entry ∷ rest) = entry ∷ rechecked_by rest
  rechecked_by (load_failed name ∷ rest) = rechecked_by rest
  rechecked_by (join_failed ∷ rest) = rechecked_by rest

  unfoldable pub failures : List (Joined F) → ℕ
  failures [] = 0
  failures (loaded entry ∷ rest) = failures rest
  failures (load_failed name ∷ rest) = suc (failures rest)
  failures (join_failed ∷ rest) = suc (failures rest)

  module _ (load : UpsDevice → Joined F) (order : List (Joined F) → List (Joined F)) (now : ℕ) where
    -- The outcomes of a JoinSet as `join_next` returns them.
    abbrev pub join_all : List UpsDevice → List (Joined F)
    join_all ds = order (map load ds)

    unfoldable pub patch_of : DaemonState F → Remote → DeviceDiffPatch F
    patch_of state remote =
        let sorted = sort_devices state.devices remote.devices in
        record {
          added = added_by now (join_all sorted.new) ++ rechecked_by (join_all sorted.recheck);
          deleted = deleted_names remote.devices (keys state.devices);
          updated = sorted.updated;
          prot_ver = remote.prot_ver;
          upsd_ver = remote.upsd_ver;
        }

    unfoldable pub failure_count : DaemonState F → Remote → ℕ
    failure_count state remote =
        let sorted = sort_devices state.devices remote.devices in
        failures (join_all sorted.new) + failures (join_all sorted.recheck)

    unfoldable pub diff_upsd : DaemonState F → Option Remote → DiffResult F
    diff_upsd state none = failed client_error
    diff_upsd state (some remote) =
        if ltb (failure_count state remote) (length remote.devices)
        then patched (patch_of state remote)
        else failed device_load_failed

  -- The loops of `next` over a patch.
  unfoldable pub apply_added : List (DeviceEntry F) → Change F → Change F
  apply_added [] change = change
  apply_added (entry ∷ rest) (devices, events) =
      apply_added rest (insert entry.name entry devices, new_device entry.name events)

  unfoldable pub set_desc : Bytes → DeviceEntry F → DeviceEntry F
  set_desc desc entry = record entry { desc = desc }

  unfoldable pub apply_updated : List UpsDevice → Change F → Change F
  apply_updated [] change = change
  apply_updated (d ∷ rest) (devices, events) =
      apply_updated rest (elim (lookup d.ups_name devices) [
        | some entry ↦
            (update d.ups_name (set_desc d.desc) devices, updated_device d.ups_name events)
        | none ↦ (devices, events)
      ])

  unfoldable pub apply_deleted : List Bytes → Change F → Change F
  apply_deleted [] change = change
  apply_deleted (name ∷ rest) (devices, events) =
      apply_deleted rest (remove name devices, removed_device name events)

  unfoldable pub applied :
      ℕ → DeviceDiffPatch F → DaemonState F → Change F → DaemonState F × EventBatch
  applied now patch state (devices, events) = (
    record {
      devices = devices;
      last_device_sync = some now;
      status = online;
      prot_ver = some patch.prot_ver;
      ver = some patch.upsd_ver;
    },
    set_online state.status events,
  )

  -- The arm `Err(err)`, where the versions are kept if the server was dead before.
  unfoldable pub disconnected_state : ℕ → DaemonState F → EventBatch → DaemonState F × EventBatch
  disconnected_state now state events =
      let removed = removed_all (keys state.devices) events in
      if is_dead state.status
      then (record state { devices = []; last_device_sync = some now }, removed)
      else (
        record {
          devices = [];
          last_device_sync = some now;
          status = dead;
          prot_ver = none;
          ver = none;
        },
        set_upsd_status dead removed,
      )

  -- `DeviceSyncTask::next` behind `diff_upsd`, with the state under the write lock.
  unfoldable pub next : Bytes → ℕ → DaemonState F → DiffResult F → DaemonState F × EventBatch
  next namespace now state (patched patch) = applied now patch state (
      apply_deleted patch.deleted (
        apply_updated patch.updated (apply_added patch.added (state.devices, batch_new namespace))))
  next namespace now state (failed error) = disconnected_state now state (batch_new namespace)
