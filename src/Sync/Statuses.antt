-- ===== src/Sync/Statuses.antt =====
-- sync/sync_status.rs: how the status, the variables and the clients of the devices follow upsd.
-- `join_all` keeps the order of the devices; the answers of the client are given with it.
pub mod Laws
pub mod Runs
pub mod Ticks
use nut_webgui.Prelude.{
  ℕ, ◌+◌, ◌-◌, ◌≤◌, [], ◌∷◌, ◌++◌, List, Bool, true, false, not, if◌then◌else◌, ltb, leb, Option,
  none, some,
}
use nut_webgui.Upsmc.Text.{Bytes, codes}
use nut_webgui.Upsmc.Dict.{Dict, lookup, insert, update}
use nut_webgui.Upsmc.Value.{Value}
use nut_webgui.Upsmc.Values.{UpsVar}
use nut_webgui.Upsmc.Bits.{word_eq}
use nut_webgui.Upsmc.Status.{UpsStatus}
use nut_webgui.Sync.State.{
  IpAddr, ClientInfo, DeviceEntry, is_nocomm, nocomm, status_from, mark_as_dead_with,
}
use nut_webgui.Sync.Events.{
  DeviceStatusChange, EventBatch, updated_device, status_change, client_connection_of,
  client_disconnect,
}
use nut_webgui.Sync.Clients.{connected, disconnected, sync_clients}

pub data UpsPollType : Type 0 where
  full partial : UpsPollType

-- `UpsPollInterval`; the instants are numbers.
pub record UpsPollInterval : Type 0 where
  pub last_full_sync : Option ℕ
  pub full_sync_period : ℕ

-- The interval of `run`: no longer than the period of the full synchronisation.
unfoldable pub poll_interval : ℕ → ℕ → ℕ
poll_interval interval freq = if leb freq interval then freq else interval

unfoldable pub tick : ℕ → UpsPollInterval → UpsPollType × UpsPollInterval
tick instant self = elim self.last_full_sync [
  | some last_sync ↦
      if leb self.full_sync_period (instant - last_sync)
      then (full, record self { last_full_sync = some instant })
      else (partial, self)
  | none ↦ (full, record self { last_full_sync = some instant })
]

-- What `try_join!` brings of a device.
pub record Details (F : Type 0) : Type 0 where
  pub variables : Dict (Value F)
  pub ips : List IpAddr
  pub cmds : List Bytes

-- `if !ips.is_empty()`.
unfoldable pub tell :
    (Bytes → List IpAddr → EventBatch → EventBatch) → Bytes → List IpAddr → EventBatch → EventBatch
tell event name [] events = events
tell event name (ip ∷ ips) events = event name (ip ∷ ips) events

unfoldable pub tell_status : Bytes → UpsStatus → UpsStatus → EventBatch → EventBatch
tell_status name old new events =
    if word_eq 32 old new then events else status_change name old new events

module _ {F : Type 0} where
  -- `snapshot_active_device_names`.
  unfoldable pub active_names : Dict (DeviceEntry F) → List Bytes
  active_names [] = []
  active_names (entry ∷ rest) =
      let later = active_names rest in if is_nocomm entry.1.status then later else entry.0 ∷ later

  unfoldable pub set_status : ℕ → UpsVar F → DeviceEntry F → DeviceEntry F
  set_status now variable entry = record entry {
    status = status_from variable.value;
    variables = insert variable.name variable.value entry.variables;
    last_modified = now;
  }

  -- One answer of `status_sync`; `none` is an error of the client.
  unfoldable pub status_step :
      ℕ
      → Option (UpsVar F)
      → Dict (DeviceEntry F) × List DeviceStatusChange
      → Dict (DeviceEntry F) × List DeviceStatusChange
  status_step now none (devices, changes) = (devices, changes)
  status_step now (some variable) (devices, changes) = elim (lookup variable.ups_name devices) [
    | none ↦ (devices, changes)
    | some entry ↦
        let new = status_from variable.value in
        let change : DeviceStatusChange = record {
          name = variable.ups_name;
          status_old = entry.status;
          status_new = new;
        } in
        (
          update variable.ups_name (set_status now variable) devices,
          if word_eq 32 entry.status new then changes else changes ++ (change ∷ []),
        )
  ]

  unfoldable pub status_sync :
      ℕ
      → List (Option (UpsVar F))
      → Dict (DeviceEntry F) × List DeviceStatusChange
      → Dict (DeviceEntry F) × List DeviceStatusChange
  status_sync now [] state = state
  status_sync now (answer ∷ answers) state = status_sync now answers (status_step now answer state)

  abbrev pub reported_status : Option (Value F) → UpsStatus → UpsStatus
  reported_status none old = old
  reported_status (some value) old = status_from value

  unfoldable pub set_details :
      ℕ → (IpAddr → Option Bytes) → Details F → DeviceEntry F → DeviceEntry F
  set_details now lookup_ip details entry = record entry {
    attached = sync_clients lookup_ip entry.attached details.ips;
    commands = details.cmds;
    last_modified = now;
    status = reported_status (lookup (codes "ups.status") details.variables) entry.status;
    variables = details.variables;
  }

  -- One answer of `state_sync`: the clients are compared before they are changed.
  unfoldable pub state_step :
      ℕ
      → (IpAddr → Option Bytes)
      → Bytes × Option (Details F)
      → Dict (DeviceEntry F) × EventBatch
      → Dict (DeviceEntry F) × EventBatch
  state_step now lookup_ip (name, answer) (devices, events) = elim (lookup name devices) [
    | none ↦ (devices, events)
    | some entry ↦ elim answer [
      | some details ↦
          let new = reported_status (lookup (codes "ups.status") details.variables) entry.status in
          (
            update name (set_details now lookup_ip details) devices,
            updated_device name (
                tell client_connection_of name (connected entry.attached details.ips) (
                  tell client_disconnect name (disconnected entry.attached details.ips)
                    (tell_status name entry.status new events))),
          )
      | none ↦ (
        update name (mark_as_dead_with now nocomm) devices,
        status_change name entry.status nocomm events,
      )
    ]
  ]

  unfoldable pub state_sync :
      ℕ
      → (IpAddr → Option Bytes)
      → List (Bytes × Option (Details F))
      → Dict (DeviceEntry F) × EventBatch
      → Dict (DeviceEntry F) × EventBatch
  state_sync now lookup_ip [] state = state
  state_sync now lookup_ip (answer ∷ answers) state =
      state_sync now lookup_ip answers (state_step now lookup_ip answer state)
