-- ===== src/Sync/Events.antt =====
-- event.rs, event/batch.rs and event/channel.rs: the events that tell the browsers of a change.
pub mod Laws
use nut_webgui.Prelude.{[], ◌∷◌, ◌++◌, List, Bool, true, false, Option, none, some}
use nut_webgui.Upsmc.Text.{Bytes}
use nut_webgui.Upsmc.Status.{UpsStatus}
use nut_webgui.Sync.State.{IpAddr, ConnectionStatus}

pub record DeviceStatusChange : Type 0 where
  pub name : Bytes
  pub status_old : UpsStatus
  pub status_new : UpsStatus

pub record DeviceClientInfo : Type 0 where
  pub name : Bytes
  pub clients : List IpAddr

-- The last field of each is the namespace.
pub data SystemEvent : Type 0 where
  device_addition device_removal device_update : List Bytes → Bytes → SystemEvent
  device_status_change : List DeviceStatusChange → Bytes → SystemEvent
  client_disconnection client_connection : List DeviceClientInfo → Bytes → SystemEvent
  daemon_status_update : ConnectionStatus → Bytes → SystemEvent

pub record EventBatch : Type 0 where
  pub namespace : Bytes
  pub upsd_status : Option ConnectionStatus
  pub new : List Bytes
  pub removed : List Bytes
  pub status_changes : List DeviceStatusChange
  pub updated : List Bytes
  pub disconnections : List DeviceClientInfo
  pub connections : List DeviceClientInfo

unfoldable pub batch_new : Bytes → EventBatch
batch_new namespace = record {
  namespace = namespace;
  upsd_status = none;
  new = [];
  removed = [];
  status_changes = [];
  updated = [];
  disconnections = [];
  connections = [];
}

unfoldable pub new_device : Bytes → EventBatch → EventBatch
new_device name batch = record batch { new = batch.new ++ (name ∷ []) }

unfoldable pub removed_device : Bytes → EventBatch → EventBatch
removed_device name batch = record batch { removed = batch.removed ++ (name ∷ []) }

unfoldable pub updated_device : Bytes → EventBatch → EventBatch
updated_device name batch = record batch { updated = batch.updated ++ (name ∷ []) }

unfoldable pub status_change : Bytes → UpsStatus → UpsStatus → EventBatch → EventBatch
status_change name old new batch = record batch {
  status_changes =
      batch.status_changes ++ (record { name = name; status_old = old; status_new = new } ∷ []);
}

unfoldable pub client_connection_of : Bytes → List IpAddr → EventBatch → EventBatch
client_connection_of name connected batch = record batch {
  connections = batch.connections ++ (record { name = name; clients = connected } ∷ []);
}

unfoldable pub client_disconnect : Bytes → List IpAddr → EventBatch → EventBatch
client_disconnect name disconnected batch = record batch {
  disconnections = batch.disconnections ++ (record { name = name; clients = disconnected } ∷ []);
}

unfoldable pub set_upsd_status : ConnectionStatus → EventBatch → EventBatch
set_upsd_status status batch = record batch { upsd_status = some status }

-- What a channel has taken, and whether the last `send` has failed: it does so when nobody listens.
abbrev pub Sent : Type 0
Sent = List SystemEvent × Bool

-- `channel.send(event)?`, for the listeners that are there at that time.
unfoldable pub send_event : (SystemEvent → Bool) → SystemEvent → Sent → Sent
send_event heard event (sent, false) = elim (heard event) [
  | true ↦ (sent ++ (event ∷ []), false)
  | false ↦ (sent, true)
]
send_event heard event (sent, true) = (sent, true)

-- `if !group.is_empty() { channel.send(..)?; }`.
unfoldable pub send_group :
    {A : Type 0}
    → (SystemEvent → Bool)
    → (List A → Bytes → SystemEvent)
    → List A
    → Bytes
    → Sent
    → Sent
send_group heard make [] namespace s = s
send_group heard make (x ∷ xs) namespace s = send_event heard (make (x ∷ xs) namespace) s

unfoldable pub send_status : (SystemEvent → Bool) → Option ConnectionStatus → Bytes → Sent → Sent
send_status heard none namespace s = s
send_status heard (some status) namespace s =
    send_event heard (daemon_status_update status namespace) s

-- `EventBatch::send`.
unfoldable pub send : (SystemEvent → Bool) → EventBatch → Sent
send heard batch =
    let n = batch.namespace in
    send_status heard batch.upsd_status n (
      send_group heard client_connection batch.connections n (
        send_group heard client_disconnection batch.disconnections n (
          send_group heard device_status_change batch.status_changes n (
            send_group heard device_update batch.updated n (
              send_group heard device_removal batch.removed n
                (send_group heard device_addition batch.new n ([], false)))))))
