-- ===== src/Http/Messages.antt =====
-- http/event_api/message_broadcast.rs: the messages that tell the browsers of an event. The printer
-- of a message as JSON is an argument.
pub mod Sent
mod Tests
use mathlib.Core.Option
use nut_webgui.Prelude.{
  ℕ, ◌==◌, if◌then◌else◌, Bool, Option, none, some, and_then, List, [], ◌∷◌, ◌++◌, map,
}
use nut_webgui.Upsmc.Text.{Bytes}
use nut_webgui.Upsmc.Status.{UpsStatus}
use nut_webgui.Upsmc.Event.{UpsEvent, events_new}
use nut_webgui.Sync.State.{IpAddr, ConnectionStatus}
use nut_webgui.Sync.Events.{
  SystemEvent, device_addition, device_removal, device_update, device_status_change,
  client_disconnection, client_connection, daemon_status_update, DeviceStatusChange,
  DeviceClientInfo,
}

-- `NutEventMessage`, as far as an event is the reason for it; the last two fields are the namespace and
-- the timestamp.
pub data NutEventMessage : Type 0 where
  device_connected device_removed device_updated : Bytes → Bytes → ℕ → NutEventMessage
  device_status : Bytes → UpsStatus → UpsStatus → List UpsEvent → Bytes → ℕ → NutEventMessage
  daemon_status : ConnectionStatus → Bytes → ℕ → NutEventMessage
  client_connect client_disconnect : IpAddr → Bytes → Bytes → ℕ → NutEventMessage

-- The loop over devices with their clients.
unfoldable pub process_clients :
    (IpAddr → Bytes → NutEventMessage) → List DeviceClientInfo → List NutEventMessage
process_clients make [] = []
process_clients make (d ∷ rest) = map (λ ip. make ip d.name) d.clients ++ process_clients make rest

unfoldable pub status_message : Bytes → ℕ → DeviceStatusChange → NutEventMessage
status_message namespace timestamp c =
    device_status c.name c.status_old c.status_new (events_new c.status_old c.status_new) namespace
      timestamp

-- The messages of an event, in the order in which they are printed.
unfoldable pub messages : ℕ → SystemEvent → List NutEventMessage
messages timestamp (device_addition devices n) =
    map (λ name. device_connected name n timestamp) devices
messages timestamp (device_removal devices n) =
    map (λ name. device_removed name n timestamp) devices
messages timestamp (device_update devices n) = map (λ name. device_updated name n timestamp) devices
messages timestamp (device_status_change changes n) = map (status_message n timestamp) changes
messages timestamp (daemon_status_update status n) = daemon_status status n timestamp ∷ []
messages timestamp (client_connection devices n) =
    process_clients (λ ip name. client_connect ip name n timestamp) devices
messages timestamp (client_disconnection devices n) =
    process_clients (λ ip name. client_disconnect ip name n timestamp) devices

-- `?` on each `serde_json::to_string`.
unfoldable pub serialize_all :
    (NutEventMessage → Option Bytes) → List NutEventMessage → Option (List Bytes)
serialize_all to_string [] = some []
serialize_all to_string (m ∷ rest) =
    and_then (to_string m) λ text. Option.map (◌∷◌ text) (serialize_all to_string rest)

-- `SerializeTask::next`: the payload that is sent, if one is.
unfoldable pub broadcast_next :
    (NutEventMessage → Option Bytes) → ℕ → ℕ → SystemEvent → Option (List Bytes)
broadcast_next to_string receiver_count timestamp event =
    if receiver_count == 0 then none else serialize_all to_string (messages timestamp event)
