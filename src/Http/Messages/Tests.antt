-- ===== src/Http/Messages/Tests.antt =====
-- A run of the messages on a batch with one new device.
use nut_webgui.Prelude.{◌≡◌, none, [], ◌∷◌, ◌++◌, map}
use nut_webgui.Upsmc.Text.{codes}
use nut_webgui.Upsmc.Bits.{single}
use nut_webgui.Upsmc.Status.{status_online, status_on_battery}
use nut_webgui.Upsmc.Event.{events_new}
use nut_webgui.Sync.Events.{EventBatch, batch_new, new_device}
use nut_webgui.Sync.Events
use nut_webgui.Http.Messages.{
  device_connected, device_removed, device_updated, client_connect, client_disconnect,
  device_status,
}
use nut_webgui.Http.Messages.Sent.{
  all_messages, all_messages-send, heard, for_clients, status_messages,
}

abbrev batch : EventBatch
batch = record {
  namespace = codes "home";
  upsd_status = none;
  new = codes "bx" ∷ [];
  removed = [];
  status_changes =
      record {
        name = codes "c1";
        status_old = single 32 status_online;
        status_new = single 32 status_on_battery;
      }
      ∷ [];
  updated = codes "c1" ∷ [];
  disconnections = [];
  connections = [];
}

all_messages-send_example :
    let n = codes "home" in
    all_messages 7 (Events.send heard batch).0
    ≡ (((((map (λ name. device_connected name n 7) batch.new
                ++ map (λ name. device_removed name n 7) batch.removed)
              ++ map (λ name. device_updated name n 7) batch.updated)
            ++ map
                (λ c.
                  device_status c.name c.status_old c.status_new
                    (events_new c.status_old c.status_new)
                    n
                    7)
                batch.status_changes)
          ++ for_clients (λ name ip. client_disconnect ip name n 7) batch.disconnections)
        ++ for_clients (λ name ip. client_connect ip name n 7) batch.connections)
      ++ status_messages 7 batch.upsd_status n
all_messages-send_example = all_messages-send 7 batch
