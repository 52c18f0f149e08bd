-- ===== src/Http/Messages/Sent.antt =====
-- message_broadcast.rs behind event/batch.rs: what the browsers are told of a batch.
use nut_webgui.Prelude.{
  ◌≡◌, refl, ap, sym, ◌∙◌, ℕ, Bool, true, Option, none, some, List, [], ◌∷◌, ◌++◌, append_assoc,
  append-nil,
}
use nut_webgui.Upsmc.Text.{Bytes}
use nut_webgui.Upsmc.Event.{events_new}
use nut_webgui.Sync.State.{ConnectionStatus, IpAddr}
use nut_webgui.Sync.Events.{EventBatch, SystemEvent, send_event, send_group, DeviceClientInfo}
use nut_webgui.Sync.Events
use nut_webgui.Sync.Events.Laws.{group, status_event, wanted, until_unheard, send-wanted}
use nut_webgui.Http.Messages.{
  client_connection, client_disconnection, device_status_change, device_update, device_removal,
  device_addition, map, process_clients, device_connected, device_removed, device_updated,
  client_connect, client_disconnect, status_message, device_status, NutEventMessage, daemon_status,
  messages,
}

unfoldable pub all_messages : ℕ → List SystemEvent → List NutEventMessage
all_messages timestamp [] = []
all_messages timestamp (e ∷ rest) = messages timestamp e ++ all_messages timestamp rest

abbrev pub status_messages : ℕ → Option ConnectionStatus → Bytes → List NutEventMessage
status_messages timestamp none n = []
status_messages timestamp (some status) n = daemon_status status n timestamp ∷ []

unfoldable concat : {A : Type 0} → List (List A) → List A
concat [] = []
concat (l ∷ ls) = l ++ concat ls

-- A message for each client of each device.
unfoldable pub for_clients :
    (Bytes → IpAddr → NutEventMessage) → List DeviceClientInfo → List NutEventMessage
unfolding concat
for_clients make devices = concat (map (λ device. map (make device.name) device.clients) devices)

process_clients-for_clients :
    (make : IpAddr → Bytes → NutEventMessage) (devices : List DeviceClientInfo)
    → process_clients make devices ≡ for_clients (λ name ip. make ip name) devices
unfolding process_clients for_clients concat
process_clients-for_clients make [] = refl
process_clients-for_clients make (d ∷ rest) =
    ap (λ x. map (λ ip. make ip d.name) d.clients ++ x) (process_clients-for_clients make rest)

-- Somebody listens all the time.
abbrev pub heard : SystemEvent → Bool
heard event = true

module _ (timestamp : ℕ) where
  all_messages-append :
      (a b : List SystemEvent)
      → all_messages timestamp (a ++ b) ≡ all_messages timestamp a ++ all_messages timestamp b
  unfolding all_messages
  all_messages-append [] b = refl
  all_messages-append (e ∷ rest) b =
      ap (λ x. messages timestamp e ++ x) (all_messages-append rest b)
      ∙ sym (
          append_assoc (messages timestamp e) (all_messages timestamp rest)
            (all_messages timestamp b))

  all_messages-one : (e : SystemEvent) → all_messages timestamp (e ∷ []) ≡ messages timestamp e
  unfolding all_messages
  all_messages-one e = append-nil (messages timestamp e)

  all_messages-group :
      {A : Type 0} (make : List A → Bytes → SystemEvent) (xs : List A) (n : Bytes)
      → messages timestamp (make [] n) ≡ []
      → all_messages timestamp (group make xs n) ≡ messages timestamp (make xs n)
  unfolding all_messages
  all_messages-group make [] n h = sym h
  all_messages-group make (x ∷ xs) n h = all_messages-one (make (x ∷ xs) n)

  all_messages-status_event :
      (o : Option ConnectionStatus) (n : Bytes)
      → all_messages timestamp (status_event o n) ≡ status_messages timestamp o n
  unfolding all_messages messages
  all_messages-status_event none n = refl
  all_messages-status_event (some status) n = refl

  until_unheard_all : (es : List SystemEvent) → until_unheard heard es ≡ es
  until_unheard_all [] = refl
  until_unheard_all (e ∷ es) = ap (λ x. e ∷ x) (until_unheard_all es)

  joined :
      (a b : List SystemEvent) {x y : List NutEventMessage}
      → all_messages timestamp a ≡ x
      → all_messages timestamp b ≡ y
      → all_messages timestamp (a ++ b) ≡ x ++ y
  joined a b p q = rw (← p, ← q) (all_messages-append a b)

  -- If somebody listens to the events of the server all the time, the messages for the events of a
  -- batch are one for each new, removed and updated device, one for each change of a status, with
  -- the old and the new status and the events between them, one for each client that left or came,
  -- with its device, and the status of the server if it is new, in this order.
  pub all_messages-send :
      (batch : EventBatch)
      → let n = batch.namespace in
        all_messages timestamp (Events.send heard batch).0
        ≡ (((((map (λ name. device_connected name n timestamp) batch.new
                    ++ map (λ name. device_removed name n timestamp) batch.removed)
                  ++ map (λ name. device_updated name n timestamp) batch.updated)
                ++ map
                    (λ c.
                      device_status c.name c.status_old c.status_new
                        (events_new c.status_old c.status_new)
                        n
                        timestamp)
                    batch.status_changes)
              ++ for_clients
                  (λ name ip. client_disconnect ip name n timestamp)
                  batch.disconnections)
            ++ for_clients (λ name ip. client_connect ip name n timestamp) batch.connections)
          ++ status_messages timestamp batch.upsd_status n
  unfolding messages process_clients status_message
  all_messages-send batch =
      let n = batch.namespace in
      ap (all_messages timestamp) (send-wanted heard batch ∙ until_unheard_all (wanted batch))
      ∙ joined _ _
          (joined _ _
            (joined _ _
              (joined _ _
                (joined _ _
                  (joined _ _ (all_messages-group device_addition batch.new n refl)
                    (all_messages-group device_removal batch.removed n refl))
                  (all_messages-group device_update batch.updated n refl))
                (all_messages-group device_status_change batch.status_changes n refl))
              (all_messages-group client_disconnection batch.disconnections n refl
                ∙ process_clients-for_clients (λ ip name. client_disconnect ip name n timestamp)
                    batch.disconnections))
            (all_messages-group client_connection batch.connections n refl
              ∙ process_clients-for_clients (λ ip name. client_connect ip name n timestamp)
                  batch.connections))
          (all_messages-status_event batch.upsd_status n)
