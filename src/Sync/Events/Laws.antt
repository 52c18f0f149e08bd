-- ===== src/Sync/Events/Laws.antt =====
-- The order in which event/batch.rs sends the events, and where it stops.
use nut_webgui.Prelude.{
  ◌≡◌, refl, ap, sym, ◌∙◌, [], ◌∷◌, ◌++◌, append_assoc, append-nil, List, Bool, true, false,
  Bool-cases, inl, inr, if◌then◌else◌, Option, none, some,
}
use nut_webgui.Upsmc.Text.{Bytes}
use nut_webgui.Sync.State.{ConnectionStatus}
use nut_webgui.Sync.Events.{
  SystemEvent, device_addition, device_removal, device_update, device_status_change,
  client_disconnection, client_connection, daemon_status_update, EventBatch, Sent, send_event,
  send_group, send_status, send,
}

-- One event for a group that has a member.
abbrev pub group : {A : Type 0} → (List A → Bytes → SystemEvent) → List A → Bytes → List SystemEvent
group make [] namespace = []
group make (x ∷ xs) namespace = make (x ∷ xs) namespace ∷ []

abbrev pub status_event : Option ConnectionStatus → Bytes → List SystemEvent
status_event none namespace = []
status_event (some status) namespace = daemon_status_update status namespace ∷ []

-- The events of a batch: what is new before what is gone, and the status of the server last.
abbrev pub wanted : EventBatch → List SystemEvent
wanted batch =
    let n = batch.namespace in
    (((((group device_addition batch.new n ++ group device_removal batch.removed n)
            ++ group device_update batch.updated n)
          ++ group device_status_change batch.status_changes n)
        ++ group client_disconnection batch.disconnections n)
      ++ group client_connection batch.connections n)
    ++ status_event batch.upsd_status n

abbrev pub until_unheard : (SystemEvent → Bool) → List SystemEvent → List SystemEvent
until_unheard heard [] = []
until_unheard heard (e ∷ es) = if heard e then e ∷ until_unheard heard es else []

module _ (heard : SystemEvent → Bool) where
  run : List SystemEvent → Sent → Sent
  run [] s = s
  run (e ∷ es) s = run es (send_event heard e s)

  run-append : (xs ys : List SystemEvent) (s : Sent) → run ys (run xs s) ≡ run (xs ++ ys) s
  unfolding run
  run-append [] ys s = refl
  run-append (x ∷ xs) ys s = run-append xs ys (send_event heard x s)

  run-send_group :
      {A : Type 0} (make : List A → Bytes → SystemEvent) (xs : List A) (n : Bytes) (s : Sent)
      → send_group heard make xs n s ≡ run (group make xs n) s
  unfolding run send_group
  run-send_group make [] n s = refl
  run-send_group make (x ∷ xs) n s = refl

  run-send_status :
      (o : Option ConnectionStatus) (n : Bytes) (s : Sent)
      → send_status heard o n s ≡ run (status_event o n) s
  unfolding run send_status
  run-send_status none n s = refl
  run-send_status (some status) n s = refl

  -- A group behind events that are sent.
  then_group :
      {A : Type 0} (make : List A → Bytes → SystemEvent) (xs : List A) (n : Bytes)
      (es : List SystemEvent) (start s : Sent)
      → s ≡ run es start
      → send_group heard make xs n s ≡ run (es ++ group make xs n) start
  then_group make xs n es start s h =
      run-send_group make xs n s
      ∙ ap (run (group make xs n)) h
      ∙ run-append es (group make xs n) start

  run_stopped : (es : List SystemEvent) (sent : List SystemEvent) → (run es (sent, true)).0 ≡ sent
  unfolding run send_event
  run_stopped [] sent = refl
  run_stopped (e ∷ es) sent = run_stopped es sent

  run_lem : (es sent : List SystemEvent) → (run es (sent, false)).0 ≡ sent ++ until_unheard heard es
  unfolding run send_event
  run_lem [] sent = sym (append-nil sent)
  run_lem (e ∷ es) sent = elim (Bool-cases (heard e)) [
    | inl h ↦
        rw (run, send_event, h)
          (run_lem es (sent ++ (e ∷ [])) ∙ append_assoc sent (e ∷ []) (until_unheard heard es))
    | inr h ↦ rw (run, send_event, h) (run_stopped es sent ∙ sym (append-nil sent))
  ]

  -- A batch is sent as one event for each group that is not empty, in a fixed order, up to the
  -- first event that the channel refuses.
  pub send-wanted : (batch : EventBatch) → (send heard batch).0 ≡ until_unheard heard (wanted batch)
  unfolding send
  send-wanted batch =
      let n = batch.namespace in
      let start : Sent = ([], false) in
      let before = then_group client_connection batch.connections n _ start _ (
        then_group client_disconnection batch.disconnections n _ start _ (
          then_group device_status_change batch.status_changes n _ start _ (
            then_group device_update batch.updated n _ start _ (
              then_group device_removal batch.removed n _ start _
                (run-send_group device_addition batch.new n start))))) in
      ap (λ s. s.0)
        (run-send_status batch.upsd_status n _
          ∙ ap (run (status_event batch.upsd_status n)) before
          ∙ run-append _ (status_event batch.upsd_status n) start)
      ∙ run_lem (wanted batch) []
