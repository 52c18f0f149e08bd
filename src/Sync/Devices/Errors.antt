-- ===== src/Sync/Devices/Errors.antt =====
-- The events of a synchronisation of sync/sync_device.rs, and its failures.
use nut_webgui.Prelude.{
  Bool-cases, inr, inl, Option-cases, ◌≡◌, refl, ap, sym, ◌∙◌, ℕ, [], ◌∷◌, ◌++◌, append_assoc,
  append-nil, List, true, false, if◌then◌else◌, ltb, length, none, some, arith,
}
use nut_webgui.Upsmc.Text.{Bytes}
use nut_webgui.Upsmc.Dict.{remove, keys, lookup, update}
use nut_webgui.Upsmc.Response.{UpsDevice}
use nut_webgui.Sync.State.{
  DeviceEntry, DaemonState, ConnectionStatus, dead, online, not_ready, is_dead, is_online,
}
use nut_webgui.Sync.Events.{
  EventBatch, batch_new, new_device, removed_device, updated_device, set_upsd_status,
}
use nut_webgui.Sync.Devices.{
  insert, Joined, Change, SyncTaskError, device_load_failed, DeviceDiffPatch, patched, failed,
  Remote, removed_all, set_online, diff_upsd, failure_count, next, applied, disconnected_state,
  apply_added, apply_updated, apply_deleted, set_desc,
}

ltb_zero : (n : ℕ) → ltb n 0 ≡ false
ltb_zero n = ground arith

is_dead_eq : (s : ConnectionStatus) → is_dead s ≡ true → s ≡ dead
is_dead_eq dead h = refl
is_dead_eq online h = cc
is_dead_eq not_ready h = cc

set_online_lem :
    (s : ConnectionStatus) (events : EventBatch)
    → ((set_online s events).new ≡ events.new)
      × ((set_online s events).removed ≡ events.removed)
      × ((set_online s events).upsd_status
          ≡ (if is_online s then events.upsd_status else some online))
unfolding set_online set_upsd_status
set_online_lem dead events = (refl, refl, refl)
set_online_lem online events = (refl, refl, refl)
set_online_lem not_ready events = (refl, refl, refl)

abbrev pub entry_names : {F : Type 0} → List (DeviceEntry F) → List Bytes
entry_names [] = []
entry_names (e ∷ es) = e.name ∷ entry_names es

removed-removed_all :
    (names : List Bytes) (events : EventBatch)
    → ((removed_all names events).removed ≡ events.removed ++ names)
      × ((removed_all names events).upsd_status ≡ events.upsd_status)
unfolding removed_all removed_device
removed-removed_all [] events = (sym (append-nil events.removed), refl)
removed-removed_all (k ∷ names) events =
    let (r, u) = removed-removed_all names (removed_device k events) in
    (r ∙ append_assoc events.removed (k ∷ []) names, u)

-- What the loops of `next` leave of the events.
abbrev Same : EventBatch → EventBatch → List Bytes → List Bytes → Type 0
Same events events' added removed =
    (events'.new ≡ events.new ++ added)
    × (events'.removed ≡ events.removed ++ removed)
    × (events'.upsd_status ≡ events.upsd_status)

module _ {F : Type 0} where
  events-apply_added :
      (es : List (DeviceEntry F)) (c : Change F) → Same c.1 (apply_added es c).1 (entry_names es) []
  unfolding apply_added new_device
  events-apply_added [] c = (sym (append-nil c.1.new), sym (append-nil c.1.removed), refl)
  events-apply_added (e ∷ es) (m, events) =
      let (n, r, u) = events-apply_added es (insert e.name e m, new_device e.name events) in
      (n ∙ append_assoc events.new (e.name ∷ []) (entry_names es), r, u)

  events-apply_updated :
      (ds : List UpsDevice) (c : Change F) → Same c.1 (apply_updated ds c).1 [] []
  unfolding apply_updated updated_device
  events-apply_updated [] c = (sym (append-nil c.1.new), sym (append-nil c.1.removed), refl)
  events-apply_updated (d ∷ ds) (m, events) = elim (Option-cases (lookup d.ups_name m)) [
    | inl h ↦ rw (apply_updated, h) (events-apply_updated ds (m, events))
    | inr (e, h) ↦
        rw (apply_updated, h)
          (events-apply_updated ds
            (update d.ups_name (set_desc d.desc) m, updated_device d.ups_name events))
  ]

  events-apply_deleted :
      (names : List Bytes) (c : Change F) → Same c.1 (apply_deleted names c).1 [] names
  unfolding apply_deleted removed_device
  events-apply_deleted [] c = (sym (append-nil c.1.new), sym (append-nil c.1.removed), refl)
  events-apply_deleted (k ∷ names) (m, events) =
      let (n, r, u) = events-apply_deleted names (remove k m, removed_device k events) in
      (n, r ∙ append_assoc events.removed (k ∷ []) names, u)

  -- The events of a synchronisation that succeeds name the added devices and the deleted ones, and
  -- the status of the server if it was not online, which it is now.
  pub next-events :
      (namespace : Bytes) (now : ℕ) (state : DaemonState F) (patch : DeviceDiffPatch F)
      → ((next namespace now state (patched patch)).1.new ≡ entry_names patch.added)
        × ((next namespace now state (patched patch)).1.removed ≡ patch.deleted)
        × ((next namespace now state (patched patch)).1.upsd_status
            ≡ (if is_online state.status then none else some online))
        × ((next namespace now state (patched patch)).0.status ≡ online)
  unfolding next applied set_online set_upsd_status batch_new
  next-events namespace now state patch =
      let start : Change F = (state.devices, batch_new namespace) in
      let added = apply_added patch.added start in
      let updated = apply_updated patch.updated added in
      let (n, r, u) = events-apply_added patch.added start in
      let (n', r', u') = events-apply_updated patch.updated added in
      let (n'', r'', u'') = events-apply_deleted patch.deleted updated in
      let (a, b, c) = set_online_lem state.status (apply_deleted patch.deleted updated).1 in
      (
        a ∙ n'' ∙ append-nil updated.1.new ∙ n' ∙ append-nil added.1.new ∙ n,
        b ∙ r'' ∙ ap (λ t. t ++ patch.deleted) (r' ∙ append-nil added.1.removed ∙ r),
        c ∙ ap (λ t. if is_online state.status then t else some online) (u'' ∙ u' ∙ u),
        refl,
      )

  -- A synchronisation that fails leaves a dead server without devices, and tells of every device
  -- that the server had and of the new status, if it is new.
  pub next-failed :
      (namespace : Bytes) (now : ℕ) (state : DaemonState F) (error : SyncTaskError)
      → ((next namespace now state (failed error)).0.devices ≡ [])
        × ((next namespace now state (failed error)).0.status ≡ dead)
        × ((next namespace now state (failed error)).1.removed ≡ keys state.devices)
        × ((next namespace now state (failed error)).1.upsd_status
            ≡ (if is_dead state.status then none else some dead))
  unfolding next disconnected_state set_upsd_status batch_new
  next-failed namespace now state error =
      let (r, u) = removed-removed_all (keys state.devices) (batch_new namespace) in
      elim (Bool-cases (is_dead state.status)) [
        | inl e ↦ rw (disconnected_state, e) (refl, is_dead_eq state.status e, r, u)
        | inr e ↦ rw (disconnected_state, e) (refl, refl, r, refl)
      ]

  -- If upsd answers and lists no device, the synchronisation leaves a dead server.
  pub next-no_devices :
      (load : UpsDevice → Joined F) (order : List (Joined F) → List (Joined F)) (namespace : Bytes)
      (now : ℕ) (before state : DaemonState F) (remote : Remote)
      → remote.devices ≡ []
      → (next namespace now state (diff_upsd load order now before (some remote))).0.status ≡ dead
  unfolding diff_upsd
  next-no_devices load order namespace now before state remote h =
      let few : ltb (failure_count load order now before remote) (length remote.devices) ≡ false =
        ap (λ ds. ltb (failure_count load order now before remote) (length ds)) h
        ∙ ltb_zero (failure_count load order now before remote) in
      let none_left : diff_upsd load order now before (some remote) ≡ failed device_load_failed =
        rw few refl in
      ap (λ r. (next namespace now state r).0.status) none_left
      ∙ (next-failed namespace now state device_load_failed).1
