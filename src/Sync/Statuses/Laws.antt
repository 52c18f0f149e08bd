-- ===== src/Sync/Statuses/Laws.antt =====
-- The statuses before and after a synchronisation of sync/sync_status.rs.
use nut_webgui.Upsmc.Bits.Laws.{word_eq_iff}
use nut_webgui.Prelude.{
  ◌≡◌, refl, ap, sym, ◌∙◌, ℕ, [], ◌∷◌, ◌++◌, List, Bool-cases, inl, inr, if◌then◌else◌, Option,
  Option-cases, none, some,
}
use mathlib.Core.Option
use nut_webgui.Upsmc.Text.{Bytes, codes, text_eq, text_eq_iff}
use nut_webgui.Upsmc.Dict.{Dict, lookup, update, lookup-update}
use nut_webgui.Upsmc.Bits.{word_eq}
use nut_webgui.Upsmc.Status.{UpsStatus}
use nut_webgui.Upsmc.Values.{UpsVar}
use nut_webgui.Sync.State.{IpAddr, DeviceEntry, mark_as_dead_with, nocomm}
use nut_webgui.Sync.Events.{
  batch_new, DeviceStatusChange, EventBatch, status_change, updated_device, client_connection_of,
  client_disconnect,
}
use nut_webgui.Sync.Clients.{connected, disconnected}
use nut_webgui.Sync.Statuses.{
  set_status, status_step, status_sync, Details, tell, tell_status, reported_status, set_details,
  state_step, state_sync,
}

-- The status that the changes lead to.
abbrev pub replay : Bytes → List DeviceStatusChange → Option UpsStatus → Option UpsStatus
replay n [] s = s
replay n (c ∷ cs) s = replay n cs (if text_eq c.name n then some c.status_new else s)

replay-append :
    (n : Bytes) (cs : List DeviceStatusChange) (c : DeviceStatusChange) (s : Option UpsStatus)
    → replay n (cs ++ (c ∷ [])) s ≡ (if text_eq c.name n then some c.status_new else replay n cs s)
replay-append n [] c s = refl
replay-append n (d ∷ cs) c s =
    replay-append n cs c (if text_eq d.name n then some d.status_new else s)

abbrev change_to : Bytes → UpsStatus → UpsStatus → DeviceStatusChange
change_to name old new = record { name = name; status_old = old; status_new = new }

status_changes-tell :
    (event : Bytes → List IpAddr → EventBatch → EventBatch) (name : Bytes) (ips : List IpAddr)
    (events : EventBatch)
    → ((x : List IpAddr) → (event name x events).status_changes ≡ events.status_changes)
    → (tell event name ips events).status_changes ≡ events.status_changes
unfolding tell
status_changes-tell event name [] events h = refl
status_changes-tell event name (ip ∷ ips) events h = h (ip ∷ ips)

status_changes-tell_status :
    (name : Bytes) (old new : UpsStatus) (events : EventBatch)
    → (tell_status name old new events).status_changes ≡ (
        if word_eq 32 old new
        then events.status_changes
        else events.status_changes ++ (change_to name old new ∷ []))
unfolding tell_status status_change
status_changes-tell_status name old new events = elim (Bool-cases (word_eq 32 old new)) [
  | inl e ↦ rw e refl
  | inr e ↦ rw e refl
]

module _ {F : Type 0} where
  abbrev pub status_at : Bytes → Dict (DeviceEntry F) → Option UpsStatus
  status_at n devices = Option.map (λ e. e.status) (lookup n devices)

  -- A write to an entry that is there.
  status_at-update :
      (n k : Bytes) (f : DeviceEntry F → DeviceEntry F) (m : Dict (DeviceEntry F))
      (e : DeviceEntry F)
      → lookup k m ≡ some e
      → status_at n (update k f m) ≡ (if text_eq k n then some (f e).status else status_at n m)
  status_at-update n k f m e h = elim (Bool-cases (text_eq k n)) [
    | inl same ↦
        let here : lookup n m ≡ some e =
          ap (λ t. lookup t m) (sym ((text_eq_iff k n).0 same)) ∙ h in
        rw (lookup-update n k f m, same, here) refl
    | inr other ↦ rw (lookup-update n k f m, other) refl
  ]

  if_same :
      (n k : Bytes) (m : Dict (DeviceEntry F)) (e : DeviceEntry F) (a b : Option UpsStatus)
      → lookup k m ≡ some e
      → some e.status ≡ a
      → status_at n m ≡ b
      → (if text_eq k n then a else status_at n m) ≡ b
  if_same n k m e a b h s r = elim (Bool-cases (text_eq k n)) [
    | inl same ↦
        let here : lookup n m ≡ some e =
          ap (λ t. lookup t m) (sym ((text_eq_iff k n).0 same)) ∙ h in
        rw same (sym s ∙ sym (ap (Option.map (λ x. x.status)) here) ∙ r)
    | inr other ↦ rw other r
  ]

  -- Changes that lead to the statuses of `m` lead, with one more, to those behind a write.
  replay-told :
      (n k : Bytes) (f : DeviceEntry F → DeviceEntry F) (m start : Dict (DeviceEntry F))
      (e : DeviceEntry F) (changes : List DeviceStatusChange)
      → lookup k m ≡ some e
      → status_at n m ≡ replay n changes (status_at n start)
      → status_at n (update k f m)
        ≡ replay n (changes ++ (change_to k e.status (f e).status ∷ [])) (status_at n start)
  replay-told n k f m start e changes h r =
      status_at-update n k f m e h
      ∙ ap (λ s. if text_eq k n then some (f e).status else s) r
      ∙ sym (replay-append n changes (change_to k e.status (f e).status) (status_at n start))

  -- So it is if no change is told where there is none.
  replay-told_if :
      (n k : Bytes) (f : DeviceEntry F → DeviceEntry F) (m start : Dict (DeviceEntry F))
      (e : DeviceEntry F) (changes : List DeviceStatusChange)
      → lookup k m ≡ some e
      → status_at n m ≡ replay n changes (status_at n start)
      → status_at n (update k f m)
        ≡ replay n
            (if word_eq 32 e.status (f e).status
              then changes
              else changes ++ (change_to k e.status (f e).status ∷ []))
            (status_at n start)
  replay-told_if n k f m start e changes h r =
      elim (Bool-cases (word_eq 32 e.status (f e).status)) [
        | inl same ↦ rw same (
            status_at-update n k f m e h
            ∙ if_same n k m e (some (f e).status) (replay n changes (status_at n start)) h
                (ap some ((word_eq_iff 32 e.status (f e).status).0 same)) r)
        | inr other ↦ rw other (replay-told n k f m start e changes h r)
      ]

  status_step-replay :
      (n : Bytes) (now : ℕ) (start : Dict (DeviceEntry F)) (answer : Option (UpsVar F))
      (s : Dict (DeviceEntry F) × List DeviceStatusChange)
      → status_at n s.0 ≡ replay n s.1 (status_at n start)
      → status_at n (status_step now answer s).0
        ≡ replay n (status_step now answer s).1 (status_at n start)
  unfolding status_step
  status_step-replay n now start none s r = r
  status_step-replay n now start (some v) (m, changes) r =
      elim (Option-cases (lookup v.ups_name m)) [
        | inl h ↦ rw (status_step, h) r
        | inr (e, h) ↦
            rw (status_step, h)
              (unfold set_status in
                replay-told_if n v.ups_name (set_status now v) m start e changes h r)
      ]

  status_sync-replay :
      (n : Bytes) (now : ℕ) (start : Dict (DeviceEntry F)) (answers : List (Option (UpsVar F)))
      (s : Dict (DeviceEntry F) × List DeviceStatusChange)
      → status_at n s.0 ≡ replay n s.1 (status_at n start)
      → status_at n (status_sync now answers s).0
        ≡ replay n (status_sync now answers s).1 (status_at n start)
  unfolding status_sync
  status_sync-replay n now start [] s r = r
  status_sync-replay n now start (a ∷ answers) s r =
      status_sync-replay n now start answers (status_step now a s)
        (status_step-replay n now start a s r)

  -- The changes that a partial synchronisation reports turn the status that each device had into
  -- the status that it has, in the order in which they are reported.
  pub status_sync-changes :
      (n : Bytes) (now : ℕ) (devices : Dict (DeviceEntry F)) (answers : List (Option (UpsVar F)))
      → status_at n (status_sync now answers (devices, [])).0
        ≡ replay n (status_sync now answers (devices, [])).1 (status_at n devices)
  status_sync-changes n now devices answers =
      status_sync-replay n now devices answers (devices, []) refl

  state_step-replay :
      (n : Bytes) (now : ℕ) (lookup_ip : IpAddr → Option Bytes) (start : Dict (DeviceEntry F))
      (answer : Bytes × Option (Details F)) (s : Dict (DeviceEntry F) × EventBatch)
      → status_at n s.0 ≡ replay n s.1.status_changes (status_at n start)
      → status_at n (state_step now lookup_ip answer s).0
        ≡ replay n (state_step now lookup_ip answer s).1.status_changes (status_at n start)
  unfolding state_step
  state_step-replay n now lookup_ip start (k, none) (m, events) r =
      elim (Option-cases (lookup k m)) [
        | inl h ↦ rw (state_step, h) r
        | inr (e, h) ↦
            rw (state_step, h)
              (unfold mark_as_dead_with status_change in
                replay-told n k (mark_as_dead_with now nocomm) m start e events.status_changes h r)
      ]
  state_step-replay n now lookup_ip start (k, some d) (m, events) r =
      elim (Option-cases (lookup k m)) [
        | inl h ↦ rw (state_step, h) r
        | inr (e, h) ↦
            rw (state_step, h)
              (unfold set_details updated_device client_connection_of client_disconnect in
                let new = reported_status (lookup (codes "ups.status") d.variables) e.status in
                let gone = disconnected e.attached d.ips in
                let told = tell_status k e.status new events in
                replay-told_if n k (set_details now lookup_ip d) m start e events.status_changes h r
                ∙ ap (λ cs. replay n cs (status_at n start))
                    (sym (
                      status_changes-tell client_connection_of k (connected e.attached d.ips)
                        (tell client_disconnect k gone told) (λ x. refl)
                      ∙ status_changes-tell client_disconnect k gone told (λ x. refl)
                      ∙ status_changes-tell_status k e.status new events)))
      ]

  state_sync-replay :
      (n : Bytes) (now : ℕ) (lookup_ip : IpAddr → Option Bytes) (start : Dict (DeviceEntry F))
      (answers : List (Bytes × Option (Details F))) (s : Dict (DeviceEntry F) × EventBatch)
      → status_at n s.0 ≡ replay n s.1.status_changes (status_at n start)
      → status_at n (state_sync now lookup_ip answers s).0
        ≡ replay n (state_sync now lookup_ip answers s).1.status_changes (status_at n start)
  unfolding state_sync
  state_sync-replay n now lookup_ip start [] s r = r
  state_sync-replay n now lookup_ip start (a ∷ answers) s r =
      state_sync-replay n now lookup_ip start answers (state_step now lookup_ip a s)
        (state_step-replay n now lookup_ip start a s r)

  -- The status changes that a full synchronisation reports turn the status that each device had
  -- into the status that it has, in the order in which they are reported.
  pub state_sync-changes :
      (n namespace : Bytes) (now : ℕ) (lookup_ip : IpAddr → Option Bytes)
      (devices : Dict (DeviceEntry F)) (answers : List (Bytes × Option (Details F)))
      → status_at n (state_sync now lookup_ip answers (devices, batch_new namespace)).0
        ≡ replay n
            (state_sync now lookup_ip answers (devices, batch_new namespace)).1.status_changes
            (status_at n devices)
  state_sync-changes n namespace now lookup_ip devices answers =
      state_sync-replay n now lookup_ip devices answers (devices, batch_new namespace)
        (unfold batch_new in refl)
