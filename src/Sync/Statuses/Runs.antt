-- ===== src/Sync/Statuses/Runs.antt =====
-- What the task of sync/sync_status.rs can do to the devices while that of sync_device.rs waits.
use nut_webgui.Prelude.{
  ◌≡◌, refl, ◌∙◌, ℕ, [], ◌∷◌, List, Option, Option-cases, none, some, inl, inr,
}
use nut_webgui.Upsmc.Text.{Bytes}
use nut_webgui.Upsmc.Dict.{Dict, lookup}
use nut_webgui.Upsmc.Response.{UpsDevice}
use nut_webgui.Upsmc.Values.{UpsVar}
use nut_webgui.Sync.State.{IpAddr, DeviceEntry, DaemonState, nocomm, mark_as_dead_with}
use nut_webgui.Sync.Events.{DeviceStatusChange, EventBatch}
use nut_webgui.Sync.Devices.{Joined, DeviceDiffPatch, patched, Remote, is_listed, diff_upsd, next}
use nut_webgui.Sync.Devices.Names.{is_known, is_known-update}
use nut_webgui.Sync.Devices.Follows.{IsOrder, IsLoader, next-is_listed}
use nut_webgui.Sync.Statuses.{
  Details, set_status, set_details, status_step, status_sync, state_step, state_sync,
}

module _ {F : Type 0} where
  -- The synchronisations of sync_status.rs, one after the other, with whatever answers.
  pub data Runs (m : Dict (DeviceEntry F)) : Dict (DeviceEntry F) → Type 0 where
    idle : Runs m m
    partially :
        {t : Dict (DeviceEntry F)} (now : ℕ) (answers : List (Option (UpsVar F)))
        (changes : List DeviceStatusChange)
        → Runs m t
        → Runs m (status_sync now answers (t, changes)).0
    fully :
        {t : Dict (DeviceEntry F)} (now : ℕ) (lookup_ip : IpAddr → Option Bytes)
        (answers : List (Bytes × Option (Details F))) (events : EventBatch)
        → Runs m t
        → Runs m (state_sync now lookup_ip answers (t, events)).0

  is_known-status_step :
      (n : Bytes) (now : ℕ) (answer : Option (UpsVar F))
      (s : Dict (DeviceEntry F) × List DeviceStatusChange)
      → is_known n (status_step now answer s).0 ≡ is_known n s.0
  unfolding status_step
  is_known-status_step n now none s = refl
  is_known-status_step n now (some v) (m, changes) = elim (Option-cases (lookup v.ups_name m)) [
    | inl h ↦ rw (status_step, h) refl
    | inr (e, h) ↦ rw (status_step, h) (is_known-update n v.ups_name (set_status now v) m)
  ]

  is_known-status_sync :
      (n : Bytes) (now : ℕ) (answers : List (Option (UpsVar F)))
      (s : Dict (DeviceEntry F) × List DeviceStatusChange)
      → is_known n (status_sync now answers s).0 ≡ is_known n s.0
  unfolding status_sync
  is_known-status_sync n now [] s = refl
  is_known-status_sync n now (a ∷ answers) s =
      is_known-status_sync n now answers (status_step now a s) ∙ is_known-status_step n now a s

  is_known-state_step :
      (n : Bytes) (now : ℕ) (lookup_ip : IpAddr → Option Bytes)
      (answer : Bytes × Option (Details F)) (s : Dict (DeviceEntry F) × EventBatch)
      → is_known n (state_step now lookup_ip answer s).0 ≡ is_known n s.0
  unfolding state_step
  is_known-state_step n now lookup_ip (k, none) (m, events) = elim (Option-cases (lookup k m)) [
    | inl h ↦ rw (state_step, h) refl
    | inr (e, h) ↦ rw (state_step, h) (is_known-update n k (mark_as_dead_with now nocomm) m)
  ]
  is_known-state_step n now lookup_ip (k, some d) (m, events) = elim (Option-cases (lookup k m)) [
    | inl h ↦ rw (state_step, h) refl
    | inr (e, h) ↦ rw (state_step, h) (is_known-update n k (set_details now lookup_ip d) m)
  ]

  is_known-state_sync :
      (n : Bytes) (now : ℕ) (lookup_ip : IpAddr → Option Bytes)
      (answers : List (Bytes × Option (Details F))) (s : Dict (DeviceEntry F) × EventBatch)
      → is_known n (state_sync now lookup_ip answers s).0 ≡ is_known n s.0
  unfolding state_sync
  is_known-state_sync n now lookup_ip [] s = refl
  is_known-state_sync n now lookup_ip (a ∷ answers) s =
      is_known-state_sync n now lookup_ip answers (state_step now lookup_ip a s)
      ∙ is_known-state_step n now lookup_ip a s

  Runs-is_known : {m t : Dict (DeviceEntry F)} (n : Bytes) → Runs m t → is_known n t ≡ is_known n m
  Runs-is_known n idle = refl
  Runs-is_known n (partially {t} now answers changes r) =
      is_known-status_sync n now answers (t, changes) ∙ Runs-is_known n r
  Runs-is_known n (fully {t} now lookup_ip answers events r) =
      is_known-state_sync n now lookup_ip answers (t, events) ∙ Runs-is_known n r

  -- If no task panics, then after a synchronisation of the devices that succeeds the server has a
  -- device of a name exactly if upsd lists one, in whatever order the tasks end and whatever
  -- synchronisations of the statuses run between the comparison and the write.
  pub next-Runs :
      (load : UpsDevice → Joined F)
      → IsLoader load
      → (order : List (Joined F) → List (Joined F)) → IsOrder order
      → (namespace : Bytes) (now : ℕ) (before state : DaemonState F) (remote : Remote)
      → Runs before.devices state.devices
      → (patch : DeviceDiffPatch F) → diff_upsd load order now before (some remote) ≡ patched patch
      → (n : Bytes)
      → is_known n (next namespace now state (patched patch)).0.devices ≡ is_listed remote.devices n
  next-Runs load l order o namespace now before state remote r =
      next-is_listed load l order o namespace now before state remote (λ n. Runs-is_known n r)
