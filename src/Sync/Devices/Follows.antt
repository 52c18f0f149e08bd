-- ===== src/Sync/Devices/Follows.antt =====
-- What a synchronisation of sync/sync_device.rs makes of the devices.
use nut_webgui.Prelude.{
  ◌⊎◌, subst, ◌≡◌, refl, ap, sym, ◌∙◌, ℕ, [], ◌∷◌, ◌++◌, List, Bool, true, false, ◌||◌, ◌&&◌, not,
  Bool-cases, inl, inr, if◌then◌else◌, ltb, length, map, any, Option, none, some, arith,
}
use nut_webgui.Upsmc.Text.{Bytes, text_eq}
use nut_webgui.Upsmc.Dict.{keys}
use nut_webgui.Upsmc.Response.{UpsDevice}
use nut_webgui.Sync.State.{DaemonState}
use nut_webgui.Sync.Events.{batch_new}
use nut_webgui.Sync.Devices.{
  Change, device_load_failed, Joined, loaded, load_failed, join_failed, DeviceDiffPatch, patched,
  failed, Remote, is_listed, sort_devices, added_by, rechecked_by, unreachable, patch_of,
  failure_count, diff_upsd, next, applied, apply_added, apply_updated,
}
use nut_webgui.Sync.Devices.Names.{
  is_known, has_name, mem_text, is_known-apply_added, is_known-apply_updated,
  is_known-apply_deleted, mem_text-keys, mem_text-deleted_names, is_listed-sorted_new,
  is_listed-sorted_recheck,
}

abbrev names_it : Bytes → Option Bytes → Bool
names_it n none = false
names_it n (some name) = text_eq name n

or_if : (a b c : Bool) → b ≡ c → (a || b) ≡ (if a then true else c)
or_if true b c h = refl
or_if false b c h = h

or_cases : (a b : Bool) → (a || b) ≡ true → (a ≡ true) ⊎ (b ≡ true)
or_cases true b h = inl refl
or_cases false b h = inr h

module _ {F : Type 0} where
  -- The device that a task ends with.
  abbrev joined_name : Joined F → Option Bytes
  joined_name (loaded entry) = some entry.name
  joined_name (load_failed name) = some name
  joined_name join_failed = none

  abbrev ends_with : Bytes → Joined F → Bool
  ends_with n j = names_it n (joined_name j)

  abbrev loads : Bytes → Joined F → Bool
  loads n (loaded entry) = text_eq entry.name n
  loads n (load_failed name) = false
  loads n join_failed = false

  ends_with_of_loads : (n : Bytes) (j : Joined F) → loads n j ≡ true → ends_with n j ≡ true
  ends_with_of_loads n (loaded e) h = h
  ends_with_of_loads n (load_failed k) h = cc
  ends_with_of_loads n join_failed h = cc

  any-added_by :
      (now : ℕ) (n : Bytes) (js : List (Joined F))
      → any (has_name n) (added_by now js) ≡ any (ends_with n) js
  unfolding added_by unreachable
  any-added_by now n [] = refl
  any-added_by now n (loaded e ∷ js) = ap (λ b. text_eq e.name n || b) (any-added_by now n js)
  any-added_by now n (load_failed k ∷ js) = ap (λ b. text_eq k n || b) (any-added_by now n js)
  any-added_by now n (join_failed ∷ js) = any-added_by now n js

  any-rechecked_by :
      (n : Bytes) (js : List (Joined F)) → any (has_name n) (rechecked_by js) ≡ any (loads n) js
  unfolding rechecked_by
  any-rechecked_by n [] = refl
  any-rechecked_by n (loaded e ∷ js) = ap (λ b. text_eq e.name n || b) (any-rechecked_by n js)
  any-rechecked_by n (load_failed k ∷ js) = any-rechecked_by n js
  any-rechecked_by n (join_failed ∷ js) = any-rechecked_by n js

any-append {ℓ} :
    {A : Type ℓ} (p : A → Bool) (xs ys : List A) → any p (xs ++ ys) ≡ (any p xs || any p ys)
any-append p [] ys = refl
any-append p (x ∷ xs) ys =
    ap (λ b. p x || b) (any-append p xs ys) ∙ or_regroup (p x) (any p xs) (any p ys)
  where
    or_regroup : (a b c : Bool) → (a || (b || c)) ≡ ((a || b) || c)
    or_regroup true b c = refl
    or_regroup false b c = refl

-- A JoinSet returns every outcome, in some order.
abbrev pub IsOrder : {F : Type 0} → (List (Joined F) → List (Joined F)) → Type 0
IsOrder {F} order = (p : Joined F → Bool) (js : List (Joined F)) → any p (order js) ≡ any p js

-- A task ends with its device, loaded or not: none panics.
abbrev pub IsLoader : {F : Type 0} → (UpsDevice → Joined F) → Type 0
IsLoader load = (d : UpsDevice) → joined_name (load d) ≡ some d.ups_name

module _ {F : Type 0} where
  patched_inj : (p q : DeviceDiffPatch F) → patched p ≡ patched q → p ≡ q
  patched_inj p q h = cc

module _ {F : Type 0} (load : UpsDevice → Joined F) (loads_all : IsLoader load) where
  any-map-load :
      (n : Bytes) (ds : List UpsDevice) → any (ends_with n) (map load ds) ≡ is_listed ds n
  unfolding is_listed
  any-map-load n [] = refl
  any-map-load n (d ∷ ds) =
      ap (λ b. b || any (ends_with n) (map load ds)) (ap (names_it n) (loads_all d))
      ∙ or_if (text_eq d.ups_name n) _ (is_listed ds n) (any-map-load n ds)

  listed_of_loaded :
      (n : Bytes) (ds : List UpsDevice) → any (loads n) (map load ds) ≡ true → is_listed ds n ≡ true
  unfolding is_listed
  listed_of_loaded n [] h = cc
  listed_of_loaded n (d ∷ ds) h =
      elim (or_cases (loads n (load d)) (any (loads n) (map load ds)) h) [
        | inl e ↦
            let here = sym (ap (names_it n) (loads_all d)) ∙ ends_with_of_loads n (load d) e in
            rw here refl
        | inr e ↦ let later = listed_of_loaded n ds e in ground arith
      ]

-- What the three loops make of a name, where `k` says that the server had the device, `l` that it
-- is listed, and `r` that it was loaded again.
follows :
    (k l r : Bool)
    → ((r ≡ true) → l ≡ true)
    → (((k || ((l && not k) || r)) && not (k && not l)) ≡ l)
follows true true r h = refl
follows true false r h = refl
follows false true r h = refl
follows false false true h = sym (h refl)
follows false false false h = refl

module _ {F : Type 0} (load : UpsDevice → Joined F) (loads_all : IsLoader load)
    (order : List (Joined F) → List (Joined F)) (keeps_all : IsOrder order) where
  any-added :
      (now : ℕ) (state : DaemonState F) (remote : Remote) (n : Bytes)
      → (r : Bool) × (any (has_name n) (patch_of load order now state remote).added
          ≡ ((is_listed remote.devices n && not (is_known n state.devices)) || r))
        × ((r ≡ true) → is_listed remote.devices n ≡ true)
  unfolding patch_of
  any-added now state remote n =
      let sorted = sort_devices state.devices remote.devices in
      let new = order (map load sorted.new) in
      let recheck = order (map load sorted.recheck) in
      (
        any (has_name n) (rechecked_by recheck),
        any-append (has_name n) (added_by now new) (rechecked_by recheck)
            ∙ ap (λ b. b || any (has_name n) (rechecked_by recheck))
                (any-added_by now n new
                  ∙ keeps_all (ends_with n) (map load sorted.new)
                  ∙ any-map-load load loads_all n sorted.new
                  ∙ is_listed-sorted_new n state.devices remote.devices),
        λ h.
            let again = listed_of_loaded load loads_all n sorted.recheck (
              sym (any-rechecked_by n recheck ∙ keeps_all (loads n) (map load sorted.recheck))
              ∙ h) in
            (is_listed-sorted_recheck n state.devices remote.devices again).0,
      )

  deleted-patch_of :
      (now : ℕ) (state : DaemonState F) (remote : Remote) (n : Bytes)
      → mem_text n (patch_of load order now state remote).deleted
        ≡ (is_known n state.devices && not (is_listed remote.devices n))
  unfolding patch_of
  deleted-patch_of now state remote n =
      mem_text-deleted_names n remote.devices (keys state.devices)
      ∙ ap (λ b. b && not (is_listed remote.devices n)) (mem_text-keys n state.devices)

  diff_upsd-patch_of :
      (now : ℕ) (state : DaemonState F) (remote : Remote) (patch : DeviceDiffPatch F)
      → diff_upsd load order now state (some remote) ≡ patched patch
      → patch_of load order now state remote ≡ patch
  unfolding diff_upsd
  diff_upsd-patch_of now state remote patch h =
      elim (Bool-cases (ltb (failure_count load order now state remote) (length remote.devices))) [
        | inl e ↦
            let k : patched (patch_of load order now state remote) ≡ patched patch = rw e at h in
            patched_inj _ patch k
        | inr e ↦ let k : failed device_load_failed ≡ patched patch = rw e at h in cc
      ]

  -- If no task panics, then after a synchronisation that succeeds the server has a device of a name
  -- exactly if upsd lists one, in whatever order the tasks end and whatever else changed in the
  -- entries of the devices in the meantime.
  pub next-is_listed :
      (namespace : Bytes) (now : ℕ) (before state : DaemonState F) (remote : Remote)
      → ((n : Bytes) → is_known n state.devices ≡ is_known n before.devices)
      → (patch : DeviceDiffPatch F) → diff_upsd load order now before (some remote) ≡ patched patch
      → (n : Bytes)
      → is_known n (next namespace now state (patched patch)).0.devices ≡ is_listed remote.devices n
  unfolding next applied
  next-is_listed namespace now before state remote same patch h n =
      let p = patch_of load order now before remote in
      let start : Change F = (state.devices, batch_new namespace) in
      let added = apply_added p.added start in
      let updated = apply_updated p.updated added in
      let listed = is_listed remote.devices n in
      let known = is_known n before.devices in
      let (r, a, l) = any-added now before remote n in
      let gone : mem_text n p.deleted ≡ (known && not listed) =
        deleted-patch_of now before remote n in
      let here : is_known n updated.0 ≡ (known || ((listed && not known) || r)) =
        is_known-apply_updated n p.updated added
        ∙ is_known-apply_added n p.added start
        ∙ ap (λ b. b || any (has_name n) p.added) (same n)
        ∙ ap (λ b. known || b) a in
      subst (λ x. is_known n (next namespace now state (patched x)).0.devices ≡ listed)
        (diff_upsd-patch_of now before remote patch h)
        (is_known-apply_deleted n p.deleted updated
          ∙ ap (λ b. b && not (mem_text n p.deleted)) here
          ∙ ap (λ b. (known || ((listed && not known) || r)) && not b) gone
          ∙ follows known listed r l)
