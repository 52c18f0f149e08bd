-- ===== src/Sync/Devices/Names.antt =====
-- The names of the devices under the loops of sync/sync_device.rs.
use nut_webgui.Prelude.{
  subst, ◌≡◌, refl, ap, sym, ◌∙◌, [], ◌∷◌, List, Bool, true, false, ◌||◌, ◌&&◌, not, Bool-cases,
  inl, inr, any, Option, Option-cases, none, some, arith,
}
use mathlib.Core.Bool.{or-false, and-false}
use mathlib.Core.Option
use nut_webgui.Upsmc.Text.{Bytes, text_eq, text_eq_iff}
use nut_webgui.Upsmc.Dict.{
  Dict, lookup, insert, remove, update, keys, is_some, lookup-insert, lookup-remove, lookup-update,
}
use nut_webgui.Upsmc.Response.{UpsDevice}
use nut_webgui.Sync.State.{DeviceEntry, is_nocomm}
use nut_webgui.Sync.Events.{removed_device, new_device, updated_device}
use nut_webgui.Sync.Devices.{
  Sorted, is_listed, deleted_names, sort_device, sort_devices, Change, apply_added, set_desc,
  apply_updated, apply_deleted,
}

abbrev pub mem_text : Bytes → List Bytes → Bool
mem_text name names = any (λ t. text_eq t name) names

or_swap : (a b c : Bool) → ((a || b) || c) ≡ (b || (a || c))
or_swap true true c = refl
or_swap true false c = refl
or_swap false true c = refl
or_swap false false c = refl

or_assoc : (a b c : Bool) → ((a || b) || c) ≡ (a || (b || c))
or_assoc true b c = refl
or_assoc false b c = refl

and-true : (b : Bool) → b ≡ (b && true)
and-true true = refl
and-true false = refl

and_not_or : (a b c : Bool) → (not a && b) && not c ≡ (b && not (a || c))
and_not_or true true c = refl
and_not_or true false c = refl
and_not_or false true c = refl
and_not_or false false c = refl

pub mem_text-deleted_names :
    (n : Bytes) (remote : List UpsDevice) (names : List Bytes)
    → mem_text n (deleted_names remote names) ≡ (mem_text n names && not (is_listed remote n))
unfolding deleted_names
mem_text-deleted_names n remote [] = refl
mem_text-deleted_names n remote (k ∷ names) = elim (Bool-cases (text_eq k n)) [
  | inl e ↦
      let same = ap (is_listed remote) ((text_eq_iff k n).0 e) in
      ground (arith, mem_text-deleted_names n remote names)
  | inr e ↦ ground (arith, mem_text-deleted_names n remote names)
]

module _ {F : Type 0} where
  -- Whether a server has a device of that name.
  abbrev pub is_known : Bytes → Dict (DeviceEntry F) → Bool
  is_known name devices = is_some (lookup name devices)

  abbrev pub has_name : Bytes → DeviceEntry F → Bool
  has_name name entry = text_eq entry.name name

  is_known-insert :
      (n k : Bytes) (v : DeviceEntry F) (m : Dict (DeviceEntry F))
      → is_known n (insert k v m) ≡ (text_eq k n || is_known n m)
  is_known-insert n k v m =
      rw (lookup-insert n k v m)
        (elim (Bool-cases (text_eq k n)) [ inl e ↦ rw e refl | inr e ↦ rw e refl ])

  is_known-remove :
      (n k : Bytes) (m : Dict (DeviceEntry F))
      → is_known n (remove k m) ≡ (not (text_eq k n) && is_known n m)
  is_known-remove n k m =
      rw (lookup-remove n k m)
        (elim (Bool-cases (text_eq k n)) [ inl e ↦ rw e refl | inr e ↦ rw e refl ])

  is_some-map :
      (f : DeviceEntry F → DeviceEntry F) (o : Option (DeviceEntry F))
      → is_some (Option.map f o) ≡ is_some o
  is_some-map f none = refl
  is_some-map f (some x) = refl

  pub is_known-update :
      (n k : Bytes) (f : DeviceEntry F → DeviceEntry F) (m : Dict (DeviceEntry F))
      → is_known n (update k f m) ≡ is_known n m
  is_known-update n k f m = rw (lookup-update n k f m) (elim (Bool-cases (text_eq k n)) [
    | inl e ↦ rw e (is_some-map f (lookup n m))
    | inr e ↦ rw e refl
  ])

  pub is_known-apply_added :
      (n : Bytes) (es : List (DeviceEntry F)) (c : Change F)
      → is_known n (apply_added es c).0 ≡ (is_known n c.0 || any (has_name n) es)
  unfolding apply_added
  is_known-apply_added n [] c = sym (or-false (is_known n c.0))
  is_known-apply_added n (e ∷ es) (m, events) =
      is_known-apply_added n es (insert e.name e m, new_device e.name events)
      ∙ ap (λ b. b || any (has_name n) es) (is_known-insert n e.name e m)
      ∙ or_swap (text_eq e.name n) (is_known n m) (any (has_name n) es)

  pub is_known-apply_updated :
      (n : Bytes) (ds : List UpsDevice) (c : Change F)
      → is_known n (apply_updated ds c).0 ≡ is_known n c.0
  unfolding apply_updated
  is_known-apply_updated n [] c = refl
  is_known-apply_updated n (d ∷ ds) (m, events) = elim (Option-cases (lookup d.ups_name m)) [
    | inl h ↦ rw (apply_updated, h) (is_known-apply_updated n ds (m, events))
    | inr (e, h) ↦
        rw (apply_updated, h)
          (is_known-apply_updated n ds
              (update d.ups_name (set_desc d.desc) m, updated_device d.ups_name events)
            ∙ is_known-update n d.ups_name (set_desc d.desc) m)
  ]

  pub is_known-apply_deleted :
      (n : Bytes) (names : List Bytes) (c : Change F)
      → is_known n (apply_deleted names c).0 ≡ (is_known n c.0 && not (mem_text n names))
  unfolding apply_deleted
  is_known-apply_deleted n [] c = and-true (is_known n c.0)
  is_known-apply_deleted n (k ∷ names) (m, events) =
      is_known-apply_deleted n names (remove k m, removed_device k events)
      ∙ ap (λ b. b && not (mem_text n names)) (is_known-remove n k m)
      ∙ and_not_or (text_eq k n) (is_known n m) (mem_text n names)

  pub mem_text-keys : (n : Bytes) (m : Dict (DeviceEntry F)) → mem_text n (keys m) ≡ is_known n m
  unfolding keys lookup
  mem_text-keys n [] = refl
  mem_text-keys n (e ∷ m) = elim (Bool-cases (text_eq e.0 n)) [
    | inl h ↦ rw h refl
    | inr h ↦ rw h (mem_text-keys n m)
  ]

  -- A known device is not new, and is the only one that a step can add to be looked at again.
  sort_device-known :
      (entry : DeviceEntry F) (d : UpsDevice) (s : Sorted) (n : Bytes)
      → ((sort_device (some entry) d s).new ≡ s.new)
        × ((is_listed (sort_device (some entry) d s).recheck n ≡ true)
            → (text_eq d.ups_name n || is_listed s.recheck n) ≡ true)
  unfolding sort_device is_listed
  sort_device-known entry d s n = elim (Bool-cases (is_nocomm entry.status)) [
    | inl e ↦ rw e (refl, λ h. ground arith)
    | inr e ↦ elim (Bool-cases (text_eq entry.desc d.desc)) [
      | inl f ↦ rw (e, f) (refl, λ h. ground arith)
      | inr f ↦ rw (e, f) (refl, λ h. ground arith)
    ]
  ]

  -- A remote device is new if no device has its name, and is looked at again only if one has.
  pub is_listed-sorted_new :
      (n : Bytes) (m : Dict (DeviceEntry F)) (ds : List UpsDevice)
      → is_listed (sort_devices m ds).new n ≡ (is_listed ds n && not (is_known n m))
  unfolding sort_devices is_listed sort_device
  is_listed-sorted_new n m [] = refl
  is_listed-sorted_new n m (d ∷ ds) = elim (Option-cases (lookup d.ups_name m)) [
    | inl h ↦ elim (Bool-cases (text_eq d.ups_name n)) [
      | inl e ↦
          let here = sym (ap (λ t. lookup t m) ((text_eq_iff d.ups_name n).0 e)) ∙ h in
          rw (h, e, here) refl
      | inr e ↦ rw (h, e) (is_listed-sorted_new n m ds)
    ]
    | inr (entry, h) ↦
        let same = ap (λ s. is_listed s n) (sort_device-known entry d (sort_devices m ds) n).0 in
        rw h (
          same ∙ is_listed-sorted_new n m ds ∙ elim (Bool-cases (text_eq d.ups_name n)) [
            | inl e ↦
                let here = sym (ap (λ t. lookup t m) ((text_eq_iff d.ups_name n).0 e)) ∙ h in
                rw (e, here) (and-false (is_listed ds n))
            | inr e ↦ rw e refl
          ])
  ]

  pub is_listed-sorted_recheck :
      (n : Bytes) (m : Dict (DeviceEntry F)) (ds : List UpsDevice)
      → is_listed (sort_devices m ds).recheck n ≡ true
      → (is_listed ds n ≡ true) × (is_known n m ≡ true)
  unfolding sort_devices is_listed sort_device
  is_listed-sorted_recheck n m [] h = cc
  is_listed-sorted_recheck n m (d ∷ ds) h = elim (Option-cases (lookup d.ups_name m)) [
    | inl o ↦
        let k : is_listed (sort_devices m ds).recheck n ≡ true =
          subst (λ x. is_listed (sort_device x d (sort_devices m ds)).recheck n ≡ true) o h in
        let (a, b) = is_listed-sorted_recheck n m ds k in (ground arith, b)
    | inr (entry, o) ↦
        let k =
          (sort_device-known entry d (sort_devices m ds) n).1
            (subst (λ x. is_listed (sort_device x d (sort_devices m ds)).recheck n ≡ true) o h) in
        elim (Bool-cases (text_eq d.ups_name n)) [
          | inl e ↦
              let here = sym (ap (λ t. lookup t m) ((text_eq_iff d.ups_name n).0 e)) ∙ o in
              (rw e refl, rw here refl)
          | inr e ↦ let (a, b) = is_listed-sorted_recheck n m ds (ground arith) in (ground arith, b)
        ]
  ]
