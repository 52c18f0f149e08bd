-- ===== src/Upsmc/Event/Laws.antt =====
-- ups_event.rs: each event stands for one flag that has come or gone.
use nut_webgui.Prelude.{
  ℕ, ◌<◌, ◌≡◌, refl, ap, sym, ◌∙◌, Bool, true, false, not, ◌&&◌, ◌||◌, ◌==◌, ==_iff, if◌then◌else◌,
  Option, none, some, List, [], ◌∷◌, ◌++◌, map, All, all_below, all_below-lt, Bool-cases,
  Option-cases, inl, inr, arith,
}
use nut_webgui.Upsmc.Bits.{bit, single, unset, iter, bit_eq}
use nut_webgui.Upsmc.Bits.Laws.{bit-unset, word_eq-single, word_eq-single}
use nut_webgui.Upsmc.Bits.Iter.{positions-below, iter-positions, positions, elem, elem-positions}
use nut_webgui.Upsmc.Status.{
  UpsStatus, status_alarm, status_boost, status_bypass, status_calibrating, status_charging,
  status_comm, status_discharge, status_forced_shutdown, status_low_battery, status_nocomm,
  status_offline, status_online, status_on_battery, status_overloaded, status_replace_battery,
  status_test, status_trim,
}
use nut_webgui.Upsmc.Event.{
  UpsEvent, alarm_on, alarm_off, boosting, boosting_ended, bypass_on, bypass_off, calibrating,
  calibration_completed, charging, charging_ended, discharging, discharging_ended, fsd, low_battery,
  low_battery_ended, device_off, device_on, online, on_battery, overloaded, overload_ended,
  replace_battery, replace_battery_ended, testing, test_completed, trimming, trimming_ended,
  no_comm, comm, discriminant, contains, insert, removed_events, added_events, event_of,
  insert_events, events_new,
}

-- What an event says: this flag has come, or has gone.
pub data Edge : Type 0 where
  come : ℕ → Edge
  gone : ℕ → Edge

unfoldable pub edge : UpsEvent → Edge
edge alarm_on = come status_alarm
edge alarm_off = gone status_alarm
edge boosting = come status_boost
edge boosting_ended = gone status_boost
edge bypass_on = come status_bypass
edge bypass_off = gone status_bypass
edge calibrating = come status_calibrating
edge calibration_completed = gone status_calibrating
edge charging = come status_charging
edge charging_ended = gone status_charging
edge discharging = come status_discharge
edge discharging_ended = gone status_discharge
edge fsd = come status_forced_shutdown
edge low_battery = come status_low_battery
edge low_battery_ended = gone status_low_battery
edge device_off = come status_offline
edge device_on = gone status_offline
edge online = come status_online
edge on_battery = come status_on_battery
edge overloaded = come status_overloaded
edge overload_ended = gone status_overloaded
edge replace_battery = come status_replace_battery
edge replace_battery_ended = gone status_replace_battery
edge testing = come status_test
edge test_completed = gone status_test
edge trimming = come status_trim
edge trimming_ended = gone status_trim
edge no_comm = come status_nocomm
edge comm = come status_comm

unfoldable pub is_edge : Edge → UpsStatus → UpsStatus → Bool
is_edge (come k) old new = bit 32 new k && not (bit 32 old k)
is_edge (gone k) old new = bit 32 old k && not (bit 32 new k)

abbrev is_event : UpsEvent → Option UpsEvent → Bool
is_event x none = false
is_event x (some e) = discriminant e == discriminant x

event_at : List (ℕ × UpsEvent) → ℕ → Option UpsEvent
event_at [] k = none
event_at (arm ∷ arms) k = if k == arm.0 then some arm.1 else event_at arms k

flag_gone : Edge → ℕ → Bool
flag_gone (come j) k = false
flag_gone (gone j) k = k == j

flag_come : Edge → ℕ → Bool
flag_come (come j) k = k == j
flag_come (gone j) k = false

-- Each arm is the one arm of its event.
arms_agree : UpsEvent → ℕ → Bool
arms_agree x k =
    bit_eq (is_event x (event_at removed_events k)) (flag_gone (edge x) k)
    && bit_eq (is_event x (event_at added_events k)) (flag_come (edge x) k)

all_arms_agree : (x : UpsEvent) → all_below (arms_agree x) 32 ≡ true
unfolding all_below arms_agree event_at discriminant edge flag_gone flag_come bit_eq
all_arms_agree alarm_on = refl
all_arms_agree alarm_off = refl
all_arms_agree boosting = refl
all_arms_agree boosting_ended = refl
all_arms_agree bypass_on = refl
all_arms_agree bypass_off = refl
all_arms_agree calibrating = refl
all_arms_agree calibration_completed = refl
all_arms_agree charging = refl
all_arms_agree charging_ended = refl
all_arms_agree discharging = refl
all_arms_agree discharging_ended = refl
all_arms_agree fsd = refl
all_arms_agree low_battery = refl
all_arms_agree low_battery_ended = refl
all_arms_agree device_off = refl
all_arms_agree device_on = refl
all_arms_agree online = refl
all_arms_agree on_battery = refl
all_arms_agree overloaded = refl
all_arms_agree overload_ended = refl
all_arms_agree replace_battery = refl
all_arms_agree replace_battery_ended = refl
all_arms_agree testing = refl
all_arms_agree test_completed = refl
all_arms_agree trimming = refl
all_arms_agree trimming_ended = refl
all_arms_agree no_comm = refl
all_arms_agree comm = refl

bit_eq-true : (a b : Bool) → bit_eq a b ≡ true → a ≡ b
unfolding bit_eq
bit_eq-true true b h = sym h
bit_eq-true false b h = ground (arith, h)

arms-agree :
    (x : UpsEvent) (k : ℕ)
    → k < 32
    → (is_event x (event_at removed_events k) ≡ flag_gone (edge x) k)
      × (is_event x (event_at added_events k) ≡ flag_come (edge x) k)
unfolding arms_agree
arms-agree x k l =
    let h = all_below-lt (arms_agree x) 32 k (all_arms_agree x) l in
    (bit_eq-true _ _ (ground (arith, h)), bit_eq-true _ _ (ground (arith, h)))

contains-append :
    (es : List UpsEvent) (e x : UpsEvent)
    → contains (es ++ (e ∷ [])) x ≡ (contains es x || discriminant e == discriminant x)
unfolding contains
contains-append [] e x = ground arith
contains-append (y ∷ es) e x = rw (contains-append es e x) (ground arith)

contains-same :
    (es : List UpsEvent) (e x : UpsEvent)
    → discriminant e ≡ discriminant x
    → contains es e ≡ contains es x
unfolding contains
contains-same [] e x h = refl
contains-same (y ∷ es) e x h = rw (h, contains-same es e x h) refl

contains-insert :
    (es : List UpsEvent) (e x : UpsEvent)
    → contains (insert e es) x ≡ (contains es x || discriminant e == discriminant x)
unfolding insert
contains-insert es e x = elim (Bool-cases (contains es e)) [
  | inl h ↦ elim (Bool-cases (discriminant e == discriminant x)) [
    | inl d ↦ rw (insert, h) (ground (arith, h, contains-same es e x ((==_iff _ _).0 d)))
    | inr d ↦ rw (insert, h) (ground (arith, d))
  ]
  | inr h ↦ rw (insert, h) (contains-append es e x)
]

event_of-single :
    (arms : List (ℕ × UpsEvent)) (k : ℕ) → k < 32 → event_of arms (single 32 k) ≡ event_at arms k
unfolding event_of event_at
event_of-single [] k l = refl
event_of-single (arm ∷ arms) k l = rw (word_eq-single 32 k arm.0 l, event_of-single arms k l) refl

any : (ℕ → Bool) → List ℕ → Bool
any f [] = false
any f (k ∷ ks) = f k || any f ks

any-elem : (j : ℕ) (ks : List ℕ) → any (λ k. k == j) ks ≡ elem j ks
unfolding any elem
any-elem j [] = refl
any-elem j (k ∷ ks) = rw (any-elem j ks) refl

any_none : (ks : List ℕ) → any (λ k. false) ks ≡ false
unfolding any
any_none [] = refl
any_none (k ∷ ks) = any_none ks

contains-insert_events :
    (arms : List (ℕ × UpsEvent)) (x : UpsEvent) (f : ℕ → Bool)
    → ((k : ℕ) → k < 32 → is_event x (event_at arms k) ≡ f k)
    → (ks : List ℕ) (events : List UpsEvent) → All (λ k. k < 32) ks
    → contains (insert_events arms (map (single 32) ks) events) x ≡ (contains events x || any f ks)
unfolding insert_events any
contains-insert_events arms x f h [] events l = ground arith
contains-insert_events arms x f h (k ∷ ks) events l = elim (Option-cases (event_at arms k)) [
  | inl e ↦
      let g = h k l.0 in
      let rest = contains-insert_events arms x f h ks events l.1 in
      rw (insert_events, event_of-single arms k l.0, e) (rest ∙ ground (arith, e, g))
  | inr (event, e) ↦
      let g = ap (is_event x) (sym e) ∙ h k l.0 in
      let rest = contains-insert_events arms x f h ks (insert event events) l.1 in
      rw (insert_events, event_of-single arms k l.0, e)
        (rest ∙ ground (arith, g, contains-insert events event x))
]

module _ (old_status new_status : UpsStatus) where
  gone_then_come :
      (g : Edge)
      → (any (flag_gone g) (positions 32 (unset 32 old_status new_status))
          || any (flag_come g) (positions 32 (unset 32 new_status old_status)))
        ≡ is_edge g old_status new_status
  unfolding flag_gone flag_come is_edge
  gone_then_come (come k) =
      let w = unset 32 new_status old_status in
      rw (any_none (positions 32 (unset 32 old_status new_status)))
        (any-elem k (positions 32 w) ∙ elem-positions 32 w k ∙ bit-unset 32 new_status old_status k)
  gone_then_come (gone k) =
      let w = unset 32 old_status new_status in
      let e =
        any-elem k (positions 32 w)
        ∙ elem-positions 32 w k
        ∙ bit-unset 32 old_status new_status k in
      ground (arith, e, any_none (positions 32 (unset 32 new_status old_status)))

  -- An event is reported exactly when its flag has come or gone between the two statuses.
  pub contains-events_new :
      (x : UpsEvent)
      → contains (events_new old_status new_status) x ≡ is_edge (edge x) old_status new_status
  unfolding events_new contains
  contains-events_new x =
      let removed = unset 32 old_status new_status in
      let added = unset 32 new_status old_status in
      let first = insert_events removed_events (iter 32 removed) [] in
      let r =
        ap (λ vs. contains (insert_events removed_events vs []) x) (iter-positions 32 removed)
        ∙ contains-insert_events removed_events x (flag_gone (edge x)) (λ k l. (arms-agree x k l).0)
            (positions 32 removed) [] (positions-below 32 removed) in
      let a =
        ap (λ vs. contains (insert_events added_events vs first) x) (iter-positions 32 added)
        ∙ contains-insert_events added_events x (flag_come (edge x)) (λ k l. (arms-agree x k l).1)
            (positions 32 added) first (positions-below 32 added) in
      a ∙ ap (λ b. b || any (flag_come (edge x)) (positions 32 added)) r ∙ gone_then_come (edge x)
