-- ===== src/Upsmc/Event.antt =====
-- ups_event.rs: the events that lie between two statuses of a device.
pub mod Laws
mod Tests
use nut_webgui.Prelude.{
  ℕ, Bool, true, false, ◌||◌, ◌==◌, if◌then◌else◌, Option, none, some, List, [], ◌∷◌, ◌++◌,
}
use nut_webgui.Upsmc.Bits.{Word, single, word_eq, unset, iter}
use nut_webgui.Upsmc.Status.{
  UpsStatus, status_alarm, status_boost, status_bypass, status_calibrating, status_charging,
  status_comm, status_discharge, status_forced_shutdown, status_low_battery, status_nocomm,
  status_offline, status_online, status_on_battery, status_overloaded, status_replace_battery,
  status_test, status_tick, status_tock, status_trim,
}

pub data UpsEvent : Type 0 where
  alarm_on alarm_off boosting boosting_ended bypass_on bypass_off calibrating calibration_completed
        charging charging_ended discharging discharging_ended fsd low_battery low_battery_ended
        device_off device_on online on_battery overloaded overload_ended replace_battery
        replace_battery_ended testing test_completed trimming trimming_ended no_comm comm :
      UpsEvent

-- The derived `Eq` and `Hash` tell the variants apart by their number.
unfoldable pub discriminant : UpsEvent → ℕ
discriminant alarm_on = 0
discriminant alarm_off = 1
discriminant boosting = 2
discriminant boosting_ended = 3
discriminant bypass_on = 4
discriminant bypass_off = 5
discriminant calibrating = 6
discriminant calibration_completed = 7
discriminant charging = 8
discriminant charging_ended = 9
discriminant discharging = 10
discriminant discharging_ended = 11
discriminant fsd = 12
discriminant low_battery = 13
discriminant low_battery_ended = 14
discriminant device_off = 15
discriminant device_on = 16
discriminant online = 17
discriminant on_battery = 18
discriminant overloaded = 19
discriminant overload_ended = 20
discriminant replace_battery = 21
discriminant replace_battery_ended = 22
discriminant testing = 23
discriminant test_completed = 24
discriminant trimming = 25
discriminant trimming_ended = 26
discriminant no_comm = 27
discriminant comm = 28

-- A `HashSet` without its order, as a list.
unfoldable pub contains : List UpsEvent → UpsEvent → Bool
contains [] event = false
contains (e ∷ es) event = discriminant e == discriminant event || contains es event

unfoldable pub insert : UpsEvent → List UpsEvent → List UpsEvent
insert event es = if contains es event then es else es ++ (event ∷ [])

-- The arms of the two `match`es of `new`.
abbrev pub removed_events : List (ℕ × UpsEvent)
removed_events =
    (status_alarm, alarm_off)
    ∷ (status_boost, boosting_ended)
    ∷ (status_bypass, bypass_off)
    ∷ (status_calibrating, calibration_completed)
    ∷ (status_charging, charging_ended)
    ∷ (status_discharge, discharging_ended)
    ∷ (status_low_battery, low_battery_ended)
    ∷ (status_offline, device_on)
    ∷ (status_overloaded, overload_ended)
    ∷ (status_replace_battery, replace_battery_ended)
    ∷ (status_test, test_completed)
    ∷ (status_trim, trimming_ended)
    ∷ []

abbrev pub added_events : List (ℕ × UpsEvent)
added_events =
    (status_alarm, alarm_on)
    ∷ (status_boost, boosting)
    ∷ (status_bypass, bypass_on)
    ∷ (status_calibrating, calibrating)
    ∷ (status_charging, charging)
    ∷ (status_comm, comm)
    ∷ (status_discharge, discharging)
    ∷ (status_forced_shutdown, fsd)
    ∷ (status_low_battery, low_battery)
    ∷ (status_nocomm, no_comm)
    ∷ (status_offline, device_off)
    ∷ (status_online, online)
    ∷ (status_on_battery, on_battery)
    ∷ (status_overloaded, overloaded)
    ∷ (status_replace_battery, replace_battery)
    ∷ (status_test, testing)
    ∷ (status_trim, trimming)
    ∷ []

unfoldable pub event_of : List (ℕ × UpsEvent) → UpsStatus → Option UpsEvent
event_of [] status = none
event_of (arm ∷ arms) status =
    if word_eq 32 status (single 32 arm.0) then some arm.1 else event_of arms status

-- `for status in .. { match status { .. } }`.
unfoldable pub insert_events : List (ℕ × UpsEvent) → List UpsStatus → List UpsEvent → List UpsEvent
insert_events arms [] events = events
insert_events arms (status ∷ rest) events =
    insert_events arms rest
      (elim (event_of arms status) [ none ↦ events | some event ↦ insert event events ])

-- `UpsEvents::new`.
unfoldable pub events_new : UpsStatus → UpsStatus → List UpsEvent
events_new old_status new_status =
    let removed = unset 32 old_status new_status in
    let added = unset 32 new_status old_status in
    insert_events added_events (iter 32 added) (insert_events removed_events (iter 32 removed) [])
