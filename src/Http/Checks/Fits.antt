-- ===== src/Http/Checks/Fits.antt =====
-- http/json_api/route/rw.rs: the values that are let through.
use nut_webgui.Prelude.{
  length, ltb, ◌==◌, arith, ◌≡◌, refl, ℕ, ◌≤◌, ◌<◌, true, Option, none, some, any, Bool-cases,
  Option-cases, inl, inr,
}
use nut_webgui.Upsmc.Text.{Bytes}
use nut_webgui.Upsmc.Dict.{lookup}
use nut_webgui.Upsmc.Value.{Value}
use nut_webgui.Sync.State.{DaemonState, DeviceEntry, VarDetail, number, enum, range}
use nut_webgui.Sync.State
use nut_webgui.Upsmc.Client.{trim_bytes}
use nut_webgui.Http.Checks.{
  Floats, is_numeric, as_lossly_f64, value_eq, check_string, check_bounds, check_value, check_rw,
}

module _ {F : Type 0} where
  -- A value that the device can be set to, without the code.
  pub Fits : Floats F → VarDetail F → Value F → Type 0
  Fits floats number value = is_numeric floats value ≡ true
  Fits floats (State.string max_len) value =
      (t : Bytes) × (value ≡ Value.string t)
      × (0 < length (trim_bytes t))
      × (length (trim_bytes t) ≤ max_len)
  Fits floats (enum options) value = any (λ option. value_eq floats option value) options ≡ true
  Fits floats (range lower upper) value =
      (a : F) × (b : F) × (x : F) × (as_lossly_f64 floats lower ≡ some a)
      × (as_lossly_f64 floats upper ≡ some b)
      × (as_lossly_f64 floats value ≡ some x)
      × (floats.le a x ≡ true)
      × (floats.le x b ≡ true)

  module _ (floats : Floats F) where
    check_string-Fits :
        (max_len : ℕ) (value : Value F)
        → check_string floats max_len value ≡ none
        → Fits floats (State.string max_len) value
    unfolding check_string Fits
    check_string-Fits max_len (Value.float x) e = absurd (cc e)
    check_string-Fits max_len (Value.int n) e = absurd (cc e)
    check_string-Fits max_len (Value.string t) e = elim (Bool-cases (length (trim_bytes t) == 0)) [
      | inl z ↦ absurd (cc (rw (check_string, z) at e))
      | inr z ↦ elim (Bool-cases (ltb max_len (length (trim_bytes t)))) [
        | inl l ↦ absurd (cc (rw (check_string, z, l) at e))
        | inr l ↦ (t, refl, ground (arith, z), ground (arith, l))
      ]
    ]

    numeric_lem :
        (value : Value F)
        → is_numeric floats value ≡ true
        → (x : F) × (as_lossly_f64 floats value ≡ some x)
    unfolding is_numeric as_lossly_f64
    numeric_lem (Value.float x) h = (x, refl)
    numeric_lem (Value.int n) h = (floats.of_int n, refl)
    numeric_lem (Value.string t) h = absurd (cc h)

    check_bounds_lem :
        (lower upper : Option F) (value : Value F) (x : F)
        → as_lossly_f64 floats value ≡ some x
        → check_bounds floats lower upper value ≡ none
        → (a : F) × (b : F) × (lower ≡ some a)
          × (upper ≡ some b)
          × (floats.le a x ≡ true)
          × (floats.le x b ≡ true)
    unfolding check_bounds
    check_bounds_lem none upper value x h e = absurd (cc e)
    check_bounds_lem (some a) none value x h e = absurd (cc e)
    check_bounds_lem (some a) (some b) value x h e = elim (Bool-cases (floats.le a x)) [
      | inr p ↦ absurd (cc (rw (check_bounds, h, p) at e))
      | inl p ↦ elim (Bool-cases (floats.le x b)) [
        | inr q ↦ absurd (cc (rw (check_bounds, h, p, q) at e))
        | inl q ↦ (a, b, refl, refl, p, q)
      ]
    ]

    check_value-Fits :
        (detail : VarDetail F) (value : Value F)
        → check_value floats detail value ≡ none
        → Fits floats detail value
    unfolding check_value Fits
    check_value-Fits number value e = elim (Bool-cases (is_numeric floats value)) [
      | inl h ↦ h
      | inr h ↦ absurd (cc (rw (check_value, h) at e))
    ]
    check_value-Fits (State.string max_len) value e = check_string-Fits max_len value e
    check_value-Fits (enum options) value e =
        elim (Bool-cases (any (λ option. value_eq floats option value) options)) [
          | inl h ↦ h
          | inr h ↦ absurd (cc (rw (check_value, h) at e))
        ]
    check_value-Fits (range lower upper) value e = elim (Bool-cases (is_numeric floats value)) [
      | inr h ↦ absurd (cc (rw (check_value, h) at e))
      | inl h ↦
          let (x, k) = numeric_lem value h in
          let (a, b, p, q, u, w) = check_bounds_lem _ _ value x k (rw (check_value, h) at e) in
          (a, b, x, p, q, k, u, w)
    ]

    pub check_rw-Fits :
        (state : DaemonState F) (ups_name variable : Bytes) (value : Value F)
        → check_rw floats state ups_name variable value ≡ none
        → (device : DeviceEntry F) × (detail : VarDetail F) × (lookup ups_name state.devices
            ≡ some device)
          × (lookup variable device.rw_variables ≡ some detail)
          × Fits floats detail value
    unfolding check_rw
    check_rw-Fits state ups_name variable value e =
        elim (Option-cases (lookup ups_name state.devices)) [
          | inl n ↦ absurd (cc (rw (check_rw, n) at e))
          | inr (device, n) ↦ elim (Option-cases (lookup variable device.rw_variables)) [
            | inl m ↦ absurd (cc (rw (check_rw, n, m) at e))
            | inr (detail, m) ↦
                (device, detail, n, m, check_value-Fits detail value (rw (check_rw, n, m) at e))
          ]
        ]
