-- ===== src/Http/StatusDetail.antt =====
-- http/hypermedia/ups_status.rs: the flags of a status as they are shown on the pages.
use mathlib.Core.Option
use nut_webgui.Prelude.{
  All, arith, sym, subst, Bool-cases, ◌==◌, ◌+◌, ◌≤◌, ◌<◌, ℕ, suc, zero, ◌≡◌, refl, ap, ◌∙◌, Option,
  Option-cases, none, some, List, [], ◌∷◌, map, if◌then◌else◌, inl, inr,
}
use Prim.Native.String.{String}
use nut_webgui.Upsmc.Bits.{single, zeros, bit_eq, word_eq, next, iter, iter_loop}
use nut_webgui.Upsmc.Bits.Iter.{iter-positions, positions, positions-below}
use nut_webgui.Upsmc.Status.{
  UpsStatus, status_online, status_boost, status_calibrating, status_charging, status_discharge,
  status_alarm, status_forced_shutdown, status_low_battery, status_on_battery, status_overloaded,
  status_nocomm, status_replace_battery, status_test, status_trim, status_bypass,
}

pub data SemanticType : Type 0 where
  nothing info error warning success : SemanticType

pub record StatusDetail : Type 0 where
  pub icon_name : String
  pub class : SemanticType
  pub desc : String
  pub name : String

abbrev detail : String → SemanticType → String → String → StatusDetail
detail icon_name class desc name = record {
  icon_name = icon_name;
  class = class;
  desc = desc;
  name = name;
}

-- The arms of the `match`.
abbrev pub details : List (ℕ × StatusDetail)
details =
    (status_online, detail "activity" success "UPS Online" "ONLINE")
    ∷ (status_boost, detail "zap-off" error "Input voltage is too low" "BOOST")
    ∷ (status_calibrating, detail "loader" info "UPS is calibrating" "CALIBRATING")
    ∷ (status_charging, detail "battery-charging" info "Battery is charging" "CHARGING")
    ∷ (status_discharge, detail "battery" warning "Battery is discharging" "DISCHARGING")
    ∷ (status_alarm, detail "alert-circle" error "UPS requires intervention" "ALARM")
    ∷ (status_forced_shutdown, detail "power" error "FORCED SHUTDOWN has begun" "FSD")
    ∷ (status_low_battery, detail "battery" warning "Low battery" "LOW-BATTERY")
    ∷ (status_on_battery, detail "battery-charging" warning "UPS on battery" "ON-BATTERY")
    ∷ (status_overloaded, detail "alert-circle" error "UPS is overloaded" "OVERLOADED")
    ∷ (status_nocomm, detail "wifi-off" error "Daemon has no connection with UPS" "NOCOMM")
    ∷ (status_replace_battery, detail "tool" error "Replace battery" "REPLACE-BATTERY")
    ∷ (status_test, detail "activity" info "Under test" "TEST")
    ∷ (status_trim, detail "zap" error "Input voltage is too high" "TRIM")
    ∷ (status_bypass, detail "tool" info "Battery is disconnected for maintenance" "BYPASS")
    ∷ []

unfoldable pub detail_of : List (ℕ × StatusDetail) → UpsStatus → Option StatusDetail
detail_of [] status = none
detail_of (arm ∷ arms) status =
    if word_eq 32 status (single 32 arm.0) then some arm.1 else detail_of arms status

unfoldable pub get_status_detail : UpsStatus → Option StatusDetail
get_status_detail = detail_of details

-- What a loop over `StatusDetailIter` sees: `next` is none when the flags are at their end, and when
-- a flag has no detail.
unfoldable pub shown_loop : ℕ → UpsStatus → List StatusDetail
shown_loop zero state = []
shown_loop (suc fuel) state = elim (next 32 state) [
  | none ↦ []
  | some step ↦ elim (get_status_detail step.0) [ none ↦ [] | some d ↦ d ∷ shown_loop fuel step.1 ]
]

unfoldable pub status_details : UpsStatus → List StatusDetail
status_details = shown_loop 33

-- The details of these flags, up to the first flag that has none.
unfoldable pub until_unknown : List UpsStatus → List StatusDetail
until_unknown [] = []
until_unknown (v ∷ vs) = elim (get_status_detail v) [ none ↦ [] | some d ↦ d ∷ until_unknown vs ]

shown_loop-iter_loop :
    (fuel : ℕ) (state : UpsStatus) → shown_loop fuel state ≡ until_unknown (iter_loop fuel 32 state)
unfolding shown_loop iter_loop until_unknown
shown_loop-iter_loop zero state = refl
shown_loop-iter_loop (suc fuel) state = elim (Option-cases (next 32 state)) [
  | inl e ↦ rw (shown_loop, iter_loop, e) refl
  | inr (step, e) ↦ elim (Option-cases (get_status_detail step.0)) [
    | inl d ↦ rw (shown_loop, iter_loop, e, until_unknown, d) refl
    | inr (x, d) ↦
        rw (shown_loop, iter_loop, e, until_unknown, d)
          (ap (λ ds. x ∷ ds) (shown_loop-iter_loop fuel step.1))
  ]
]

-- A page shows the details of the set flags, lowest first, up to the first flag that has none.
pub status_details-positions :
    (status : UpsStatus)
    → status_details status ≡ until_unknown (map (single 32) (positions 32 status))
unfolding status_details iter
status_details-positions status =
    shown_loop-iter_loop 33 status ∙ ap until_unknown (iter-positions 32 status)

-- The names of the flags on a page, lowest bit first; COMM, OFFLINE, TICK and TOCK have none.
abbrev shown_names : List (Option String)
shown_names =
    some "ALARM"
    ∷ some "BOOST"
    ∷ some "BYPASS"
    ∷ some "CALIBRATING"
    ∷ some "CHARGING"
    ∷ none
    ∷ some "DISCHARGING"
    ∷ some "FSD"
    ∷ some "LOW-BATTERY"
    ∷ some "NOCOMM"
    ∷ none
    ∷ some "ONLINE"
    ∷ some "ON-BATTERY"
    ∷ some "OVERLOADED"
    ∷ some "REPLACE-BATTERY"
    ∷ some "TEST"
    ∷ none
    ∷ none
    ∷ some "TRIM"
    ∷ []

unfoldable name_at : List (Option String) → ℕ → Option String
name_at [] k = none
name_at (name ∷ names) zero = name
name_at (name ∷ names) (suc k) = name_at names k

unfoldable pub shown_name : ℕ → Option String
unfolding name_at
shown_name = name_at shown_names

-- The names of the bits up to the first that has none.
unfoldable pub until_unnamed : List ℕ → List String
until_unnamed [] = []
until_unnamed (k ∷ ks) = elim (shown_name k) [ none ↦ [] | some n ↦ n ∷ until_unnamed ks ]

unfoldable upwards : ℕ → ℕ → List ℕ
upwards zero m = []
upwards (suc n) m = m ∷ upwards n (m + 1)

All-upwards : (P : ℕ → Type 0) (n m : ℕ) → All P (upwards n m) → (k : ℕ) → m ≤ k → k < m + n → P k
unfolding upwards
All-upwards P zero m h k g l = absurd (omega arith)
All-upwards P (suc n) m h k g l = elim (Bool-cases (k == m)) [
  | inl e ↦ let same : m ≡ k = ground arith in subst P same h.0
  | inr e ↦ All-upwards P n (m + 1) h.1 k (ground arith) (omega arith)
]

abbrev IsNamed : ℕ → Type 0
IsNamed k = Option.map (λ d. d.name) (get_status_detail (single 32 k)) ≡ shown_name k

each_IsNamed : All IsNamed (upwards 32 0)
unfolding upwards get_status_detail detail_of word_eq bit_eq single zeros shown_name name_at
each_IsNamed = search

names_lem :
    (ks : List ℕ)
    → All (λ k. k < 32) ks
    → map (λ d. d.name) (until_unknown (map (single 32) ks)) ≡ until_unnamed ks
unfolding until_unknown until_unnamed
names_lem [] h = refl
names_lem (k ∷ ks) h =
    let named : IsNamed k =
      All-upwards IsNamed 32 0 each_IsNamed k (omega arith) (omega (arith, h.0)) in
    elim (Option-cases (get_status_detail (single 32 k))) [
      | inl e ↦
          let none_there : shown_name k ≡ none = sym named ∙ ap (Option.map (λ d. d.name)) e in
          rw (until_unknown, until_unnamed, e, none_there) refl
      | inr (d, e) ↦
          let there : shown_name k ≡ some d.name = sym named ∙ ap (Option.map (λ x. x.name)) e in
          rw (until_unknown, until_unnamed, e, there) (ap (λ l. d.name ∷ l) (names_lem ks h.1))
    ]

-- A page shows the names of the set flags of a status, lowest bit first, up to the first of COMM,
-- OFFLINE, TICK and TOCK or of a bit that is no flag, which hides all flags above it.
pub status_details_shown :
    (status : UpsStatus)
    → map (λ d. d.name) (status_details status) ≡ until_unnamed (positions 32 status)
status_details_shown status =
    ap (map (λ d. d.name)) (status_details-positions status)
    ∙ names_lem (positions 32 status) (positions-below 32 status)
