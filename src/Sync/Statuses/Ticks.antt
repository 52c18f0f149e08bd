-- ===== src/Sync/Statuses/Ticks.antt =====
-- `UpsPollInterval` of sync/sync_status.rs: how long a full synchronisation can be put off.
use nut_webgui.Prelude.{
  ◌∙◌, Option-cases, Option, Bool-cases, leb, ◌-◌, ap, ◌≡◌, refl, ℕ, ◌+◌, ◌≤◌, ◌<◌, inl, inr, none,
  some, arith,
}
use nut_webgui.Sync.Statuses.{full, partial, UpsPollType, UpsPollInterval, tick, poll_interval}

-- The instant of the last full synchronisation, behind a synchronisation at the instant `now`.
unfoldable pub last_full : UpsPollType → ℕ → Option ℕ → Option ℕ
last_full full now last = some now
last_full partial now last = last

-- Ticks that are at most `gap` apart and go on from the instant `at`, with the instant of the last
-- one that was full.
pub data Ticks (gap : ℕ) : ℕ → UpsPollInterval → ℕ → UpsPollInterval → Option ℕ → Type 0 where
  here : {at : ℕ} {self : UpsPollInterval} → Ticks gap at self at self none
  later :
      {at now : ℕ} {self before : UpsPollInterval} {last : Option ℕ} (then_at : ℕ)
      → Ticks gap at self now before last
      → now ≤ then_at
      → then_at ≤ now + gap
      → Ticks gap at self then_at
          (tick then_at before).1
          (last_full (tick then_at before).0 then_at last)

poll_interval-le : (interval freq : ℕ) → poll_interval interval freq ≤ freq
unfolding poll_interval
poll_interval-le interval freq = ground arith

-- The last full synchronisation is not a period ago.
abbrev IsRecent : ℕ → UpsPollInterval → Type 0
IsRecent at self = (last : ℕ) → self.last_full_sync ≡ some last → at < last + self.full_sync_period

tick-IsRecent :
    (now : ℕ) (self : UpsPollInterval) → 0 < self.full_sync_period → IsRecent now (tick now self).1
unfolding tick
tick-IsRecent now self p last h = elim (Option-cases self.last_full_sync) [
  | inl e ↦ ground arith
  | inr (l, e) ↦ ground arith
]

tick-period :
    (now : ℕ) (self : UpsPollInterval) → (tick now self).1.full_sync_period ≡ self.full_sync_period
unfolding tick
tick-period now self = ground arith

-- The field is what the synchronisations say.
tick-last_full :
    (now : ℕ) (self : UpsPollInterval)
    → (tick now self).1.last_full_sync ≡ last_full (tick now self).0 now self.last_full_sync
unfolding tick last_full
tick-last_full now self = elim (Option-cases self.last_full_sync) [
  | inl e ↦ rw (tick, e) refl
  | inr (l, e) ↦ elim (Bool-cases (leb self.full_sync_period (now - l))) [
    | inl b ↦ rw (tick, e, b) refl
    | inr b ↦ rw (tick, e, b, last_full) e
  ]
]

Ticks-last_full :
    {gap at now : ℕ} {self before : UpsPollInterval} {last : Option ℕ}
    → self.last_full_sync ≡ none
    → Ticks gap at self now before last
    → before.last_full_sync ≡ last
Ticks-last_full n here = n
Ticks-last_full n (later {before} y t l g) =
    tick-last_full y before ∙ ap (last_full (tick y before).0 y) (Ticks-last_full n t)

Ticks-period :
    {gap at now : ℕ} {self before : UpsPollInterval} {last : Option ℕ}
    → Ticks gap at self now before last
    → before.full_sync_period ≡ self.full_sync_period
Ticks-period here = refl
Ticks-period (later {before} y t l g) = tick-period y before ∙ Ticks-period t

Ticks-IsRecent :
    {gap at now : ℕ} {self before : UpsPollInterval} {last : Option ℕ}
    → 0 < self.full_sync_period
    → self.last_full_sync ≡ none
    → Ticks gap at self now before last
    → IsRecent now before
Ticks-IsRecent p n here last h = cc
Ticks-IsRecent p n (later {before} y t l g) last h =
    tick-IsRecent y before (omega (arith, Ticks-period t)) last h

full_of_period :
    (next last : ℕ) (self : UpsPollInterval)
    → self.last_full_sync ≡ some last
    → last + self.full_sync_period ≤ next
    → (tick next self).0 ≡ full
unfolding tick
full_of_period next last self h g = rw (tick, h) (ground arith)

full_at_first :
    (next : ℕ) (self : UpsPollInterval) → self.last_full_sync ≡ none → (tick next self).0 ≡ full
unfolding tick
full_at_first next self h = rw (tick, h) refl

-- If an interval has seen no synchronisation before, and no two ticks are further apart than the
-- interval of run, then the first tick is full, and each later tick comes less than two periods
-- after the last tick that was full, and is itself full if the period is over.
pub tick-full :
    (interval freq : ℕ)
    → 0 < freq
    → {at now : ℕ} {self before : UpsPollInterval} {last : Option ℕ} → self.full_sync_period ≡ freq
    → self.last_full_sync ≡ none
    → Ticks (poll_interval interval freq) at self now before last
    → (next : ℕ) → next ≤ now + poll_interval interval freq
    → (last ≡ none → (tick next before).0 ≡ full)
      × ((l : ℕ)
          → last ≡ some l
          → (next < l + freq + freq) × ((l + freq ≤ next) → (tick next before).0 ≡ full))
tick-full interval freq p {before} q n t next g =
    let recent = Ticks-IsRecent (omega arith) n t in
    let period = Ticks-period t in
    let bound = poll_interval-le interval freq in
    let field = Ticks-last_full n t in
    (
      λ e. full_at_first next before (field ∙ e),
      λ l e.
          let now_recent = recent l (field ∙ e) in
          (omega arith, λ over. full_of_period next l before (field ∙ e) (omega arith)),
    )
