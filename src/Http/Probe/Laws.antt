-- ===== src/Http/Probe/Laws.antt =====
-- What the probes of http/probe.rs report, and how they agree with daemon_status.rs.
use nut_webgui.Prelude.{
  ◌≡◌, ◌≢◌, ◌↔◌, refl, ℕ, ◌+◌, ◌≤◌, [], ◌∷◌, List, true, false, Option, none, some, length, All,
  arith,
}
use nut_webgui.Upsmc.Text.{Bytes, codes}
use nut_webgui.Sync.State.{ConnectionStatus, dead, online, not_ready, is_dead}
use nut_webgui.Upsmc.Dict.{lookup}
use nut_webgui.Http.Probe.{
  health_ok, health_dead, active_loop, get_health, Servers, get_namespace_readiness,
  readiness_response, check_status, daemon_connection, parameters,
}

active_loop_bounds :
    (s : List ConnectionStatus) (n : ℕ) → (n ≤ active_loop s n) × (active_loop s n ≤ n + length s)
unfolding active_loop
active_loop_bounds [] n = (omega arith, omega arith)
active_loop_bounds (dead ∷ s) n = let (a, b) = active_loop_bounds s n in (omega arith, omega arith)
active_loop_bounds (online ∷ s) n =
    let (a, b) = active_loop_bounds s (n + 1) in (omega arith, omega arith)
active_loop_bounds (not_ready ∷ s) n =
    let (a, b) = active_loop_bounds s (n + 1) in (omega arith, omega arith)

active_loop-All :
    (s : List ConnectionStatus) (n : ℕ)
    → (active_loop s n ≡ n + length s) ↔ All (λ c. is_dead c ≡ false) s
unfolding active_loop
active_loop-All [] n = (λ _. tt, λ _. omega arith)
active_loop-All (dead ∷ s) n =
    let (a, b) = active_loop_bounds s n in (λ h. ground arith, λ h. ground arith)
active_loop-All (online ∷ s) n =
    let (f, g) = active_loop-All s (n + 1) in
    (λ h. (refl, f (omega arith)), λ h. let e = g h.1 in omega arith)
active_loop-All (not_ready ∷ s) n =
    let (f, g) = active_loop-All s (n + 1) in
    (λ h. (refl, f (omega arith)), λ h. let e = g h.1 in omega arith)

active_loop-All_dead :
    (s : List ConnectionStatus) (n : ℕ) → (active_loop s n ≡ n) ↔ All (λ c. is_dead c ≡ true) s
unfolding active_loop
active_loop-All_dead [] n = (λ _. tt, λ _. refl)
active_loop-All_dead (dead ∷ s) n =
    let (f, g) = active_loop-All_dead s n in (λ h. (refl, f h), λ h. g h.1)
active_loop-All_dead (online ∷ s) n =
    let (a, b) = active_loop_bounds s (n + 1) in (λ h. ground arith, λ h. ground arith)
active_loop-All_dead (not_ready ∷ s) n =
    let (a, b) = active_loop_bounds s (n + 1) in (λ h. ground arith, λ h. ground arith)

-- The health is OK exactly when no server is dead, also without servers, and DEAD exactly when
-- there are servers and all are dead.
pub get_health_iff :
    (s : List ConnectionStatus)
    → ((get_health s ≡ health_ok) ↔ All (λ c. is_dead c ≡ false) s)
      × ((get_health s ≡ health_dead) ↔ ((s ≢ []) × All (λ c. is_dead c ≡ true) s))
unfolding get_health active_loop
get_health_iff [] = ((λ _. tt, λ _. refl), (λ h. ground arith, λ h. absurd (h.0 refl)))
get_health_iff (c ∷ s) =
    let (f, g) = active_loop-All (c ∷ s) 0 in
    let (k, l) = active_loop-All_dead (c ∷ s) 0 in
    (
      (λ h. f (ground arith), λ h. let e = g h in ground arith),
      (λ h. (λ n. ground arith, k (ground arith)), λ h. let e = l h.1 in ground arith),
    )

daemon_connection-agrees :
    (servers : Servers) (namespace : Bytes) (o : Option ConnectionStatus)
    → lookup namespace servers ≡ o
    → (check_status (lookup namespace servers) ≡ none)
      ↔ ((get_namespace_readiness servers namespace).0 ≢ 503)
unfolding get_namespace_readiness check_status readiness_response
daemon_connection-agrees servers namespace none h =
    rw (get_namespace_readiness, h) (λ _ e. omega arith, λ _. refl)
daemon_connection-agrees servers namespace (some online) h =
    rw (get_namespace_readiness, h) (λ _ e. omega arith, λ _. refl)
daemon_connection-agrees servers namespace (some dead) h =
    rw (get_namespace_readiness, h) (λ e. cc, λ n. absurd (n refl))
daemon_connection-agrees servers namespace (some not_ready) h =
    rw (get_namespace_readiness, h) (λ e. cc, λ n. absurd (n refl))

-- A request whose path names a namespace reaches the route exactly when the readiness probe of
-- that namespace does not answer 503.
pub daemon_connection-get_namespace_readiness :
    (servers : Servers) (given : List (Bytes × Bytes)) (namespace : Bytes)
    → lookup (codes "namespace") given ≡ some namespace
    → (daemon_connection servers (parameters given) ≡ none)
      ↔ ((get_namespace_readiness servers namespace).0 ≢ 503)
unfolding daemon_connection
daemon_connection-get_namespace_readiness servers given namespace h =
    rw (daemon_connection, h)
      (daemon_connection-agrees servers namespace (lookup namespace servers) refl)
