-- ===== src/Http/Probe.antt =====
-- http/probe.rs and http/json_api/middleware/daemon_status.rs, over the states of the servers at
-- the times at which their locks are taken. What axum makes of the path is an argument.
pub mod Laws
mod Tests
use nut_webgui.Prelude.{
  ◌≡◌, ◌≢◌, ◌↔◌, refl, ℕ, ◌+◌, ◌≤◌, ◌==◌, [], ◌∷◌, List, Bool, true, false, not, if◌then◌else◌,
  Option, none, some, ltb, length, All, arith,
}
use nut_webgui.Sync.State.{ConnectionStatus, dead, online, not_ready, is_dead, is_online}
use nut_webgui.Upsmc.Dict.{lookup}
use nut_webgui.Upsmc.Text.{Bytes, codes, text_eq}

pub data HealthStatus : Type 0 where
  health_degraded health_ok health_dead : HealthStatus

pub data Readiness : Type 0 where
  ready unready : Readiness

-- A status code and a body.
abbrev pub Response : Type 0
Response = ℕ × Bytes

unfoldable pub health_response : HealthStatus → Response
health_response health_degraded = (200, codes "DEGRADED")
health_response health_ok = (200, codes "OK")
health_response health_dead = (500, codes "DEAD")

unfoldable pub readiness_response : Readiness → Response
readiness_response ready = (200, codes "READY")
readiness_response unready = (503, codes "NOT-READY")

unfoldable pub active_loop : List ConnectionStatus → ℕ → ℕ
active_loop [] active_count = active_count
active_loop (s ∷ servers) active_count =
    active_loop servers (if not (is_dead s) then active_count + 1 else active_count)

unfoldable pub get_health : List ConnectionStatus → HealthStatus
get_health servers =
    let active_count = active_loop servers 0 in
    if active_count == length servers
    then health_ok
    else if ltb 0 active_count
    then health_degraded
    else health_dead

unfoldable pub get_readiness : List ConnectionStatus → Readiness
get_readiness [] = unready
get_readiness (s ∷ servers) =
    let rest = get_readiness servers in if is_online s then ready else rest

abbrev pub Servers : Type 0
Servers = List (Bytes × ConnectionStatus)

abbrev pub unknown_namespace : Response
unknown_namespace = (404, codes "UPSD NAMESPACE DOES NOT EXIST")

unfoldable pub get_namespace_health : Servers → Bytes → Response
get_namespace_health servers namespace = elim (lookup namespace servers) [
  | some s ↦ health_response (if not (is_dead s) then health_ok else health_dead)
  | none ↦ unknown_namespace
]

unfoldable pub get_namespace_readiness : Servers → Bytes → Response
get_namespace_readiness servers namespace = elim (lookup namespace servers) [
  | some s ↦ readiness_response (if is_online s then ready else unready)
  | none ↦ unknown_namespace
]

-- A title, a status code and a detail.
pub data ProblemDetail : Type 0 where
  problem : Bytes → ℕ → Option Bytes → ProblemDetail

-- What `Path::from_request_parts` returns: an error with its status and its text, no parameters,
-- or the parameters.
pub data Extracted : Type 0 where
  rejected : ℕ → Bytes → Extracted
  no_parameters : Extracted
  parameters : List (Bytes × Bytes) → Extracted

unfoldable pub check_status : Option ConnectionStatus → Option ProblemDetail
check_status none = none
check_status (some online) = none
check_status (some dead) = some (
    problem (codes "No UPSD connection") 503
      (some (codes "Server is unable to connect UPSD. See application logs for more details.")))
check_status (some not_ready) = some (problem (codes "Upsd state is not ready") 503 none)

-- `none` is `Ok(())`.
unfoldable pub daemon_connection : Servers → Extracted → Option ProblemDetail
daemon_connection servers (parameters given) = elim (lookup (codes "namespace") given) [
  | some namespace ↦ check_status (lookup namespace servers)
  | none ↦ none
]
daemon_connection servers no_parameters = none
daemon_connection servers (rejected status text) =
    some (problem (codes "Unexpected path rejection") status (some text))

module _ {Request Reply : Type 0} (next : Request → Reply)
    (into_response : ProblemDetail → Reply) where
  -- `DaemonStateService::call`.
  unfoldable pub call : Servers → Extracted → Request → Reply
  call servers extracted req = elim (daemon_connection servers extracted) [
    | none ↦ next req
    | some p ↦ into_response p
  ]
