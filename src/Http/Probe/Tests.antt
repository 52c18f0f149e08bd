-- ===== src/Http/Probe/Tests.antt =====
-- Runs of http/probe.rs and of daemon_status.rs with two servers.
use nut_webgui.Prelude.{◌≡◌, ◌≢◌, ◌↔◌, refl, [], ◌∷◌, List, none, some}
use nut_webgui.Upsmc.Text.{Bytes, codes, text_eq}
use nut_webgui.Sync.State.{dead, online}
use nut_webgui.Upsmc.Dict.{lookup}
use nut_webgui.Http.Probe.{Servers, get_namespace_readiness, daemon_connection, parameters}
use nut_webgui.Http.Probe.Laws.{daemon_connection-get_namespace_readiness}

abbrev two_servers : Servers
two_servers = (codes "home", dead) ∷ ((codes "office", online) ∷ [])

abbrev given_office : List (Bytes × Bytes)
given_office = (codes "namespace", codes "office") ∷ []

finds_namespace : lookup (codes "namespace") given_office ≡ some (codes "office")
unfolding lookup text_eq
finds_namespace = refl

daemon_connection-get_namespace_readiness_example :
    (daemon_connection two_servers (parameters given_office) ≡ none)
    ↔ ((get_namespace_readiness two_servers (codes "office")).0 ≢ 503)
daemon_connection-get_namespace_readiness_example =
    daemon_connection-get_namespace_readiness two_servers given_office (codes "office")
      finds_namespace
