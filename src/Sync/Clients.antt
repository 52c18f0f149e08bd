-- ===== src/Sync/Clients.antt =====
-- sync/sync_status.rs, ClientDiff: how the clients of a device follow the list of upsd.
pub mod Laws
use mathlib.Core.Option
use nut_webgui.Prelude.{
  ℕ, zero, suc, [], ◌∷◌, ◌++◌, List, Bool, true, false, ◌||◌, if◌then◌else◌, Option, none, some,
}
use nut_webgui.Upsmc.Text.{Bytes}
use nut_webgui.Sync.State.{IpAddr, ip_eq, ClientInfo, client_info}

unfoldable pub contains_ip : List IpAddr → IpAddr → Bool
contains_ip [] a = false
contains_ip (x ∷ xs) a = ip_eq x a || contains_ip xs a

unfoldable pub has_client : List ClientInfo → IpAddr → Bool
has_client [] a = false
has_client (c ∷ cs) a = ip_eq c.addr a || has_client cs a

-- The two loops of `ClientDiff::diff`.
unfoldable pub disconnected : List ClientInfo → List IpAddr → List IpAddr
disconnected [] target = []
disconnected (old ∷ source) target =
    let later = disconnected source target in
    if contains_ip target old.addr then later else old.addr ∷ later

unfoldable pub connected : List ClientInfo → List IpAddr → List IpAddr
connected source [] = []
connected source (new ∷ target) =
    let later = connected source target in if has_client source new then later else new ∷ later

-- `attached.iter().position(|c| c.addr == ip)`.
unfoldable pub position : IpAddr → List ClientInfo → Option ℕ
position ip [] = none
position ip (c ∷ cs) = if ip_eq c.addr ip then some 0 else Option.map suc (position ip cs)

unfoldable pub last_of : ClientInfo → List ClientInfo → ClientInfo
last_of c [] = c
last_of c (d ∷ ds) = last_of d ds

unfoldable pub but_last : ClientInfo → List ClientInfo → List ClientInfo
but_last c [] = []
but_last c (d ∷ ds) = c ∷ but_last d ds

-- `Vec::swap_remove` at an index of the list: the last element takes the place.
unfoldable pub swap_remove : ℕ → List ClientInfo → List ClientInfo
swap_remove i [] = []
swap_remove zero (c ∷ []) = []
swap_remove zero (c ∷ (d ∷ ds)) = last_of d ds ∷ but_last d ds
swap_remove (suc i) (c ∷ cs) = c ∷ swap_remove i cs

unfoldable pub detach : IpAddr → List ClientInfo → List ClientInfo
detach ip attached = elim (position ip attached) [
  | some i ↦ swap_remove i attached
  | none ↦ attached
]

unfoldable pub detach_all : List IpAddr → List ClientInfo → List ClientInfo
detach_all [] attached = attached
detach_all (ip ∷ ips) attached = detach_all ips (detach ip attached)

unfoldable pub attach_all :
    (IpAddr → Option Bytes) → List IpAddr → List ClientInfo → List ClientInfo
attach_all lookup_ip [] attached = attached
attach_all lookup_ip (ip ∷ ips) attached =
    attach_all lookup_ip ips (attached ++ (client_info lookup_ip ip ∷ []))

-- The part of `state_sync` between the diff and the new variables.
unfoldable pub sync_clients :
    (IpAddr → Option Bytes) → List ClientInfo → List IpAddr → List ClientInfo
sync_clients lookup_ip attached ips =
    attach_all lookup_ip (connected attached ips) (detach_all (disconnected attached ips) attached)
