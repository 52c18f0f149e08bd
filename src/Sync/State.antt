-- ===== src/Sync/State.antt =====
-- state.rs: what is known of a upsd server and of its devices.
use nut_webgui.Prelude.{
  ◌≡◌, ◌↔◌, ℕ, [], ◌∷◌, List, Bool, true, false, ◌==◌, Option, none, some, arith,
}
use nut_webgui.Upsmc.Text.{Bytes, text_eq, text_eq_iff}
use nut_webgui.Upsmc.Dict.{Dict}
use nut_webgui.Upsmc.Value.{Value}
use nut_webgui.Upsmc.Bits.{zeros, has, single}
use nut_webgui.Upsmc.Status.{UpsStatus, status_nocomm, status_new}
use nut_webgui.Auth.Utf8.{from_utf8}

-- `core::net::IpAddr`: its octets.
pub data IpAddr : Type 0 where
  v4 v6 : Bytes → IpAddr

unfoldable pub ip_eq : IpAddr → IpAddr → Bool
ip_eq (v4 a) (v4 b) = text_eq a b
ip_eq (v4 a) (v6 b) = false
ip_eq (v6 a) (v4 b) = false
ip_eq (v6 a) (v6 b) = text_eq a b

pub ip_eq_iff : (a b : IpAddr) → (ip_eq a b ≡ true) ↔ (a ≡ b)
unfolding ip_eq
ip_eq_iff (v4 a) (v4 b) = ground (arith, text_eq_iff a b)
ip_eq_iff (v4 a) (v6 b) = ground arith
ip_eq_iff (v6 a) (v4 b) = ground arith
ip_eq_iff (v6 a) (v6 b) = ground (arith, text_eq_iff a b)

abbrev v6_localhost : Bytes
v6_localhost = 0 ∷ 0 ∷ 0 ∷ 0 ∷ 0 ∷ 0 ∷ 0 ∷ 0 ∷ 0 ∷ 0 ∷ 0 ∷ 0 ∷ 0 ∷ 0 ∷ 0 ∷ 1 ∷ []

-- `IpAddr::is_loopback`.
unfoldable pub is_loopback : IpAddr → Bool
is_loopback (v4 []) = false
is_loopback (v4 (a ∷ octets)) = a == 127
is_loopback (v6 a) = text_eq a v6_localhost

pub record ClientInfo : Type 0 where
  pub addr : IpAddr
  pub name : Option Bytes

-- The client behind an address, over the resolver of reverse_dns.rs.
unfoldable pub client_info : (IpAddr → Option Bytes) → IpAddr → ClientInfo
client_info lookup_ip ip = record {
  addr = ip;
  name = elim (is_loopback ip) [ true ↦ none | false ↦ lookup_ip ip ];
}

pub data VarDetail (F : Type 0) : Type 0 where
  string : ℕ → VarDetail F
  number : VarDetail F
  enum : List (Value F) → VarDetail F
  range : Value F → Value F → VarDetail F

pub data ConnectionStatus : Type 0 where
  dead online not_ready : ConnectionStatus

abbrev pub is_dead : ConnectionStatus → Bool
is_dead dead = true
is_dead online = false
is_dead not_ready = false

abbrev pub is_online : ConnectionStatus → Bool
is_online dead = false
is_online online = true
is_online not_ready = false

pub record DeviceEntry (F : Type 0) : Type 0 where
  pub attached : List ClientInfo
  pub commands : List Bytes
  pub desc : Bytes
  pub last_modified : ℕ
  pub name : Bytes
  pub rw_variables : Dict (VarDetail F)
  pub status : UpsStatus
  pub variables : Dict (Value F)

pub record DaemonState (F : Type 0) : Type 0 where
  pub devices : Dict (DeviceEntry F)
  pub last_device_sync : Option ℕ
  pub status : ConnectionStatus
  pub prot_ver : Option Bytes
  pub ver : Option Bytes

abbrev pub nocomm : UpsStatus
nocomm = single 32 status_nocomm

unfoldable pub is_nocomm : UpsStatus → Bool
is_nocomm status = has 32 status nocomm

module _ {F : Type 0} where
  -- `UpsStatus::from` a value; a string is well-formed UTF-8.
  unfoldable pub status_from : Value F → UpsStatus
  status_from (Value.string text) = elim (from_utf8 text) [
    | some t ↦ status_new t
    | none ↦ zeros 32
  ]
  status_from (Value.float x) = zeros 32
  status_from (Value.int n) = zeros 32

  unfoldable pub mark_as_dead_with : ℕ → UpsStatus → DeviceEntry F → DeviceEntry F
  mark_as_dead_with now status entry = record entry {
    status = status;
    commands = [];
    rw_variables = [];
    variables = [];
    last_modified = now;
  }

  unfoldable pub daemon_state_new : DaemonState F
  daemon_state_new = record {
    devices = [];
    last_device_sync = none;
    status = not_ready;
    prot_ver = none;
    ver = none;
  }
