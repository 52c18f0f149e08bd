-- ===== src/Sync/Devices/Load.antt =====
-- sync/sync_device.rs: `load_device_entry` and `load_var_detail`, over the calls of the client. An
-- error of the client is only logged, apart from the name of the device.
use nut_webgui.Sync.Devices.Follows.{IsLoader}
use nut_webgui.Prelude.{arith, ℕ, [], ◌∷◌, List, Option, none, some, and_then}
use nut_webgui.Upsmc.Text.{Bytes, codes}
use nut_webgui.Upsmc.Dict.{Dict, lookup, insert}
use nut_webgui.Upsmc.Value.{Value, ℤ, pos, negsuc}
use nut_webgui.Upsmc.Values.{VarType, EnumList, RangeList}
use nut_webgui.Upsmc.Bits.{zeros}
use nut_webgui.Upsmc.Status.{UpsStatus}
use nut_webgui.Upsmc.Response.{UpsDevice}
use nut_webgui.Sync.State.{IpAddr, ClientInfo, client_info, VarDetail, DeviceEntry, status_from}
use nut_webgui.Sync.Devices.{Joined, loaded, load_failed}

-- The calls of `AsyncNutClient`; `none` is an error.
pub record Client (F : Type 0) : Type 0 where
  pub list_client : Bytes → Option (List IpAddr)
  pub list_cmd : Bytes → Option (List Bytes)
  pub list_rw : Bytes → Option (List Bytes)
  pub list_var : Bytes → Option (Dict (Value F))
  pub get_var_type : Bytes → Bytes → Option (List VarType)
  pub list_enum : Bytes → Bytes → Option (EnumList F)
  pub list_range : Bytes → Bytes → Option (RangeList F)

abbrev i64_min : ℤ
i64_min = negsuc 9_223_372_036_854_775_807

abbrev i64_max : ℤ
i64_max = pos 9_223_372_036_854_775_807

unfoldable pub client_infos : (IpAddr → Option Bytes) → List IpAddr → List ClientInfo
client_infos lookup_ip [] = []
client_infos lookup_ip (ip ∷ ips) = client_info lookup_ip ip ∷ client_infos lookup_ip ips

module _ {F : Type 0} where
  -- `ranges.pop()`, and all 64-bit integers if there is none.
  unfoldable pub last_range : List (Value F × Value F) → VarDetail F
  last_range [] = VarDetail.range (Value.int i64_min) (Value.int i64_max)
  last_range ((min, max) ∷ []) = VarDetail.range min max
  last_range (r ∷ (s ∷ rest)) = last_range (s ∷ rest)

  module _ (client : Client F) (ups_name : Bytes) where
    unfoldable pub detail_of_types : Bytes → List VarType → Option (Bytes × VarDetail F)
    detail_of_types name [] = some (name, VarDetail.string 64)
    detail_of_types name (VarType.read_write ∷ types) = detail_of_types name types
    detail_of_types name (VarType.enum ∷ types) =
        and_then (client.list_enum ups_name name)
          λ list. some (list.name, VarDetail.enum list.values)
    detail_of_types name (VarType.range ∷ types) =
        and_then (client.list_range ups_name name) λ list. some (list.name, last_range list.ranges)
    detail_of_types name (VarType.string max_len ∷ types) = some (name, VarDetail.string max_len)
    detail_of_types name (VarType.number ∷ types) = some (name, VarDetail.number)

    unfoldable pub load_var_detail : Bytes → Option (Bytes × VarDetail F)
    load_var_detail name =
        and_then (client.get_var_type ups_name name) λ types. detail_of_types name types

    -- The loop over the results of `join_all`, which are in the order of the names.
    unfoldable pub load_rw_variables : List Bytes → Dict (VarDetail F) → Dict (VarDetail F)
    load_rw_variables [] details = details
    load_rw_variables (name ∷ names) details =
        load_rw_variables names (elim (load_var_detail name) [
          | some (key, detail) ↦ insert key detail details
          | none ↦ details
        ])

  unfoldable pub status_of : Option (Value F) → UpsStatus
  status_of none = zeros 32
  status_of (some value) = status_from value

  unfoldable pub load_device_entry :
      Client F → (IpAddr → Option Bytes) → ℕ → UpsDevice → Option (DeviceEntry F)
  load_device_entry client lookup_ip now device =
      and_then (client.list_client device.ups_name) λ clients.
        and_then (client.list_cmd device.ups_name) λ commands.
          and_then (client.list_rw device.ups_name) λ rw_vars.
            and_then (client.list_var device.ups_name) λ vars. some (record {
              attached = client_infos lookup_ip clients;
              commands = commands;
              desc = device.desc;
              last_modified = now;
              name = device.ups_name;
              rw_variables = load_rw_variables client device.ups_name rw_vars [];
              status = status_of (lookup (codes "ups.status") vars);
              variables = vars;
            })

  -- A task of a JoinSet that does not panic.
  unfoldable pub load_task : Client F → (IpAddr → Option Bytes) → ℕ → UpsDevice → Joined F
  load_task client lookup_ip now device = elim (load_device_entry client lookup_ip now device) [
    | some entry ↦ loaded entry
    | none ↦ load_failed device.ups_name
  ]

  -- Every task ends with the device that it was given.
  pub load_task-IsLoader :
      (client : Client F) (lookup_ip : IpAddr → Option Bytes) (now : ℕ)
      → IsLoader (load_task client lookup_ip now)
  unfolding load_task load_device_entry
  load_task-IsLoader client lookup_ip now d = ground arith
