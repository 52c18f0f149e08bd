-- ===== src/Upsmc/Values/Every.antt =====
-- The responses of response/ beside the lists of devices and of variables.
use nut_webgui.Prelude.{◌≤◌, length, Option}
use nut_webgui.Upsmc.Text.{Bytes}
use nut_webgui.Upsmc.Lexer.{init}
use nut_webgui.Upsmc.Lexer.Cursor.{isize_max}
use nut_webgui.Upsmc.Names.Laws.{IsUpsName, IsName}
use nut_webgui.Upsmc.Parser.Rules.{Returns}
use nut_webgui.Upsmc.Response.{list_cmd}
use nut_webgui.Upsmc.Response.Returns.{CmdsAreNamed, list_cmd-Returns}
use nut_webgui.Upsmc.Values.{get_var, list_enum, list_range}
use nut_webgui.Upsmc.Values.Returns.{get_var-Returns, list_enum-Returns, list_range-Returns}
use nut_webgui.Upsmc.Values.Types.{
  get_var_type, list_client, get_var_type-Returns, list_client-Returns,
}

-- A text of at most isize::MAX bytes is parsed to an end as a list of commands, a variable, a list
-- of options, a list of ranges, the types of a variable and a list of clients, and what is
-- accepted has valid names.
pub every_response-Returns :
    {F Ip : Type 0} (parse_f64 : Bytes → Option F) (parse_ip : Bytes → Option Ip) (buffer : Bytes)
    → length buffer ≤ isize_max
    → Returns buffer buffer 0 CmdsAreNamed (list_cmd buffer init)
      × Returns buffer buffer 0
          (λ r. IsUpsName r.ups_name × IsName r.name)
          (get_var parse_f64 buffer init)
      × Returns buffer buffer 0
          (λ r. IsUpsName r.ups_name × IsName r.name)
          (list_enum parse_f64 buffer init)
      × Returns buffer buffer 0
          (λ r. IsUpsName r.ups_name × IsName r.name)
          (list_range parse_f64 buffer init)
      × Returns buffer buffer 0
          (λ r. IsUpsName r.ups_name × IsName r.name)
          (get_var_type buffer init)
      × Returns buffer buffer 0 (λ r. IsUpsName r.ups_name) (list_client parse_ip buffer init)
every_response-Returns parse_f64 parse_ip buffer h = (
  list_cmd-Returns buffer h,
  get_var-Returns parse_f64 buffer h,
  list_enum-Returns parse_f64 buffer h,
  list_range-Returns parse_f64 buffer h,
  get_var_type-Returns buffer h,
  list_client-Returns parse_ip buffer h,
)
