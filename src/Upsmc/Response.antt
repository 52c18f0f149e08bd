-- ===== src/Upsmc/Response.antt =====
-- response.rs and its modules: `deserialize` of each response of upsd.
pub mod Returns
pub mod RoundTrip
mod Tests
use nut_webgui.Prelude.{
  length, ℕ, zero, suc, [], ◌∷◌, ◌++◌, List, Option, none, some, Bool, true, false,
}
use nut_webgui.Upsmc.Text.{Bytes, codes, text_eq}
use nut_webgui.Upsmc.Error.{Result, ok, err, panic, diverged, var_name}
use nut_webgui.Upsmc.Lexer.{bind, State, M, ◌>>=◌, ◌>>◌, return, peek_as_str}
use nut_webgui.Upsmc.Parser.{
  fail_at, checked, extract_text, extract_quoted_text, extract_ups_name, extract_cmd_name,
  extract_var_name, cmp_literal, end_parser, finish,
}

pub record UpsDevice : Type 0 where
  pub ups_name : Bytes
  pub desc : Bytes

pub record UpsDesc : Type 0 where
  pub desc : Bytes
  pub ups_name : Bytes

pub record CmdDesc : Type 0 where
  pub cmd : Bytes
  pub ups_name : Bytes
  pub desc : Bytes

pub record UpsVarDesc : Type 0 where
  pub name : Bytes
  pub ups_name : Bytes
  pub desc : Bytes

pub record CmdList : Type 0 where
  pub ups_name : Bytes
  pub cmds : List Bytes

unfoldable pub is_key : Bytes → Option Bytes → Bool
is_key key none = false
is_key key (some t) = text_eq key t

-- `while let Some(key) = lexer.peek_as_str() { items.push(line?) }`, on fuel.
unfoldable pub list_loop : {A : Type 0} → ℕ → Bytes → Bytes → M A → List A → M (List A)
list_loop zero buffer key line items s = (diverged, s)
list_loop (suc fuel) buffer key line items s = bind (peek_as_str buffer s) λ head.
    elim (is_key key head) [
      | true ↦ λ t. bind (line t) (λ item. list_loop fuel buffer key line (items ++ (item ∷ [])))
      | false ↦ return items
    ]

-- Each line has a byte, so this is enough.
unfoldable pub read_list : {A : Type 0} → Bytes → Bytes → M A → M (List A)
read_list buffer key line = list_loop (suc (length buffer)) buffer key line []

module _ (buffer : Bytes) where
  unfoldable pub ups_device : M UpsDevice
  ups_device = do
    cmp_literal buffer (codes "UPS")
    name ← extract_ups_name buffer
    desc ← extract_quoted_text buffer
    end_parser buffer
    return (record { ups_name = name; desc = desc })

  unfoldable pub list_ups : M (List UpsDevice)
  list_ups = do
    cmp_literal buffer (codes "BEGIN")
    cmp_literal buffer (codes "LIST")
    cmp_literal buffer (codes "UPS")
    end_parser buffer
    devices ← read_list buffer (codes "UPS") ups_device
    cmp_literal buffer (codes "END")
    cmp_literal buffer (codes "LIST")
    cmp_literal buffer (codes "UPS")
    end_parser buffer
    finish buffer devices

  unfoldable pub get_ups_desc : M UpsDesc
  get_ups_desc = do
    cmp_literal buffer (codes "UPSDESC")
    name ← extract_ups_name buffer
    desc ← extract_quoted_text buffer
    end_parser buffer
    finish buffer (record { desc = desc; ups_name = name })

  unfoldable pub get_cmd_desc : M CmdDesc
  get_cmd_desc = do
    cmp_literal buffer (codes "CMDDESC")
    name ← extract_ups_name buffer
    cmd ← extract_cmd_name buffer
    desc ← extract_quoted_text buffer
    end_parser buffer
    finish buffer (record { cmd = cmd; ups_name = name; desc = desc })

  unfoldable pub get_var_desc : M UpsVarDesc
  get_var_desc = do
    cmp_literal buffer (codes "DESC")
    ups ← extract_ups_name buffer
    name ← extract_var_name buffer
    desc ← extract_quoted_text buffer
    end_parser buffer
    finish buffer (record { name = name; ups_name = ups; desc = desc })

  unfoldable pub list_cmd_line : Bytes → M Bytes
  list_cmd_line ups = do
    cmp_literal buffer (codes "CMD")
    cmp_literal buffer ups
    name ← extract_cmd_name buffer
    end_parser buffer
    return name

  unfoldable pub list_cmd : M CmdList
  list_cmd = do
    cmp_literal buffer (codes "BEGIN")
    cmp_literal buffer (codes "LIST")
    cmp_literal buffer (codes "CMD")
    ups ← extract_ups_name buffer
    end_parser buffer
    cmds ← read_list buffer (codes "CMD") (list_cmd_line ups)
    cmp_literal buffer (codes "END")
    cmp_literal buffer (codes "LIST")
    cmp_literal buffer (codes "CMD")
    cmp_literal buffer ups
    end_parser buffer
    finish buffer (record { ups_name = ups; cmds = cmds })

  -- `impl_ok_parser!`.
  unfoldable pub literals : List Bytes → M (Unit {0})
  literals [] = return tt
  literals (l ∷ ls) = do cmp_literal buffer l; literals ls

  unfoldable pub ok_response : List Bytes → M (Unit {0})
  ok_response tokens = do literals tokens; end_parser buffer; finish buffer tt

  unfoldable pub prot_ok : M (Unit {0})
  prot_ok = ok_response (codes "OK" ∷ [])

  unfoldable pub prot_ok_fsd : M (Unit {0})
  prot_ok_fsd = ok_response (codes "OK" ∷ codes "FSD-SET" ∷ [])

  unfoldable pub prot_ok_detach : M (Unit {0})
  prot_ok_detach = ok_response (codes "OK" ∷ codes "Goodbye" ∷ [])

  unfoldable pub prot_ok_tls : M (Unit {0})
  prot_ok_tls = ok_response (codes "OK" ∷ codes "STARTTLS" ∷ [])
