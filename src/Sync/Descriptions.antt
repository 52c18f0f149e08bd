-- ===== src/Sync/Descriptions.antt =====
-- sync/sync_desc.rs: the descriptions of variables and commands, which all servers share. The calls
-- of the client and the order in which the tasks end are arguments.
pub mod Once
mod Tests
use mathlib.Core.Option
use nut_webgui.Prelude.{
  Bool, true, false, ◌||◌, ◌&&◌, if◌then◌else◌, Option, none, some, List, [], ◌∷◌, ◌++◌, map, any,
}
use nut_webgui.Upsmc.Text.{Bytes, text_eq}
use nut_webgui.Upsmc.Dict.{Dict, lookup, insert, keys, is_some}
use nut_webgui.Upsmc.Response.{CmdDesc, UpsVarDesc}
use nut_webgui.Sync.State.{DaemonState, DeviceEntry}

pub record TaskContext : Type 0 where
  pub name : Bytes
  pub cmds : List Bytes
  pub vars : List Bytes

-- `HashSet::contains`.
abbrev pub has_name : Bytes → List Bytes → Bool
has_name name names = any (λ x. text_eq x name) names

-- One of the two loops over the names of a device: the names to ask for, and the new `tmp_lookup`.
unfoldable pub unknown_names : Dict Bytes → List Bytes → List Bytes → List Bytes × List Bytes
unknown_names shared_desc [] tmp_lookup = ([], tmp_lookup)
unknown_names shared_desc (name ∷ rest) tmp_lookup =
    let skipped = unknown_names shared_desc rest tmp_lookup in
    let asked = unknown_names shared_desc rest (name ∷ tmp_lookup) in
    if is_some (lookup name shared_desc) || has_name name tmp_lookup
    then skipped
    else (name ∷ asked.0, asked.1)

abbrev pub is_empty : List Bytes → Bool
is_empty [] = true
is_empty (x ∷ xs) = false

abbrev pub push_context : TaskContext → List TaskContext → List TaskContext
push_context ctx ctxs = if is_empty ctx.cmds && is_empty ctx.vars then ctxs else ctx ∷ ctxs

module _ {F : Type 0} where
  -- The loop over the devices.
  unfoldable pub task_contexts :
      Dict (DeviceEntry F) → Dict Bytes → List Bytes → List Bytes → List TaskContext
  task_contexts devices shared_desc [] tmp_lookup = []
  task_contexts devices shared_desc (name ∷ rest) tmp_lookup = elim (lookup name devices) [
    | none ↦ task_contexts devices shared_desc rest tmp_lookup
    | some entry ↦
        let vars = unknown_names shared_desc (keys entry.variables) tmp_lookup in
        let cmds = unknown_names shared_desc entry.commands vars.1 in
        push_context (record { name = name; cmds = cmds.0; vars = vars.0 })
          (task_contexts devices shared_desc rest cmds.1)
  ]

-- `into_iter().flatten()` of results.
unfoldable pub cmd_descs : List (Option CmdDesc) → List (Bytes × Bytes)
cmd_descs [] = []
cmd_descs (none ∷ rest) = cmd_descs rest
cmd_descs (some d ∷ rest) = (d.cmd, d.desc) ∷ cmd_descs rest

unfoldable pub var_descs : List (Option UpsVarDesc) → List (Bytes × Bytes)
var_descs [] = []
var_descs (none ∷ rest) = var_descs rest
var_descs (some d ∷ rest) = (d.name, d.desc) ∷ var_descs rest

unfoldable pub insert_descs : List (Bytes × Bytes) → Dict Bytes → Dict Bytes
insert_descs [] shared_desc = shared_desc
insert_descs ((k, v) ∷ rest) shared_desc = insert_descs rest (insert k v shared_desc)

unfoldable pub flatten : List (List (Bytes × Bytes)) → List (Bytes × Bytes)
flatten [] = []
flatten (xs ∷ rest) = xs ++ flatten rest

module _ (get_cmd_desc : Bytes → Bytes → Option CmdDesc)
    (get_var_desc : Bytes → Bytes → Option UpsVarDesc) where
  unfoldable pub load_descs : TaskContext → List (Bytes × Bytes)
  load_descs ctx =
      cmd_descs (map (get_cmd_desc ctx.name) ctx.cmds)
      ++ var_descs (map (get_var_desc ctx.name) ctx.vars)

  -- `DescriptionTask::next`, on the state of the namespace, if there is one.
  unfoldable pub desc_next :
      {F : Type 0}
      → (List (List (Bytes × Bytes)) → List (List (Bytes × Bytes)))
      → Option (DaemonState F)
      → List Bytes
      → Dict Bytes
      → Dict Bytes
  desc_next order none devices shared_desc = shared_desc
  desc_next order (some state) devices shared_desc =
      let task_ctx = task_contexts state.devices shared_desc devices [] in
      insert_descs (flatten (order (map load_descs task_ctx))) shared_desc
