-- ===== src/Changes/Factory.antt =====
-- `ChangeFactory`: the chains of commands for each kind of change.
pub mod Coverage
use sync_harbor.Base.{
  ℕ, zero, suc, Bool, true, false, ◌||◌, not, List, [], ◌∷◌, ◌==◌, nat_eq, keep, length,
  if◌then◌else◌,
}
use sync_harbor.Base.Int.{ℤ, pos, add_one}
use sync_harbor.Utils.Kinds.{ChangeType}
use sync_harbor.Utils.FilePath.{FilePath}
use sync_harbor.Utils.Dto.{FileRecordDto, FileUpdatedDto, FileMovedDto, FileDeletedDto}
use sync_harbor.Changes.Command.{
  CommandKind, local_upload, local_update, local_move, local_delete, cloud_upload, cloud_update,
  cloud_move, cloud_delete, cloud_download_new, cloud_download_update, is_local, Payload, unset,
  record_dto, updated_dto, moved_dto, deleted_dto, Command, command, Commands, end, next,
}
use sync_harbor.Changes.Change.{Change, new_change, add_to_chain, on_command_created}

-- The counter after `setOwner` of so many commands.
unfoldable pub created : ℕ → ℤ → ℤ
created zero pending = pending
created (suc n) pending = created n (add_one pending)

-- The keys of `_clouds` that `addNextCommands` does not skip.
unfoldable pub targets : ℕ → List ℕ → List ℕ
targets src clouds = keep (λ cid. not (cid == src || cid == 0)) clouds

-- The commands added to one parent for the clouds; the last one is the parent of what comes next,
-- and where there is none the parent stays the same.
unfoldable pub place : CommandKind → List ℕ → Commands → Commands
place kind [] deeper = deeper
place kind (cid ∷ []) deeper = next (command kind cid unset deeper) end
place kind (cid ∷ other ∷ cids) deeper =
    next (command kind cid unset end) (place kind (other ∷ cids) deeper)

-- The `_cloud_id`s of the commands that one `addNextCommands<Cmd>` adds.
unfoldable pub level : ℕ → List ℕ → CommandKind → List ℕ
unfolding targets is_local
level src clouds kind = if is_local kind then 0 ∷ [] else targets src clouds

-- The fold of `addNextCommands` over `NextCmds`, with the counter of the change.
unfoldable pub add_next_commands : ℕ → List ℕ → List CommandKind → ℤ → Commands × ℤ
unfolding created place level
add_next_commands src clouds [] pending = (end, pending)
add_next_commands src clouds (kind ∷ kinds) pending =
    let cids = level src clouds kind in
    let (deeper, pending') = add_next_commands src clouds kinds (created (length cids) pending) in
    (place kind cids deeper, pending')

-- `make<InitialCmd, DTO, NextCmds...>`, with the keys of `_clouds`.
unfoldable pub make :
    List ℕ → CommandKind → List CommandKind → ChangeType → ℕ → FilePath → Payload → ℕ → Change
unfolding add_next_commands new_change on_command_created add_to_chain add_one
make clouds initial kinds type time path dto src_cloud_id =
    let change = on_command_created (new_change type path time src_cloud_id) in
    let (nexts, pending) = add_next_commands src_cloud_id clouds kinds change.pending_cmds in
    let first_id : ℕ = if is_local initial then 0 else src_cloud_id in
    add_to_chain (record change { pending_cmds = pending }) (command initial first_id dto nexts)

module _ (clouds : List ℕ) where
  unfoldable pub make_cloud_new : FileRecordDto → Change
  make_cloud_new dto =
      make clouds cloud_download_new (local_upload ∷ cloud_upload ∷ []) ChangeType.created
        dto.cloud_file_modified_time dto.rel_path (record_dto dto) dto.cloud_id

  unfoldable pub make_local_new : FileRecordDto → Change
  make_local_new dto =
      make clouds local_upload (cloud_upload ∷ []) ChangeType.created dto.cloud_file_modified_time
        dto.rel_path (record_dto dto) 0

  unfoldable pub make_cloud_move : FileMovedDto → Change
  make_cloud_move dto =
      make clouds local_move (cloud_move ∷ []) ChangeType.moved dto.cloud_file_modified_time
        dto.old_rel_path (moved_dto dto) dto.cloud_id

  unfoldable pub make_local_move : FileMovedDto → Change
  make_local_move dto =
      make clouds local_move (cloud_move ∷ []) ChangeType.moved dto.cloud_file_modified_time
        dto.old_rel_path (moved_dto dto) 0

  unfoldable pub make_cloud_update : FileUpdatedDto → Change
  make_cloud_update dto =
      make clouds cloud_download_update (local_update ∷ cloud_update ∷ []) ChangeType.updated
        dto.cloud_file_modified_time dto.rel_path (updated_dto dto) dto.cloud_id

  unfoldable pub make_local_update : FileUpdatedDto → Change
  make_local_update dto =
      make clouds local_update (cloud_update ∷ []) ChangeType.updated dto.cloud_file_modified_time
        dto.rel_path (updated_dto dto) 0

  unfoldable pub make_delete : FileDeletedDto → Change
  make_delete dto =
      make clouds local_delete (cloud_delete ∷ []) ChangeType.deleted dto.when dto.rel_path
        (deleted_dto dto) dto.cloud_id
