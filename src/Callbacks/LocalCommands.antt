-- ===== src/Callbacks/LocalCommands.antt =====
-- `completionCallback` of the four local commands.
use sync_harbor.Base.{Bool, true, false, ◌==◌, nat_eq, if◌then◌else◌}
use sync_harbor.Utils.FilePath.{FilePath, join}
use sync_harbor.Utils.Dto.{FileRecordDto, FileUpdatedDto, FileMovedDto, FileDeletedDto}
use sync_harbor.Database.Connection.{
  Codes, ok, undefined_behaviour, Stateful, return, throw, ◌>>=◌, ◌>>◌,
}
use sync_harbor.Database.Write.{delete_file_and_links}
use sync_harbor.Changes.Command.{
  local_upload, local_update, local_move, local_delete, record_dto, updated_dto, moved_dto,
  deleted_dto, Command, command, Commands,
}
use sync_harbor.Local.State.{FileSystem, LocalStorage, Step, on_db}
use sync_harbor.Local.Process.{
  procces_upload, procces_update, procces_move, procces_delete, on_disk,
}
use sync_harbor.Callbacks.Passing.{for_upload, for_update, for_move, for_delete, pass_on}

module _ (fs : FileSystem) (c : Codes) where
  -- `LocalUploadCommand::completionCallback`: the DTO at its end, and the next commands with theirs.
  unfoldable pub complete_upload :
      FileRecordDto → Commands → Stateful (LocalStorage fs.Disk) (FileRecordDto × Commands)
  unfolding procces_upload for_upload pass_on
  complete_upload dto nexts =
      procces_upload fs c dto >>= λ stored. on_db (pass_on (for_upload c) record_dto stored nexts)

  -- `LocalUpdateCommand::completionCallback`
  unfoldable pub complete_update :
      FileUpdatedDto → Commands → Stateful (LocalStorage fs.Disk) (FileUpdatedDto × Commands)
  unfolding procces_update for_update pass_on
  complete_update dto nexts =
      procces_update fs c dto >>= λ stored. on_db (pass_on (for_update c) updated_dto stored nexts)

  -- `LocalMoveCommand::completionCallback`
  unfoldable pub complete_move :
      FileMovedDto → Commands → Stateful (LocalStorage fs.Disk) (FileMovedDto × Commands)
  unfolding procces_move for_move pass_on
  complete_move dto nexts =
      procces_move fs c dto >>= λ stored. on_db (pass_on (for_move c) moved_dto stored nexts)

  -- `std::filesystem::remove` of the file that a cloud has deleted.
  unfoldable pub remove_here : Bool → FilePath → Step fs.Disk
  remove_here need_local_delete rel s =
      if need_local_delete then on_disk fs (fs.remove (join s.local_home_dir rel)) s else (ok tt, s)

  -- `LocalDeleteCommand::completionCallback`
  unfoldable pub complete_delete :
      FileDeletedDto → Commands → Stateful (LocalStorage fs.Disk) (FileDeletedDto × Commands)
  unfolding procces_delete for_delete pass_on remove_here
  complete_delete dto nexts s =
      let need_local_delete = if dto.cloud_id == 0 then false else true in
      (do
        passed ← on_db (pass_on (for_delete c) deleted_dto dto nexts)
        remove_here need_local_delete dto.rel_path
        on_db (delete_file_and_links c passed.0.global_id)
        return passed)
        (procces_delete fs dto s)

  -- `completionCallback` of a local command: the next commands as `continueChain` submits them. A null
  -- `_dto` is dereferenced.
  unfoldable pub complete_local : Command → Stateful (LocalStorage fs.Disk) Commands
  unfolding complete_upload complete_update complete_move complete_delete
  complete_local (command local_upload cloud_id (record_dto dto) nexts) =
      complete_upload dto nexts >>= λ passed. return passed.1
  complete_local (command local_update cloud_id (updated_dto dto) nexts) =
      complete_update dto nexts >>= λ passed. return passed.1
  complete_local (command local_move cloud_id (moved_dto dto) nexts) =
      complete_move dto nexts >>= λ passed. return passed.1
  complete_local (command local_delete cloud_id (deleted_dto dto) nexts) =
      complete_delete dto nexts >>= λ passed. return passed.1
  complete_local (command _ cloud_id dto nexts) = throw undefined_behaviour
