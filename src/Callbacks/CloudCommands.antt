-- ===== src/Callbacks/CloudCommands.antt =====
-- `execute` and `completionCallback` of the cloud commands.
use sync_harbor.Base.{ℕ, String}
use sync_harbor.Utils.Dto.{FileRecordDto, FileUpdatedDto, FileMovedDto, FileDeletedDto}
use sync_harbor.Database.Connection.{
  Codes, Method, Result, undefined_behaviour, return, throw, ◌>>=◌, ◌>>◌,
}
use sync_harbor.Database.Write.{add_file_link, update_file_link, update_moved_link}
use sync_harbor.Changes.Command.{
  cloud_upload, cloud_update, cloud_move, cloud_delete, cloud_download_new, cloud_download_update,
  Payload, unset, record_dto, updated_dto, moved_dto, deleted_dto, Command, command, Commands,
}
use sync_harbor.Callbacks.Passing.{copy_on}

-- `_dto->cloud_id = _cloud_id` of `execute`.
unfoldable pub address : ℕ → Payload → Payload
address cloud_id unset = unset
address cloud_id (record_dto dto) = record_dto (record dto { cloud_id = cloud_id })
address cloud_id (updated_dto dto) = updated_dto (record dto { cloud_id = cloud_id })
address cloud_id (moved_dto dto) = moved_dto (record dto { cloud_id = cloud_id })
address cloud_id (deleted_dto dto) = deleted_dto (record dto { cloud_id = cloud_id })

-- `execute`, before the storage sets the request up.
unfoldable pub execute : Command → Command
unfolding address
execute (command kind cloud_id dto nexts) = command kind cloud_id (address cloud_id dto) nexts

-- `BaseStorage` as the cloud commands use it: what its `procces` methods make of the DTO and of the
-- response.
pub record CloudStorage : Type 0 where
  pub procces_upload : FileRecordDto → String → Result FileRecordDto
  pub procces_update : FileUpdatedDto → String → Result FileUpdatedDto
  pub procces_move : FileMovedDto → String → Result FileMovedDto
  pub procces_delete : FileDeletedDto → String → Result FileDeletedDto

-- A computation that leaves the database alone.
abbrev pub pure : {A : Type 0} → Result A → Method A
pure r s = (r, s)

module _ (cloud : CloudStorage) (c : Codes) where
  -- `CloudUploadCommand::completionCallback`
  unfoldable pub complete_cloud_upload : FileRecordDto → String → Method FileRecordDto
  complete_cloud_upload dto response = do
    told ← pure (cloud.procces_upload dto response)
    add_file_link c told
    return told

  -- `CloudUpdateCommand::completionCallback`
  unfoldable pub complete_cloud_update : FileUpdatedDto → String → Method FileUpdatedDto
  complete_cloud_update dto response = do
    told ← pure (cloud.procces_update dto response)
    update_file_link c told
    return told

  -- `CloudMoveCommand::completionCallback`
  unfoldable pub complete_cloud_move : FileMovedDto → String → Method FileMovedDto
  complete_cloud_move dto response = do
    told ← pure (cloud.procces_move dto response)
    update_moved_link c told
    return told

  -- `completionCallback` of a cloud command with its response: the next commands as `continueChain`
  -- submits them. A null `_dto` is dereferenced.
  unfoldable pub complete_cloud : Command → String → Method Commands
  unfolding complete_cloud_upload complete_cloud_update complete_cloud_move copy_on
  complete_cloud (command cloud_upload cloud_id (record_dto dto) nexts) response =
      complete_cloud_upload dto response >>= λ told. return (copy_on (record_dto told) nexts)
  complete_cloud (command cloud_update cloud_id (updated_dto dto) nexts) response =
      complete_cloud_update dto response >>= λ told. return (copy_on (updated_dto told) nexts)
  complete_cloud (command cloud_move cloud_id (moved_dto dto) nexts) response =
      complete_cloud_move dto response >>= λ told. return (copy_on (moved_dto told) nexts)
  complete_cloud (command cloud_delete cloud_id (deleted_dto dto) nexts) response =
      pure (cloud.procces_delete dto response) >>= λ told. return (copy_on (deleted_dto told) nexts)
  complete_cloud (command cloud_download_new cloud_id (record_dto dto) nexts) response =
      return (copy_on (record_dto dto) nexts)
  complete_cloud (command cloud_download_update cloud_id (updated_dto dto) nexts) response =
      return (copy_on (updated_dto dto) nexts)
  complete_cloud (command _ cloud_id dto nexts) response = throw undefined_behaviour
