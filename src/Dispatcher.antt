-- ===== src/Dispatcher.antt =====
-- The overloads of `CallbackDispatcher::syncDbWrite` in src/CallbackDispatcher.cpp, once the dispatcher
-- is idle. `_db_mutex` makes each of them one step.
pub mod Writes
pub mod Worker
use sync_harbor.Base.{ℕ, Bool, true, false, List, [], ◌∷◌, ◌==◌, nat_eq, if◌then◌else◌}
use sync_harbor.Utils.Dto.{FileRecordDto, FileUpdatedDto}
use sync_harbor.Database.Connection.{Codes, Method, Result, ok, err, return, ◌>>=◌, ◌>>◌}
use sync_harbor.Database.Write.{add_file, add_file_link, update_file, update_file_link}

abbrev pub write_file : Codes → FileRecordDto → Method FileRecordDto
write_file c dto = do global_id ← add_file c dto; return (record dto { global_id = global_id })

abbrev pub write_link : Codes → FileRecordDto → Method FileRecordDto
write_link c dto = do add_file_link c dto; return dto

-- `syncDbWrite` of a record, with what it leaves in `*dto`.
unfoldable pub sync_db_write : Codes → FileRecordDto → Method FileRecordDto
sync_db_write c dto s = if dto.cloud_id == 0 then write_file c dto s else write_link c dto s

-- `syncDbWrite` of an update.
unfoldable pub sync_db_update : Codes → FileUpdatedDto → Method (Unit {0})
sync_db_update c dto = if dto.cloud_id == 0 then update_file c dto else update_file_link c dto

-- `syncDbWrite` of a vector, with the codes that the calls of each element return.
unfoldable pub sync_db_write_all : List (Codes × FileRecordDto) → Method (List FileRecordDto)
unfolding sync_db_write
sync_db_write_all [] = return []
sync_db_write_all ((c, dto) ∷ vec_dto) = do
  written ← sync_db_write c dto
  others ← sync_db_write_all vec_dto
  return (written ∷ others)
