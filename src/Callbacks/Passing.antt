-- ===== src/Callbacks/Passing.antt =====
-- The loops of `completionCallback` that give each next command its DTO. The calls of the database in
-- one turn return the same codes.
use sync_harbor.Base.{ℕ, Option, none, some}
use sync_harbor.Utils.FilePath.{parent_path}
use sync_harbor.Utils.Dto.{FileRecordDto, FileUpdatedDto, FileMovedDto, FileDeletedDto}
use sync_harbor.Database.Connection.{Codes, Method, ok, err, undefined_behaviour, return, ◌>>=◌}
use sync_harbor.Database.Read.{
  get_cloud_file_id_by_path, get_cloud_file_id_by_cloud_id, get_file_by_cloud_and_global_id,
}
use sync_harbor.Changes.Command.{Payload, Commands, end, next, get_id, set_dto}

-- What `LocalUploadCommand` puts into `*_dto` for the cloud of the next command.
unfoldable pub for_upload : Codes → FileRecordDto → ℕ → Method FileRecordDto
for_upload c dto cloud_id =
    get_cloud_file_id_by_path c c (parent_path dto.rel_path) cloud_id >>= λ parent.
    return (record dto { cloud_parent_id = parent; cloud_id = cloud_id })

-- What `LocalUpdateCommand` puts into it.
unfoldable pub for_update : Codes → FileUpdatedDto → ℕ → Method FileUpdatedDto
for_update c dto cloud_id =
    get_cloud_file_id_by_cloud_id c cloud_id dto.global_id >>= λ cloud_file_id.
    return (record dto { cloud_file_id = cloud_file_id; cloud_id = cloud_id })

-- What `LocalDeleteCommand` puts into it.
unfoldable pub for_delete : Codes → FileDeletedDto → ℕ → Method FileDeletedDto
for_delete c dto cloud_id =
    get_cloud_file_id_by_cloud_id c cloud_id dto.global_id >>= λ cloud_file_id.
    return (record dto { cloud_file_id = cloud_file_id; cloud_id = cloud_id })

-- `LocalMoveCommand` dereferences the pointer to the link, which may be null.
unfoldable pub with_old_link : FileMovedDto → Option FileRecordDto → Method FileMovedDto
with_old_link dto none s = (err undefined_behaviour, s)
with_old_link dto (some link) s = (
  ok (record dto {
    cloud_file_id = link.cloud_file_id;
    old_cloud_parent_id = link.cloud_parent_id;
  }),
  s,
)

-- What `LocalMoveCommand` puts into it.
unfoldable pub for_move : Codes → FileMovedDto → ℕ → Method FileMovedDto
unfolding with_old_link
for_move c dto cloud_id = do
  link ← get_file_by_cloud_and_global_id c cloud_id dto.global_id
  linked ← with_old_link dto link
  parent ← get_cloud_file_id_by_path c c (parent_path dto.new_rel_path) cloud_id
  return (record linked { new_cloud_parent_id = parent; cloud_id = cloud_id })

-- The loop over `_next_commands`: each turn changes `*_dto` and gives the command a copy of it.
unfoldable pub pass_on :
    {A : Type 0} → (A → ℕ → Method A) → (A → Payload) → A → Commands → Method (A × Commands)
pass_on prepare payload dto end s = (ok (dto, end), s)
pass_on prepare payload dto (next cmd cmds) s =
    (do
      prepared ← prepare dto (get_id cmd)
      passed ← pass_on prepare payload prepared cmds
      return (passed.0, next (set_dto cmd (payload prepared)) passed.1))
      s

-- The loops of the cloud commands, which copy `*_dto` as it is.
unfoldable pub copy_on : Payload → Commands → Commands
copy_on payload end = end
copy_on payload (next cmd cmds) = next (set_dto cmd payload) (copy_on payload cmds)
