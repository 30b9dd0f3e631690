-- ===== src/Changes/Command.antt =====
-- The commands and the trees that they form by `_next_commands`.
use sync_harbor.Base.{
  ℕ, suc, ◌+◌, Bool, true, false, Option, none, some, List, [], ◌∷◌, if◌then◌else◌,
}
use sync_harbor.Utils.Kinds.{EntryType}
use sync_harbor.Utils.Dto.{FileRecordDto, FileUpdatedDto, FileMovedDto, FileDeletedDto}

-- The classes that derive from `LocalCommand` and from `CloudCommand`.
pub data CommandKind : Type 0 where
  local_upload local_update local_move local_delete : CommandKind
  cloud_upload cloud_update cloud_move cloud_delete : CommandKind
  cloud_download_new cloud_download_update : CommandKind

-- `std::is_base_of_v<LocalCommand, Cmd>`, and whether the `dynamic_cast` to it succeeds.
unfoldable pub is_local : CommandKind → Bool
is_local local_upload = true
is_local local_update = true
is_local local_move = true
is_local local_delete = true
is_local _ = false

-- `_dto`, which is null until `setDTO`.
pub data Payload : Type 0 where
  unset : Payload
  record_dto : FileRecordDto → Payload
  updated_dto : FileUpdatedDto → Payload
  moved_dto : FileMovedDto → Payload
  deleted_dto : FileDeletedDto → Payload

-- A command has its class, `_cloud_id`, `_dto` and `_next_commands`.
mutual
  pub data Command : Type 0 where
    command : CommandKind → ℕ → Payload → Commands → Command

  pub data Commands : Type 0 where
    end : Commands
    next : Command → Commands → Commands

-- `getId`
unfoldable pub get_id : Command → ℕ
get_id (command kind cloud_id dto nexts) = cloud_id

unfoldable pub kind_of : Command → CommandKind
kind_of (command kind cloud_id dto nexts) = kind

-- `_dto`
unfoldable pub dto_of : Command → Payload
dto_of (command kind cloud_id dto nexts) = dto

unfoldable pub next_commands : Command → Commands
next_commands (command kind cloud_id dto nexts) = nexts

abbrev append_command : Commands → Command → Commands
append_command end c = next c end
append_command (next d ds) c = next d (append_command ds c)

-- `addNext`
unfoldable pub add_next : Command → Command → Command
add_next (command kind cloud_id dto nexts) c = command kind cloud_id dto (append_command nexts c)

unfoldable pub to_list : Commands → List Command
to_list end = []
to_list (next c cs) = c ∷ to_list cs

-- `setDTO`: the overload of the command's own DTO type; the others do nothing.
unfoldable pub accepts : CommandKind → Payload → Bool
accepts local_upload (record_dto dto) = true
accepts cloud_upload (record_dto dto) = true
accepts cloud_download_new (record_dto dto) = true
accepts local_update (updated_dto dto) = true
accepts cloud_update (updated_dto dto) = true
accepts cloud_download_update (updated_dto dto) = true
accepts local_move (moved_dto dto) = true
accepts cloud_move (moved_dto dto) = true
accepts local_delete (deleted_dto dto) = true
accepts cloud_delete (deleted_dto dto) = true
accepts _ _ = false

unfoldable pub set_dto : Command → Payload → Command
unfolding accepts
set_dto (command kind cloud_id dto nexts) new =
    command kind cloud_id (if accepts kind new then new else dto) nexts

payload_type : Payload → Option EntryType
payload_type unset = none
payload_type (record_dto dto) = some dto.type
payload_type (updated_dto dto) = some dto.type
payload_type (moved_dto dto) = some dto.type
payload_type (deleted_dto dto) = none

-- `getTargetType`; the delete commands inherit the `Null` of `ICommand`, and `none` is the
-- dereference of a null `_dto` in the others.
unfoldable pub get_target_type : Command → Option EntryType
unfolding payload_type
get_target_type (command local_delete cloud_id dto nexts) = some EntryType.null
get_target_type (command cloud_delete cloud_id dto nexts) = some EntryType.null
get_target_type (command _ cloud_id dto nexts) = payload_type dto

-- The number of commands of a tree and of a forest.
unfoldable mutual
  pub size : Command → ℕ
  size (command kind cloud_id dto nexts) = suc (sizes nexts)

  pub sizes : Commands → ℕ
  sizes end = 0
  sizes (next c cs) = size c + sizes cs
