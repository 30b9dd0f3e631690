-- ===== src/Manager/PushLocal.antt =====
-- The second loop of `initialSync` of src/sync-manager.cpp: a file that is here goes to the clouds. Every
-- call of SQLite for one file returns the same codes, and the clouds of `range` are among `_clouds`.
pub mod Targets
use sync_harbor.Base.{
  ℕ, String, Bool, true, false, Option, none, some, List, [], ◌∷◌, ◌==◌, nat_eq, if◌then◌else◌,
}
use sync_harbor.Utils.Kinds.{ChangeType}
use sync_harbor.Utils.FilePath.{FilePath}
use sync_harbor.Utils.Dto.{FileRecordDto, FileUpdatedDto, cloud_updated}
use sync_harbor.Database.Connection.{
  Codes, Connection, Method, Result, ok, err, Failure, undefined_behaviour, bad_variant_access,
  return, throw, ◌>>=◌, ◌>>◌,
}
use sync_harbor.Database.Write.{add_file_link}
use sync_harbor.Changes.Command.{
  cloud_upload, cloud_update, record_dto, updated_dto, Command, command, end,
}
use sync_harbor.Changes.Change.{Change, new_change, set_cmd_chain, on_command_created}
use sync_harbor.Manager.InitialSync.{text_of}

-- `cloud_dto`: the last entry of the range that is of the cloud.
unfoldable pub last_of : ℕ → List FileRecordDto → Option FileRecordDto
last_of cloud_id [] = none
last_of cloud_id (dto ∷ range) = elim (last_of cloud_id range) [
  | some later ↦ some later
  | none ↦ if dto.cloud_id == cloud_id then some dto else none
]

-- The DTO of an update in a cloud: the file as it is here, under the cloud's ids.
unfoldable pub pushed_update : FilePath → FileRecordDto → FileRecordDto → String → FileUpdatedDto
unfolding cloud_updated
pushed_update rel_path here there hash =
    cloud_updated here.type here.global_id there.cloud_id there.cloud_file_id hash
      here.cloud_file_modified_time rel_path there.cloud_parent_id here.size

module _ (c : Codes) (rel_path : FilePath) (here : FileRecordDto) where
  -- The link of an older file of the cloud, and the command that updates it. `std::get` throws on a hash
  -- that is no text.
  unfoldable pub push_over : ℕ → FileRecordDto → Option String → Method (Option Command)
  unfolding pushed_update add_file_link
  push_over cloud_id there none = throw bad_variant_access
  push_over cloud_id there (some hash) = do
    add_file_link c (record there { global_id = here.global_id })
    return (
        some (
          command cloud_update cloud_id (updated_dto (pushed_update rel_path here there hash)) end))

  -- The cloud that has the best file already is given its link and no command.
  unfoldable pub push_known : ℕ → FileRecordDto → Method (Option Command)
  unfolding push_over text_of add_file_link
  push_known cloud_id there =
      if cloud_id == here.cloud_id
      then (add_file_link c here >> return none)
      else push_over cloud_id there (text_of there.cloud_hash_check_sum)

  -- One turn of the loop over `have_it_or_not`.
  unfoldable pub push_with : ℕ → Option FileRecordDto → Method (Option Command)
  unfolding push_known
  push_with cloud_id none = return (some (command cloud_upload cloud_id (record_dto here) end))
  push_with cloud_id (some there) = push_known cloud_id there

  unfoldable pub with_command : Option Command → List Command → List Command
  with_command none cmds = cmds
  with_command (some cmd) cmds = cmd ∷ cmds

  -- The loop over `have_it_or_not`: the commands of `first_cmd`.
  unfoldable pub push_to_clouds : List FileRecordDto → List ℕ → Method (List Command)
  unfolding push_with last_of with_command
  push_to_clouds range [] s = (ok [], s)
  push_to_clouds range (cloud_id ∷ clouds) s =
      (push_with cloud_id (last_of cloud_id range) >>= λ cmd.
      push_to_clouds range clouds >>= λ cmds. return (with_command cmd cmds))
        s

  -- `setOwner` of each command.
  unfoldable pub own_all : List Command → Change → Change
  unfolding on_command_created
  own_all [] ch = ch
  own_all (cmd ∷ cmds) ch = own_all cmds (on_command_created ch)

  -- The change of a file, unless there is nothing to do.
  unfoldable pub change_of : ℕ → List Command → Option Change
  unfolding new_change set_cmd_chain own_all
  change_of now [] = none
  change_of now (cmd ∷ cmds) = some (
      set_cmd_chain (own_all (cmd ∷ cmds) (new_change ChangeType.created rel_path now 0))
        (cmd ∷ cmds))

  -- The body of the loop over `local_files_map` for a file.
  unfoldable pub push_file : ℕ → List FileRecordDto → List ℕ → Method (Option Change)
  unfolding push_to_clouds change_of
  push_file now range clouds = push_to_clouds range clouds >>= λ cmds. return (change_of now cmds)
