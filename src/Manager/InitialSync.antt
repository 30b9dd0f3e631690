-- ===== src/Manager/InitialSync.antt =====
-- The first loop of `initialSync` of src/sync-manager.cpp: what the clouds have against what is here.
pub mod Newest
pub mod Returns
use sync_harbor.Base.{
  ℕ, String, Bool, true, false, ◌&&◌, Option, none, some, List, [], ◌∷◌, ◌++◌, ◌==◌, ltb,
  if◌then◌else◌,
}
use sync_harbor.Base.Dict.{Dict, lookup, insert}
use sync_harbor.Utils.Kinds.{EntryType, entry_type_eq, ChangeType}
use sync_harbor.Utils.FilePath.{FilePath, path_eq}
use sync_harbor.Utils.Dto.{HashSum, text, word, FileRecordDto, FileUpdatedDto, cloud_updated}
use sync_harbor.Changes.Command.{
  local_upload, local_update, cloud_download_new, cloud_download_update, unset, record_dto,
  updated_dto, command, end, next,
}
use sync_harbor.Manager.{Manager, Stop}
use sync_harbor.Changes.Change.{Change, new_change, add_to_chain, on_command_created}

-- A path of `initial_files` with its range, which is never empty.
pub record Candidates : Type 0 where
  pub path : FilePath
  pub first : FileRecordDto
  pub others : List FileRecordDto

-- The loop that looks for `best`.
unfoldable pub newest : FileRecordDto → List FileRecordDto → FileRecordDto
newest best [] = best
newest best (dto ∷ dtos) =
    newest (if ltb best.cloud_file_modified_time dto.cloud_file_modified_time then dto else best)
      dtos

-- The change for a path that only clouds have.
unfoldable pub remote_only : ℕ → FilePath → FileRecordDto → Change
unfolding new_change add_to_chain on_command_created
remote_only now path best =
    let change = on_command_created (new_change ChangeType.created path now best.cloud_id) in
    if best.type == EntryType.directory
    then add_to_chain change (command local_upload 0 (record_dto best) end)
    else add_to_chain (on_command_created change) (
        command cloud_download_new best.cloud_id (record_dto best)
          (next (command local_upload 0 unset end) end))

-- The change for a file that a cloud has newer than it is here, with the text of the cloud's hash.
unfoldable pub remote_newer : ℕ → FilePath → FileRecordDto → FileRecordDto → String → Change
unfolding new_change add_to_chain on_command_created cloud_updated
remote_newer now path here best hash =
    let dto =
      cloud_updated best.type here.global_id best.cloud_id best.cloud_file_id hash
        best.cloud_file_modified_time path best.cloud_parent_id best.size in
    add_to_chain
      (on_command_created
        (on_command_created (new_change ChangeType.updated path now best.cloud_id)))
      (command cloud_download_update best.cloud_id (updated_dto dto)
        (next (command local_update 0 unset end) end))

-- `std::get<std::string>`, which throws on a number.
unfoldable pub text_of : HashSum → Option String
text_of (text s) = some s
text_of (word n) = none

-- The changes that are handled so far, the changes under way, and `local_files_map`.
pub record Reconciled : Type 0 where
  pub changes : List Change
  pub manager : Manager
  pub local_files : Dict FilePath FileRecordDto

-- `handleChange`, with the database and the storages as each call finds them.
abbrev pub Handling : Type 0
Handling = Change → Manager → Option Stop × Manager

module _ (is_regular : FilePath → Bool) (now : ℕ) (handle : Handling) where
  -- `handleChange` and then the entry of `local_files_map`; `none` is an exception.
  unfoldable pub hand_over : FilePath → FileRecordDto → Change → Reconciled → Option Reconciled
  unfolding insert
  hand_over path entry change r =
      let (stop, m) = handle change r.manager in
      elim stop [
        | some s ↦ none
        | none ↦ some (record {
          changes = r.changes ++ (change ∷ []);
          manager = m;
          local_files = insert path entry r.local_files;
        })
      ]

  -- The update, with the text of the cloud's hash.
  unfoldable pub take_newer :
      FilePath → FileRecordDto → FileRecordDto → Reconciled → Option String → Option Reconciled
  unfolding remote_newer hand_over
  take_newer path here best r none = none
  take_newer path here best r (some hash) =
      hand_over path (record best { global_id = here.global_id })
        (remote_newer now path here best hash) r

  -- The body of the loop, with the entry of `local_files_map`.
  unfoldable pub reconcile_with :
      FilePath → FileRecordDto → Reconciled → Option FileRecordDto → Option Reconciled
  unfolding remote_only take_newer text_of hand_over
  reconcile_with path best r none = hand_over path best (remote_only now path best) r
  reconcile_with path best r (some here) =
      if is_regular path && ltb here.cloud_file_modified_time best.cloud_file_modified_time
      then take_newer path here best r (text_of best.cloud_hash_check_sum)
      else some r

  -- The body of the loop; `none` is an exception.
  unfoldable pub reconcile : Candidates → Reconciled → Option Reconciled
  unfolding newest reconcile_with lookup
  reconcile g r = reconcile_with g.path (newest g.first g.others) r (lookup g.path r.local_files)

  -- The loop over `initial_files`.
  unfoldable pub reconcile_all : List Candidates → Reconciled → Option Reconciled
  unfolding reconcile
  reconcile_all [] r = some r
  reconcile_all (g ∷ groups) r = elim (reconcile g r) [
    | none ↦ none
    | some r' ↦ reconcile_all groups r'
  ]
