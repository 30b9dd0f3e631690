-- ===== src/Local/Handlers.antt =====
-- What becomes of an event of the file watcher: `handleCreated`, `handleDeleted`, `handleUpdated`,
-- `handleMoved` and `handleRenamed` of src/LocalStorage.cpp. `_db` and the database of
-- `CallbackDispatcher` are one, and its calls in one handler return the same codes.
pub mod Appeared
pub mod Reports
pub mod Temporary
use sync_harbor.Base.{
  ℕ, Bool, true, false, not, ◌&&◌, ◌||◌, Option, none, some, List, [], ◌∷◌, ◌==◌, nat_eq, leb,
  if◌then◌else◌,
}
use sync_harbor.Utils.Kinds.{EntryType, entry_type_eq, ChangeType}
use sync_harbor.Utils.FilePath.{FilePath, lexically_relative}
use sync_harbor.Utils.Dto.{
  FileRecordDto, FileUpdatedDto, FileMovedDto, local_new_record, local_updated, local_moved,
  local_deleted, FileEvent, AssociatedEvent, file_event, associated_event,
}
use sync_harbor.Database.Connection.{Codes, Connection, Result, ok, err, return, ◌>>=◌, ◌>>◌}
use sync_harbor.Database.Write.{hash_word}
use sync_harbor.Database.Read.{get_file_by_path, get_file_by_file_id}
use sync_harbor.Dispatcher.{sync_db_update}
use sync_harbor.Changes.Factory.{make_local_new, make_local_update, make_local_move, make_delete}
use sync_harbor.Local.Names.{ignore_tmp, that_file_tmp_exists}
use sync_harbor.Local.State.{
  FileSystem, LocalStorage, Step, on_db, require, push_change, unless_expected, get_file_id,
  compute_file_hash, entry_type, from_watcher_time,
}

module _ (fs : FileSystem) (c : Codes) (clouds : List ℕ) where
  -- The end of `handleDeleted`, with the record of the path.
  unfoldable pub delete_found : FileEvent → FilePath → Option FileRecordDto → Step fs.Disk
  delete_found evt rel none s = (ok tt, s)
  delete_found evt rel (some rec) s =
      push_change (make_delete clouds (local_deleted rel rec.global_id evt.when)) s

  -- `handleDeleted` behind its tests.
  unfoldable pub report_deleted : FileEvent → Step fs.Disk
  unfolding delete_found
  report_deleted evt s =
      let rel = lexically_relative evt.path s.local_home_dir in
      (on_db (get_file_by_path c rel) >>= delete_found evt rel) s

  -- Whether the event is a part of an atomic update.
  unfoldable pub is_replaced : fs.Disk → FilePath → Bool
  unfolding that_file_tmp_exists
  is_replaced disk path = fs.exists disk path || that_file_tmp_exists (fs.exists disk) path

  unfoldable pub delete_unless_replaced : FileEvent → Step fs.Disk
  unfolding report_deleted is_replaced ignore_tmp
  delete_unless_replaced evt s =
      if ignore_tmp evt.path || is_replaced s.disk evt.path
      then (ok tt, s)
      else report_deleted evt s

  -- `handleDeleted`
  unfoldable pub handle_deleted : FileEvent → Step fs.Disk
  unfolding delete_unless_replaced
  handle_deleted evt = unless_expected evt.path ChangeType.deleted (delete_unless_replaced evt)

  -- The record that `handleCreated` makes of the entry, with its size.
  unfoldable pub created_record : FileEvent → LocalStorage fs.Disk → ℕ → FileRecordDto
  unfolding entry_type compute_file_hash get_file_id
  created_record evt s sz =
      let t = entry_type fs s.disk evt.path in
      local_new_record t (lexically_relative evt.path s.local_home_dir) sz evt.when
        (if t == EntryType.directory then 0 else compute_file_hash fs s.disk evt.path)
        (if evt.file_id == 0 then get_file_id fs s.disk evt.path else evt.file_id)

  -- The size that `handleCreated` reads, unless it throws.
  unfoldable pub created_size : fs.Disk → FilePath → Option ℕ
  unfolding entry_type
  created_size disk path =
      if entry_type fs disk path == EntryType.directory then some 0 else fs.file_size disk path

  -- `handleCreated` behind its tests.
  unfoldable pub report_created : FileEvent → Step fs.Disk
  unfolding created_record created_size
  report_created evt s =
      (require (created_size s.disk evt.path) >>= λ sz.
      push_change (make_local_new clouds (created_record evt s sz)))
        s

  -- `handleCreated`
  unfoldable pub handle_created : FileEvent → Step fs.Disk
  unfolding report_created ignore_tmp
  handle_created evt s =
      if ignore_tmp evt.path
      then (ok tt, s)
      else unless_expected evt.path ChangeType.created (report_created evt) s

  -- Whether `handleUpdated` takes the event for one without a new content.
  unfoldable pub is_fake_update : fs.Disk → FilePath → FileRecordDto → ℕ → Bool
  unfolding compute_file_hash
  is_fake_update disk full rec tm =
      let hash = compute_file_hash fs disk full in
      hash == 0
      || not (fs.exists disk full)
      || (leb tm rec.cloud_file_modified_time && hash_word rec.cloud_hash_check_sum == hash)

  -- The update that `handleUpdated` makes of the event, with the size.
  unfoldable pub updated_record :
      FileEvent → FileRecordDto → LocalStorage fs.Disk → ℕ → FileUpdatedDto
  unfolding compute_file_hash get_file_id from_watcher_time
  updated_record evt rec s sz =
      local_updated rec.type rec.global_id (compute_file_hash fs s.disk evt.path)
        (from_watcher_time evt.when) (lexically_relative evt.path s.local_home_dir) sz
        (get_file_id fs s.disk evt.path)

  -- `syncDbWrite` of the update, and its change.
  unfoldable pub store_update : FileUpdatedDto → Step fs.Disk
  unfolding sync_db_update
  store_update dto = on_db (sync_db_update c dto) >> push_change (make_local_update clouds dto)

  -- `handleUpdated` with the record that it found.
  unfoldable pub report_updated : FileEvent → FileRecordDto → Step fs.Disk
  unfolding is_fake_update updated_record store_update from_watcher_time
  report_updated evt rec s =
      if is_fake_update s.disk evt.path rec (from_watcher_time evt.when)
      then (ok tt, s)
      else (require (fs.file_size s.disk evt.path) >>= λ sz.
            store_update (updated_record evt rec s sz))
          s

  -- The record of the file with this id, or else of the path.
  unfoldable pub find_updated :
      ℕ → FilePath → Connection → Result (Option FileRecordDto) × Connection
  find_updated file_id rel = do
    rec ← get_file_by_file_id c file_id
    elim rec [ none ↦ get_file_by_path c rel | some r ↦ return (some r) ]

  unfoldable pub update_found : FileEvent → Option FileRecordDto → Step fs.Disk
  unfolding report_updated
  update_found evt none s = (ok tt, s)
  update_found evt (some rec) s = report_updated evt rec s

  -- `handleUpdated`
  unfoldable pub handle_updated : FileEvent → Step fs.Disk
  unfolding find_updated update_found get_file_id ignore_tmp
  handle_updated evt s =
      let rel = lexically_relative evt.path s.local_home_dir in
      if ignore_tmp evt.path
      then (ok tt, s)
      else (on_db (find_updated (get_file_id fs s.disk evt.path) rel) >>= update_found evt) s

  -- The end of `handleMoved`, with the record of the file.
  unfoldable pub move_found : FileEvent → AssociatedEvent → Option FileRecordDto → Step fs.Disk
  unfolding handle_created
  move_found evt assoc none s = handle_created (associated_event assoc) s
  move_found evt assoc (some rec) s =
      let new_rel = lexically_relative assoc.path s.local_home_dir in
      let old_rel = lexically_relative evt.path s.local_home_dir in
      push_change
        (make_local_move clouds (local_moved rec.type rec.global_id evt.when old_rel new_rel)) s

  -- `handleMoved` behind its tests.
  unfoldable pub report_moved : FileEvent → AssociatedEvent → Step fs.Disk
  unfolding move_found get_file_id
  report_moved evt assoc s =
      (on_db (get_file_by_file_id c (get_file_id fs s.disk assoc.path)) >>= move_found evt assoc) s

  -- `handleMoved`, with what `evt.associated` points to.
  unfoldable pub handle_moved : FileEvent → AssociatedEvent → Step fs.Disk
  unfolding report_moved handle_updated ignore_tmp
  handle_moved evt assoc s =
      if ignore_tmp evt.path
      then (if ignore_tmp assoc.path then (ok tt, s) else handle_updated (associated_event assoc) s)
      else unless_expected evt.path ChangeType.moved (report_moved evt assoc) s

  -- Whether the loop of `handleRenamed` leaves the entry alone.
  unfoldable pub is_skipped : fs.Disk → FilePath → Bool
  unfolding ignore_tmp
  is_skipped disk entry =
      ignore_tmp entry || not (fs.is_regular_file disk entry || fs.is_directory disk entry)

  -- The loop of `handleRenamed` over the entries of a directory.
  unfoldable pub create_entries : ℕ → List FilePath → Step fs.Disk
  unfolding handle_created is_skipped
  create_entries when [] s = (ok tt, s)
  create_entries when (entry ∷ entries) s =
      let rest = create_entries when entries in
      if is_skipped s.disk entry
      then rest s
      else (handle_created (file_event entry when ChangeType.created) >>= λ _. rest) s

  unfoldable pub create_below : FileEvent → Step fs.Disk
  unfolding create_entries
  create_below evt s =
      if fs.is_directory s.disk evt.path
      then create_entries evt.when (fs.recursive_entries s.disk evt.path) s
      else (ok tt, s)

  -- A path that is there under a name that the database does not know.
  unfoldable pub create_tree : FileEvent → Step fs.Disk
  unfolding create_below handle_created
  create_tree evt = handle_created evt >>= λ _. create_below evt

  unfoldable pub appear_found : FileEvent → Option FileRecordDto → Step fs.Disk
  unfolding create_tree handle_updated
  appear_found evt none s = create_tree evt s
  appear_found evt (some rec) s = handle_updated evt s

  -- `handleRenamed` of an event that comes alone.
  unfoldable pub handle_appeared : FileEvent → Step fs.Disk
  unfolding handle_deleted appear_found
  handle_appeared evt s =
      if fs.exists s.disk evt.path
      then (on_db (get_file_by_path c evt.path) >>= appear_found evt) s
      else handle_deleted evt s

  unfoldable pub rename_with : FileEvent → Option AssociatedEvent → Step fs.Disk
  unfolding handle_appeared handle_moved ignore_tmp
  rename_with evt none s = handle_appeared evt s
  rename_with evt (some assoc) s =
      if not (ignore_tmp evt.path) && ignore_tmp assoc.path
      then (ok tt, s)
      else handle_moved evt assoc s

  -- `handleRenamed`
  unfoldable pub handle_renamed : FileEvent → Step fs.Disk
  unfolding rename_with
  handle_renamed evt = rename_with evt evt.associated

  unfoldable pub handle_as : ChangeType → FileEvent → Step fs.Disk
  unfolding handle_created handle_deleted handle_renamed handle_updated
  handle_as ChangeType.created evt s = handle_created evt s
  handle_as ChangeType.deleted evt s = handle_deleted evt s
  handle_as ChangeType.renamed evt s = handle_renamed evt s
  handle_as ChangeType.updated evt s = handle_updated evt s
  handle_as _ evt s = (ok tt, s)

  -- The switch of `proccessChanges`.
  unfoldable pub handle_event : FileEvent → Step fs.Disk
  unfolding handle_as
  handle_event evt = handle_as evt.type evt
