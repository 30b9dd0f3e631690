-- ===== src/Tests/Local.antt =====
-- Runs of the local storage on a file system in memory.
use sync_harbor.Base.{
  ℕ, String, ◌≤◌, ◌≡◌, refl, true, false, none, some, List, [], ◌∷◌, ◌++◌, any, find, list_eq,
  string_eq, nat_eq, arith,
}
use sync_harbor.Base.Dict.{Dict, lookup, contains, insert, erase}
use sync_harbor.Utils.Kinds.{ChangeType, change_type_eq}
use sync_harbor.Utils.FilePath.{
  is_empty, FilePath, path_eq, join, filename, parent_path, lexically_relative,
}
use sync_harbor.Utils.Dto.{
  FileRecordDto, FileUpdatedDto, FileEvent, file_event, text, local_deleted,
}
use sync_harbor.Database.Connection.{ok, err}
use sync_harbor.Database.Read.{
  get_file_by_path, get_file_by_global_id, get_file_by_cloud_and_global_id, stored_file,
}
use sync_harbor.Database.Calls.{idle}
use sync_harbor.Database.Files.{recorded}
use sync_harbor.Database.Links.{linked}
use sync_harbor.Changes.Factory.{make_delete}
use sync_harbor.Queue.{empty_queue}
use sync_harbor.Changes.Factory.{make_local_new}
use sync_harbor.Queue.{push}
use sync_harbor.Changes.Change.{Change}
use sync_harbor.Utils.Kinds.{entry_type_eq}
use sync_harbor.Database.Connection.{Result, err}
use sync_harbor.Local.Names.{that_file_tmp_exists, ignore_tmp, is_tmp_name, tmp_path}
use sync_harbor.Local.State.{LocalStorage, entry_type, get_file_id, from_watcher_time}
use sync_harbor.Local.Handlers.{
  is_replaced, handle_event, updated_record, handle_renamed, created_record, created_size,
}
use sync_harbor.Local.Handlers.Reports.{Adds, handle_event-Adds}
use sync_harbor.Local.Handlers.Temporary.{IsIgnored, handle_event-IsIgnored}
use sync_harbor.Local.Handlers.Appeared.{appeared_is_created}
use sync_harbor.Local.Watcher.{
  is_dropped, says_there, real_path, destroy, modify, WatcherEvent, noted, on_fs_event,
  process_changes, take_changes, renamed_event,
}
use sync_harbor.Local.Watcher.Draining.{IsProcessed, Handles, process_changes-IsProcessed}
use sync_harbor.Local.Watcher.Deletion.{IsTrueDeletion, deletion_is_reported}
use sync_harbor.Local.Watcher.Times.{update_is_dated_1970}
use sync_harbor.Local.Process.{procces_upload, procces_update, procces_move, procces_delete}
use sync_harbor.Local.Process.Echo.{IsPassedOver, deletion_echo, move_echo}
use sync_harbor.Local.Process.Upload.{IsInstalled, installed, upload_is_stored, upload_echo}
use sync_harbor.Tests.Data.{fine, stored, photo, notes, notes_update, notes_move, notes_row}
use sync_harbor.Tests.Database.{stored-IsIntact}
use sync_harbor.Tests.Disk.{Node, memory_files, move_node}

abbrev home : FilePath
home = record { rooted = true; names = "home" ∷ [] }

abbrev at_home : List String → FilePath
at_home names = record { rooted = true; names = "home" ∷ names }

abbrev a_file : ℕ → ℕ → Node
a_file inode written = record { is_directory = false; inode = inode; text = "x"; written = written }

-- A download of the photo is complete; the notes are gone.
abbrev disk : Dict FilePath Node
disk = (at_home (".-tmp-SyncHarbor-photo.png" ∷ []), a_file 43 2000) ∷ []

abbrev pub storage : LocalStorage (Dict FilePath Node)
storage = record {
  local_home_dir = home;
  id = 0;
  changes_queue = empty_queue;
  events_buff = empty_queue;
  expected_events = [];
  db = idle stored;
  disk = disk;
}

abbrev clouds : List ℕ
clouds = 0 ∷ 1 ∷ []

-- The photo as the cloud has it.
abbrev photo_on_drive : FileRecordDto
photo_on_drive = record photo {
  cloud_file_id = "g-7";
  cloud_hash_check_sum = text "abc";
  cloud_id = 1;
}

abbrev after_download : Dict FilePath Node
after_download = (at_home ("photo.png" ∷ []), a_file 43 2000) ∷ []

photo-IsInstalled : IsInstalled memory_files photo_on_drive storage after_download 43 2000
unfolding move_node lookup contains insert erase path_eq string_eq tmp_path join filename
    parent_path
photo-IsInstalled = record { renames = refl; sized = refl; timed = refl }

handle_event-Adds_example :
    let evt = file_event (at_home ("photo.png" ∷ [])) 5 ChangeType.created in
    Adds storage (handle_event memory_files fine clouds evt storage).1
handle_event-Adds_example =
    handle_event-Adds memory_files fine clouds
      (file_event (at_home ("photo.png" ∷ [])) 5 ChangeType.created) storage

-- A deletion of the notes waits as an event, and behind a change that waits.
abbrev two_waiting : LocalStorage (Dict FilePath Node)
two_waiting = record storage {
  events_buff = push empty_queue (file_event (at_home notes.names) 9 ChangeType.deleted);
  changes_queue = push empty_queue (make_delete clouds (local_deleted notes 7 8));
}

process_changes-IsProcessed_example :
    let evt = file_event (at_home notes.names) 9 ChangeType.deleted in
    let processed = process_changes memory_files fine clouds two_waiting in
    IsProcessed two_waiting processed
    × (r : Result (Unit {0}) × LocalStorage (Dict FilePath Node)) × Handles memory_files fine clouds
        (evt ∷ [])
        two_waiting
        r
    × (processed ≡ elim r.0 as (λ _. Result (List Change) × LocalStorage (Dict FilePath Node)) [
      | ok u ↦ take_changes memory_files fine clouds r.1
      | err e ↦ (err e, r.1)
    ])
unfolding push empty_queue
process_changes-IsProcessed_example =
    process_changes-IsProcessed memory_files fine clouds two_waiting

handle_event-IsIgnored_example :
    let evt = file_event (at_home (".notes.txt.swp" ∷ [])) 5 ChangeType.updated in
    IsIgnored storage (handle_event memory_files fine clouds evt storage)
unfolding ignore_tmp is_tmp_name filename any string_eq change_type_eq file_event
handle_event-IsIgnored_example =
    handle_event-IsIgnored memory_files fine clouds
      (file_event (at_home (".notes.txt.swp" ∷ [])) 5 ChangeType.updated) storage (refl, refl)

upload_is_stored_example :
    let (r, s') = procces_upload memory_files fine photo_on_drive storage in
    let file = installed memory_files photo_on_drive storage after_download 43 2000 in
    (r ≡ ok (record file { global_id = 2 }))
    × (s'.disk ≡ after_download)
    × ((get_file_by_global_id fine 2 s'.db).0 ≡ ok (some (recorded 2 file)))
    × ((get_file_by_cloud_and_global_id fine 1 2 s'.db).0
        ≡ ok (some (linked fine (record photo_on_drive { global_id = 2 }))))
unfolding any nat_eq
upload_is_stored_example =
    upload_is_stored memory_files photo_on_drive storage fine stored fine after_download 43 2000
      photo-IsInstalled refl refl stored-IsIntact refl refl

upload_echo_example :
    let s' = (procces_upload memory_files fine photo_on_drive storage).1 in
    let photo_path = at_home ("photo.png" ∷ []) in
    handle_event memory_files fine clouds
      (renamed_event (tmp_path home photo.rel_path) 2001 (some photo_path))
      s'
    ≡ (ok tt, s')
unfolding any find nat_eq get_file_id lookup path_eq string_eq ignore_tmp is_tmp_name filename join
    from_watcher_time
upload_echo_example =
    upload_echo memory_files photo_on_drive storage fine stored clouds after_download 43 2000 2001
      photo-IsInstalled refl stored-IsIntact refl refl refl refl (omega arith)

abbrev notes_modified : WatcherEvent
notes_modified = record {
  path_name = at_home notes.names;
  effect_type = modify;
  is_watcher = false;
  effect_time = 1750000000000000000;
  associated = none;
}

abbrev notes_noted : FileEvent
notes_noted = file_event (at_home notes.names) 1750000000 ChangeType.updated

abbrev notes_dto : FileUpdatedDto
notes_dto = updated_record memory_files fine clouds notes_noted (stored_file notes_row) storage 10

update_is_dated_1970_example :
    (notes_noted.when ≡ from_watcher_time notes_modified.effect_time)
    × (notes_dto.cloud_file_modified_time ≤ 9)
unfolding noted file_event lookup path_eq string_eq from_watcher_time
update_is_dated_1970_example =
    update_is_dated_1970 memory_files fine clouds disk notes_modified notes_noted
      (stored_file notes_row) storage 10 (omega arith) refl

-- The notes, which the database has, are renamed into their place again.
abbrev notes_back : LocalStorage (Dict FilePath Node)
notes_back = record storage { disk = (at_home notes.names, a_file 44 9) ∷ [] }

appeared_is_created_example :
    let evt = file_event (at_home notes.names) 5 ChangeType.renamed in
    let change =
      make_local_new clouds (created_record memory_files fine clouds evt notes_back 44) in
    handle_renamed memory_files fine clouds evt notes_back
    ≡ (ok tt, record notes_back { changes_queue = push empty_queue change })
unfolding contains path_eq string_eq file_event lookup created_size entry_type ignore_tmp
    is_tmp_name filename any entry_type_eq nat_eq
appeared_is_created_example =
    appeared_is_created memory_files fine clouds
      (file_event (at_home notes.names) 5 ChangeType.renamed) notes_back 44 refl (refl, tt) refl
      refl refl refl refl refl refl

deletion_echo_example :
    let path = at_home notes.names in
    let delete = record (local_deleted notes 1 9) { cloud_id = 1 } in
    let echo = handle_event memory_files fine clouds (file_event path 9 ChangeType.deleted) in
    let updated = (procces_update memory_files fine notes_update storage).1 in
    let deleted = procces_delete memory_files delete storage in
    IsPassedOver storage updated (echo updated) × IsPassedOver storage deleted (echo deleted)
unfolding local_deleted lookup join nat_eq
deletion_echo_example =
    deletion_echo memory_files fine clouds notes_update
      (record (local_deleted notes 1 9) { cloud_id = 1 }) 9 storage refl refl refl refl

move_echo_example :
    let old = at_home notes.names in
    let new = at_home ("notes.txt" ∷ []) in
    let moved = (procces_move memory_files fine notes_move storage).1 in
    IsPassedOver storage moved
      (handle_event memory_files fine clouds (renamed_event old 9 (some new)) moved)
unfolding lookup join ignore_tmp is_tmp_name filename any string_eq nat_eq
move_echo_example = move_echo memory_files fine clouds notes_move 9 storage refl refl refl refl

abbrev notes_destroyed : WatcherEvent
notes_destroyed = record notes_modified { effect_type = destroy }

abbrev notes_stored : FileRecordDto
notes_stored = stored_file notes_row

notes-IsTrueDeletion :
    IsTrueDeletion memory_files fine clouds (at_home notes.names) notes_stored storage
unfolding lookup contains ignore_tmp is_tmp_name is_replaced that_file_tmp_exists filename
    parent_path any path_eq string_eq get_file_by_path lexically_relative find nat_eq
notes-IsTrueDeletion = record { unexpected = refl; kept = refl; gone = refl; known = refl }

deletion_is_reported_example :
    let (calls, s') = on_fs_event memory_files notes_destroyed storage in
    let rel = lexically_relative (at_home notes.names) home in
    let dto = local_deleted rel 1 (from_watcher_time 1750000000000000000) in
    (calls ≡ true)
    × ((process_changes memory_files fine clouds s').0
        ≡ ok (storage.changes_queue.items ++ (make_delete clouds dto ∷ [])))
unfolding is_dropped says_there real_path lexically_relative is_empty path_eq string_eq list_eq
    empty_queue stored_file nat_eq
deletion_is_reported_example =
    deletion_is_reported memory_files fine clouds notes_destroyed notes_stored storage refl refl
      refl notes-IsTrueDeletion
