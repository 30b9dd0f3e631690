-- ===== src/Clouds/Drive/Changes.antt =====
-- `GoogleDrive::proccessChanges`: what the entries of a batch of pages are reported as. The calls of the
-- database in one batch return the same codes; `maybe_new` is written and never read.
use sync_harbor.Base.{
  ℕ, String, Bool, true, false, not, ◌&&◌, ◌||◌, Option, none, some, List, [], ◌∷◌, map, ltb, ◌==◌,
  nat_eq, string_eq, if◌then◌else◌,
}
use sync_harbor.Base.Dict.{Dict, lookup, insert}
use sync_harbor.Utils.Kinds.{EntryType, entry_type_eq, ChangeType}
use sync_harbor.Utils.FilePath.{
  FilePath, path_eq, empty_path, relative, is_empty, join, parent_path, filename,
}
use sync_harbor.Utils.Texts.{path_text, path_of_text}
use sync_harbor.Utils.Dto.{
  FileRecordDto, FileUpdatedDto, FileMovedDto, FileDeletedDto, drive_new_record, cloud_updated,
  cloud_moved, cloud_deleted,
}
use sync_harbor.Database.Connection.{
  Codes, Connection, Result, ok, err, Stateful, return, ◌>>=◌, ◌>>◌,
}
use sync_harbor.Database.Read.{get_file_by_cloud_file_id, get_path_by_global_id}
use sync_harbor.Changes.Factory.{make_cloud_new, make_cloud_update, make_cloud_move, make_delete}
use sync_harbor.Clouds.Json.{JsonValues, has_member, const_index, ◌then_read◌}
use sync_harbor.Queue.{Queue, try_pop}
use sync_harbor.Registry.{Registry, copy_map, prev_events}
use sync_harbor.Clouds.Sweep.{
  Report, alone, differs, Sweep, Turn, Needs, asks, skip, push_report, unless_old, move_then_update,
}
use sync_harbor.Clouds.Drive.Entry.{Entry, read_entry}

-- `path_map`: the folders of the batch that were new.
abbrev pub Folders : Type 0
Folders = Dict String FilePath

-- `path / name`
abbrev pub under : FilePath → String → FilePath
under path name = join path (path_of_text name)

-- `_id` and `_home_dir_id` of the storage.
pub record Home : Type 0 where
  pub id : ℕ
  pub home_dir_id : String

-- The paths of an entry, its link, and whether it counts as trashed.
pub record Located : Type 0 where
  pub link : Option FileRecordDto
  pub trashed : Bool
  pub old_path : FilePath
  pub new_path : FilePath
  pub rel_path : FilePath

module _ (c : Codes) (drive : Home) where
  -- The path of a new entry whose parent is no file of the database; empty where it is unknown.
  unfoldable pub path_in_batch : Entry → Folders → FilePath
  unfolding lookup path_of_text join
  path_in_batch e folders =
      if e.parent_id == drive.home_dir_id
      then path_of_text e.name
      else elim (lookup e.parent_id folders) [
        | none ↦ empty_path
        | some folder ↦ under folder e.name
      ]

  -- The path of a new entry, with the record of its parent.
  unfoldable pub new_rel_path : Entry → Option FileRecordDto → Stateful (Sweep Folders) FilePath
  unfolding path_in_batch path_of_text join
  new_rel_path e none s = (ok (path_in_batch e s.memory), s)
  new_rel_path e (some parent) s =
      (asks (get_path_by_global_id c parent.global_id) >>= λ path. return (under path e.name)) s

  -- `path_map[cloud_file_id] = rel_path` of a folder.
  unfoldable pub note_folder : Entry → FilePath → Turn Folders
  unfolding insert
  note_folder e rel_path s =
      if e.type == EntryType.directory
      then (ok tt, record s { memory = insert e.cloud_file_id rel_path s.memory })
      else (ok tt, s)

  -- The branch without a link.
  unfoldable pub locate_new : Entry → Stateful (Sweep Folders) Located
  unfolding new_rel_path note_folder
  locate_new e = do
    parent ← asks (get_file_by_cloud_file_id c drive.id e.parent_id)
    rel_path ← new_rel_path e parent
    note_folder e rel_path
    return (record {
      link = none;
      trashed = false;
      old_path = empty_path;
      new_path = empty_path;
      rel_path = rel_path;
    })

  -- The new path of a link, with the record of its new parent; `none` is a move out of the home
  -- directory.
  unfoldable pub moved_path :
      Entry → Option FileRecordDto → Stateful (Sweep Folders) (Option FilePath)
  unfolding path_of_text join
  moved_path e (some parent) =
      asks (get_path_by_global_id c parent.global_id) >>= λ path. return (some (under path e.name))
  moved_path e none =
      return (if e.parent_id == drive.home_dir_id then some (path_of_text e.name) else none)

  -- The name that the entry has, beside the place that it had.
  unfoldable pub renamed_path : Entry → FilePath → FilePath
  unfolding path_of_text join parent_path filename
  renamed_path e old_path =
      if path_of_text e.name == path_of_text (filename old_path)
      then old_path
      else under (parent_path old_path) e.name

  -- Whether the link is gone, and the path that it has now.
  unfoldable pub current_path :
      Entry → FileRecordDto → FilePath → Stateful (Sweep Folders) (Option FilePath)
  unfolding moved_path renamed_path
  current_path e link old_path =
      if link.cloud_parent_id == e.parent_id
      then return (some (renamed_path e old_path))
      else asks (get_file_by_cloud_file_id c drive.id e.parent_id) >>= moved_path e

  -- What is known of a link at a new path, if it has one.
  unfoldable pub located_at : Entry → FileRecordDto → FilePath → Option FilePath → Located
  unfolding renamed_path
  located_at e link old_path none = record {
    link = some link;
    trashed = true;
    old_path = old_path;
    new_path = renamed_path e old_path;
    rel_path = renamed_path e old_path;
  }
  located_at e link old_path (some new_path) = record {
    link = some link;
    trashed = false;
    old_path = old_path;
    new_path = new_path;
    rel_path = new_path;
  }

  -- The branch with a link.
  unfoldable pub locate_link : Entry → FileRecordDto → Stateful (Sweep Folders) Located
  unfolding current_path located_at
  locate_link e link = asks (get_path_by_global_id c link.global_id) >>= λ old_path.
      if e.trashed
      then return (record {
        link = some link;
        trashed = true;
        old_path = old_path;
        new_path = old_path;
        rel_path = old_path;
      })
      else (current_path e link old_path >>= λ now. return (located_at e link old_path now))

  -- The DTOs that the entry is reported with.
  unfoldable pub new_dto : Entry → Located → FileRecordDto
  unfolding drive_new_record
  new_dto e at =
      drive_new_record e.type e.parent_id at.rel_path e.cloud_file_id e.size e.mod_time e.hash
        drive.id

  unfoldable pub deleted_entry : Entry → Located → FileRecordDto → FileDeletedDto
  unfolding cloud_deleted
  deleted_entry e at link =
      cloud_deleted at.rel_path link.global_id drive.id e.cloud_file_id e.mod_time

  unfoldable pub moved_entry : Entry → Located → FileRecordDto → FileMovedDto
  unfolding cloud_moved
  moved_entry e at link =
      cloud_moved e.type link.global_id drive.id e.cloud_file_id e.mod_time at.old_path at.new_path
        link.cloud_parent_id e.parent_id

  unfoldable pub updated_entry : Entry → Located → FileRecordDto → FileUpdatedDto
  unfolding cloud_updated
  updated_entry e at link =
      cloud_updated e.type link.global_id drive.id e.cloud_file_id e.hash e.mod_time at.new_path
        e.parent_id e.size

  -- `need_update`
  unfoldable pub is_updated : Entry → Located → FileRecordDto → Result Bool
  unfolding differs
  is_updated e at link =
      if not at.trashed
        && not (e.type == EntryType.directory)
        && ltb link.cloud_file_modified_time e.mod_time
      then differs e.hash link.cloud_hash_check_sum
      else ok false

  module _ (clouds : List ℕ) where
    -- The reports of a link, behind the tests.
    unfoldable pub report_link : Entry → Located → FileRecordDto → Needs → Turn Folders
    unfolding deleted_entry moved_entry updated_entry
    report_link e at link needs =
        if needs.need_move && needs.need_update
        then push_report (move_then_update clouds (moved_entry e at link) (updated_entry e at link))
        else if needs.need_del
        then push_report (alone (make_delete clouds (deleted_entry e at link)))
        else if needs.need_move
        then push_report (alone (make_cloud_move clouds (moved_entry e at link)))
        else if needs.need_update
        then push_report (alone (make_cloud_update clouds (updated_entry e at link)))
        else skip

    -- The tests of a link against what the program expects.
    unfoldable pub consider_link : Entry → Located → FileRecordDto → Bool → Turn Folders
    unfolding unless_old report_link path_eq
    consider_link e at link need_update =
        let needs : Needs = record {
          need_new = false;
          need_del = at.trashed;
          need_move = not at.trashed && not (at.new_path == at.old_path);
          need_update = need_update;
        } in
        unless_old needs.need_del e.cloud_file_id ChangeType.deleted (
          unless_old needs.need_move e.cloud_file_id ChangeType.moved (
            unless_old needs.need_update e.cloud_file_id ChangeType.updated
              (report_link e at link needs)))

    -- What becomes of an entry once its paths are known.
    unfoldable pub consider : Entry → Located → Option FileRecordDto → Turn Folders
    unfolding consider_link is_updated new_dto unless_old path_text
    consider e at none s =
        unless_old true (path_text at.rel_path) ChangeType.created
          (push_report (alone (make_cloud_new clouds (new_dto e at)))) s
    consider e at (some link) s = elim (is_updated e at link) [
      | err f ↦ (err f, s)
      | ok need_update ↦ consider_link e at link need_update s
    ]

    -- An entry whose path is empty is passed over.
    unfoldable pub sort_out : Entry → Located → Turn Folders
    unfolding consider is_empty path_eq
    sort_out e at =
        if is_empty at.rel_path || at.rel_path == relative ("." ∷ [])
        then skip
        else consider e at at.link

    -- An entry with the record of its link.
    unfoldable pub take_entry : Entry → Option FileRecordDto → Turn Folders
    unfolding locate_new locate_link sort_out
    take_entry e none =
        if e.trashed || e.parent_id == "" then skip else (locate_new e >>= sort_out e)
    take_entry e (some link) = locate_link e link >>= sort_out e

    -- The body of the loops for a file.
    unfoldable pub process_entry : Entry → Turn Folders
    unfolding take_entry
    process_entry e = asks (get_file_by_cloud_file_id c drive.id e.cloud_file_id) >>= take_entry e

    -- The inner loop, over what one page has.
    unfoldable pub process_entries : List (Option (Result Entry)) → Turn Folders
    unfolding process_entry
    process_entries [] s = (ok tt, s)
    process_entries (none ∷ entries) s = process_entries entries s
    process_entries (some (err f) ∷ entries) s = (err f, s)
    process_entries (some (ok e) ∷ entries) s = (process_entry e >> process_entries entries) s

-- One element of `page_json["changes"]`: `none` has no file.
unfoldable pub read_change : (json : JsonValues) → (String → ℕ) → json.Json → Option (Result Entry)
unfolding has_member const_index read_entry
read_change json calendar jchange =
    if has_member json jchange "file"
    then some (const_index json jchange "file" then_read read_entry json calendar)
    else none

-- `GoogleDrive` with its queue of batches and what it expects.
pub record GoogleDrive (J : Type 0) : Type 0 where
  pub home : Home
  pub events_buff : Queue (List J)
  pub expected_events : Registry String
  pub db : Connection

module _ (json : JsonValues) (calendar : String → ℕ) (c : Codes) (clouds : List ℕ) where
  -- The loop over the pages.
  unfoldable pub process_pages : Home → List json.Json → Turn Folders
  unfolding const_index read_change process_entries
  process_pages home [] s = (ok tt, s)
  process_pages home (page ∷ pages) s = elim (const_index json page "changes") [
    | err f ↦ (err f, s)
    | ok changes ↦
        (process_entries c home clouds (map (read_change json calendar) (json.elements changes))
            >> process_pages home pages)
          s
  ]

  -- What a batch is reported as, and the database behind it.
  unfoldable pub swept : Result (Unit {0}) × Sweep Folders → Result (List Report) × Connection
  swept (ok u, s) = (ok s.changes, s.db)
  swept (err f, s) = (err f, s.db)

  -- `proccessChanges` of a batch that was popped: `copyMap` empties the registry.
  unfoldable pub process_batch :
      List json.Json → GoogleDrive json.Json → Result (List Report) × GoogleDrive json.Json
  unfolding process_pages swept copy_map
  process_batch pages d =
      let (old, left) = copy_map d.expected_events in
      let (r, db) = swept (
        process_pages d.home pages
          (record { db = d.db; old_expected = prev_events old; memory = []; changes = [] })) in
      (r, record d { expected_events = left; db = db })

  take_batch :
      Option (List json.Json × Queue (List json.Json))
      → GoogleDrive json.Json
      → Result (List Report) × GoogleDrive json.Json
  unfolding process_batch
  take_batch none d = (ok [], d)
  take_batch (some (pages, q)) d = process_batch pages (record d { events_buff = q })

  -- `proccessChanges`
  unfoldable pub process_changes : Stateful (GoogleDrive json.Json) (List Report)
  unfolding try_pop take_batch
  process_changes d = take_batch (try_pop d.events_buff) d
