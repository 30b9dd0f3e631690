-- ===== src/Clouds/Dropbox/Changes.antt =====
-- `Dropbox::proccessChanges`: what the entries of a batch of pages are reported as. The calls of the
-- database in one batch return the same codes; the map of pending deletions is walked in the order of
-- their entries.
use sync_harbor.Base.{
  ℕ, String, Bool, true, false, not, ◌&&◌, ◌||◌, Option, none, some, List, [], ◌∷◌, ◌++◌, map, ltb,
  ◌==◌, nat_eq, string_eq, if◌then◌else◌,
}
use sync_harbor.Base.Dict.{Dict, emplace, erase}
use sync_harbor.Utils.Kinds.{EntryType, entry_type_eq, ChangeType}
use sync_harbor.Utils.FilePath.{
  FilePath, path_eq, empty_path, relative, is_empty, lexically_relative,
}
use sync_harbor.Utils.Texts.{path_text}
use sync_harbor.Utils.Dto.{
  FileRecordDto, FileUpdatedDto, FileMovedDto, FileDeletedDto, cloud_new_record, cloud_updated,
  cloud_moved, cloud_deleted,
}
use sync_harbor.Database.Connection.{
  Codes, Connection, Method, Result, ok, err, type_failed, Stateful, return, ◌>>=◌, ◌>>◌,
}
use sync_harbor.Database.Read.{
  get_file_by_cloud_file_id, get_cloud_file_id_by_path, get_path_by_global_id,
}
use sync_harbor.Changes.Change.{Change}
use sync_harbor.Changes.Factory.{make_cloud_new, make_cloud_update, make_cloud_move, make_delete}
use sync_harbor.Queue.{Queue, try_pop}
use sync_harbor.Registry.{Registry, copy_map, prev_events}
use sync_harbor.Clouds.Json.{JsonValues, ◌then_read◌, parsed}
use sync_harbor.Clouds.Sweep.{
  Report, alone, differs, Sweep, Turn, Needs, asks, skip, push_report, unless_old, move_then_update,
}
use sync_harbor.Clouds.Dropbox.Entry.{Content, Entry, read_entry}

-- `pending_deletes`
abbrev pub Deletions : Type 0
Deletions = Dict String Change

-- `_id` and `_home_path` of the storage.
pub record Home : Type 0 where
  pub id : ℕ
  pub home_path : FilePath

-- An entry with its id, its path below the home directory, its link and the path of that.
pub record Located : Type 0 where
  pub cloud_file_id : String
  pub rel_path : FilePath
  pub content : Content
  pub link : Option FileRecordDto
  pub old_path : FilePath

module _ (c : Codes) (box : Home) where
  -- The id of a deleted entry, which has none, is the one that the database knows.
  unfoldable pub known_id : Entry → FilePath → Method String
  unfolding get_cloud_file_id_by_path
  known_id e rel_path =
      if e.cloud_file_id == ""
      then get_cloud_file_id_by_path c c rel_path box.id
      else return e.cloud_file_id

  unfoldable pub link_path : Option FileRecordDto → Method FilePath
  unfolding get_path_by_global_id
  link_path none = return empty_path
  link_path (some link) = get_path_by_global_id c link.global_id

  unfoldable pub locate : Entry → FilePath → Stateful (Sweep Deletions) Located
  unfolding known_id link_path
  locate e rel_path = do
    id ← asks (known_id e rel_path)
    content ← λ s. (e.content, s)
    link ← asks (get_file_by_cloud_file_id c box.id id)
    old_path ← asks (link_path link)
    return (record {
      cloud_file_id = id;
      rel_path = rel_path;
      content = content;
      link = link;
      old_path = old_path;
    })

  unfoldable pub new_dto : Entry → Located → FileRecordDto
  unfolding cloud_new_record
  new_dto e at =
      cloud_new_record e.type at.rel_path at.cloud_file_id at.content.size at.content.mtime
        at.content.hash box.id

  unfoldable pub deleted_entry : Located → FileRecordDto → FileDeletedDto
  unfolding cloud_deleted
  deleted_entry at link =
      cloud_deleted at.rel_path link.global_id box.id at.cloud_file_id at.content.mtime

  unfoldable pub moved_entry : Entry → Located → FileRecordDto → FileMovedDto
  unfolding cloud_moved
  moved_entry e at link =
      cloud_moved e.type link.global_id box.id at.cloud_file_id at.content.mtime at.old_path
        at.rel_path "" ""

  unfoldable pub updated_entry : Entry → Located → FileRecordDto → FileUpdatedDto
  unfolding cloud_updated
  updated_entry e at link =
      cloud_updated e.type link.global_id box.id at.cloud_file_id at.content.hash at.content.mtime
        at.rel_path "" at.content.size

  -- `need_update`
  unfoldable pub is_updated : Entry → Located → FileRecordDto → Result Bool
  unfolding differs
  is_updated e at link =
      if not (e.type == EntryType.directory)
        && not e.deleted
        && ltb link.cloud_file_modified_time at.content.mtime
      then differs at.content.hash link.cloud_hash_check_sum
      else ok false

  -- `pending_deletes.erase` of the path that a move reaches.
  unfoldable pub forget_deletion : FilePath → Turn Deletions
  unfolding erase path_text
  forget_deletion rel_path s = (ok tt, record s { memory = erase (path_text rel_path) s.memory })

  -- `pending_deletes.emplace`
  unfoldable pub note_deletion : FilePath → Change → Turn Deletions
  unfolding emplace path_text
  note_deletion rel_path ch s =
      (ok tt, record s { memory = emplace (path_text rel_path) ch s.memory })

  module _ (clouds : List ℕ) where
    -- The reports of a link, behind the tests.
    unfoldable pub report_link : Entry → Located → FileRecordDto → Needs → Turn Deletions
    unfolding deleted_entry moved_entry updated_entry forget_deletion note_deletion
    report_link e at link needs =
        if needs.need_move && needs.need_update
        then (forget_deletion at.rel_path
            >> push_report
                (move_then_update clouds (moved_entry e at link) (updated_entry e at link)))
        else if needs.need_del
        then note_deletion at.rel_path (make_delete clouds (deleted_entry at link))
        else if needs.need_move
        then (forget_deletion at.rel_path
            >> push_report (alone (make_cloud_move clouds (moved_entry e at link))))
        else if needs.need_update
        then push_report (alone (make_cloud_update clouds (updated_entry e at link)))
        else skip

    -- The tests of a link against what the program expects.
    unfoldable pub consider_link : Entry → Located → FileRecordDto → Bool → Turn Deletions
    unfolding unless_old report_link path_eq path_text
    consider_link e at link need_update =
        let needs : Needs = record {
          need_new = false;
          need_del = e.deleted;
          need_move = not e.deleted && not (at.rel_path == at.old_path);
          need_update = need_update;
        } in
        unless_old needs.need_del (path_text at.rel_path) ChangeType.deleted (
          unless_old needs.need_move at.cloud_file_id ChangeType.moved (
            unless_old needs.need_update at.cloud_file_id ChangeType.updated
              (report_link e at link needs)))

    -- What becomes of an entry once it is located.
    unfoldable pub consider : Entry → Located → Option FileRecordDto → Turn Deletions
    unfolding consider_link is_updated new_dto unless_old path_text
    consider e at none s =
        if e.deleted
        then (ok tt, s)
        else unless_old true (path_text at.rel_path) ChangeType.created
            (push_report (alone (make_cloud_new clouds (new_dto e at)))) s
    consider e at (some link) s = elim (is_updated e at link) [
      | err f ↦ (err f, s)
      | ok need_update ↦ consider_link e at link need_update s
    ]

    -- The body of the loops: an entry that is not below the home directory is passed over.
    unfoldable pub process_entry : Entry → Turn Deletions
    unfolding locate consider is_empty path_eq lexically_relative
    process_entry e =
        let rel_path = lexically_relative e.path box.home_path in
        if is_empty rel_path || rel_path == relative ("." ∷ [])
        then skip
        else (locate e rel_path >>= λ at. consider e at at.link)

    -- The inner loop.
    unfoldable pub process_entries : List (Result Entry) → Turn Deletions
    unfolding process_entry
    process_entries [] s = (ok tt, s)
    process_entries (err f ∷ entries) s = (err f, s)
    process_entries (ok e ∷ entries) s = (process_entry e >> process_entries entries) s

-- `Dropbox` with its queue of batches, which are texts, and what it expects.
pub record Dropbox : Type 0 where
  pub home : Home
  pub events_buff : Queue (List String)
  pub expected_events : Registry String
  pub db : Connection

-- The loop over `pending_deletes` behind the others.
unfoldable pub pending_reports : Deletions → List Report
pending_reports [] = []
pending_reports ((path, del) ∷ pending) = alone del ∷ pending_reports pending

module _ (json : JsonValues) (calendar : String → ℕ) (c : Codes) (clouds : List ℕ) where
  -- `j.value("entries", nlohmann::json::array())`
  unfoldable pub entries_of : json.Json → Result (List json.Json)
  entries_of j = elim (json.member j "entries") [
    | none ↦ err type_failed
    | some none ↦ ok []
    | some (some x) ↦ ok (json.elements x)
  ]

  unfoldable pub read_page : String → Result (List json.Json)
  unfolding parsed entries_of
  read_page raw = parsed json raw then_read entries_of

  -- The loop over the pages.
  unfoldable pub process_pages : Home → List String → Turn Deletions
  unfolding read_page read_entry process_entries
  process_pages home [] s = (ok tt, s)
  process_pages home (raw ∷ pages) s = elim (read_page raw) [
    | err f ↦ (err f, s)
    | ok entries ↦
        (process_entries c home clouds (map (read_entry json calendar) entries)
            >> process_pages home pages)
          s
  ]

  -- What a batch is reported as, the deletions at its end, and the database behind it.
  unfoldable pub swept : Result (Unit {0}) × Sweep Deletions → Result (List Report) × Connection
  unfolding pending_reports
  swept (ok u, s) = (ok (s.changes ++ pending_reports s.memory), s.db)
  swept (err f, s) = (err f, s.db)

  -- `proccessChanges` of a batch that was popped: `copyMap` empties the registry.
  unfoldable pub process_batch : List String → Dropbox → Result (List Report) × Dropbox
  unfolding process_pages swept copy_map
  process_batch pages d =
      let (old, left) = copy_map d.expected_events in
      let (r, db) = swept (
        process_pages d.home pages
          (record { db = d.db; old_expected = prev_events old; memory = []; changes = [] })) in
      (r, record d { expected_events = left; db = db })

  unfoldable pub take_batch :
      Option (List String × Queue (List String)) → Dropbox → Result (List Report) × Dropbox
  unfolding process_batch
  take_batch none d = (ok [], d)
  take_batch (some (pages, q)) d = process_batch pages (record d { events_buff = q })

  -- `proccessChanges`
  unfoldable pub process_changes : Stateful Dropbox (List Report)
  unfolding try_pop take_batch
  process_changes d = take_batch (try_pop d.events_buff) d
