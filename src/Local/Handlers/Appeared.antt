-- ===== src/Local/Handlers/Appeared.antt =====
-- A rename that comes without its other path.
use sync_harbor.Base.Dict.{lookup}
use sync_harbor.Registry.{check}
use sync_harbor.Queue.{push}
use sync_harbor.Changes.Factory.{make_local_new}
use sync_harbor.Local.Names.{ignore_tmp}
use sync_harbor.Base.{
  ℕ, ◌≡◌, refl, ap, ◌∙◌, true, false, Option, none, some, List, [], ◌∷◌, All, find, arith,
  if◌then◌else◌,
}
use sync_harbor.Utils.FilePath.{FilePath, path_eq}
use sync_harbor.Utils.Dto.{FileRecordDto, FileEvent}
use sync_harbor.Database.Tables.{FileRow, is_path}
use sync_harbor.Database.Connection.{Codes, Connection, Result, ok, err, ◌>>=◌}
use sync_harbor.Database.Read.{get_file_by_path}
use sync_harbor.Database.Files.{reads}
use sync_harbor.Local.State.{FileSystem, LocalStorage, on_db}
use sync_harbor.Local.Handlers.{
  handle_deleted, handle_renamed, rename_with, handle_appeared, appear_found, create_tree,
  create_below, handle_created, report_created, created_record, created_size,
}

find_relative :
    (p : FilePath) (files : List FileRow)
    → p.rooted ≡ true
    → All (λ (r : FileRow). r.path.rooted ≡ false) files
    → find (is_path p) files ≡ none
unfolding find
find_relative p [] h k = refl
find_relative p (r ∷ files) h k = ground (
  arith,
  find_relative p files h k.1,
  k.0,
  h,
  ap (λ (p : FilePath). p.rooted) {x = r.path} {y = p},
)

module _ (fs : FileSystem) (c : Codes) (clouds : List ℕ) where
  path_unknown :
      (p : FilePath) (db : Connection)
      → reads c ≡ true
      → p.rooted ≡ true
      → All (λ (r : FileRow). r.path.rooted ≡ false) db.tables.files
      → get_file_by_path c p db ≡ (ok none, db)
  unfolding get_file_by_path
  path_unknown p db r absolute relative =
      ground (arith, find_relative p db.tables.files absolute relative)

  handle_unknown :
      (evt : FileEvent) (s : LocalStorage fs.Disk)
      → get_file_by_path c evt.path s.db ≡ (ok none, s.db)
      → (on_db (get_file_by_path c evt.path) >>= appear_found fs c clouds evt) s
        ≡ create_tree fs c clouds evt s
  unfolding appear_found
  handle_unknown evt s unknown =
      ap
        (λ (o : Result (Option FileRecordDto) × Connection).
          elim o.0 as (λ _. Result (Unit {0}) × LocalStorage fs.Disk) [
            | ok found ↦ appear_found fs c clouds evt found (record s { db = o.1 })
            | err e ↦ (err e, record s { db = o.1 })
          ])
        unknown

  created_at :
      (evt : FileEvent) (s : LocalStorage fs.Disk) (sz : ℕ)
      → fs.is_directory s.disk evt.path ≡ false
      → ignore_tmp evt.path ≡ false
      → lookup evt.path s.expected_events ≡ none
      → created_size fs c clouds s.disk evt.path ≡ some sz
      → let change = make_local_new clouds (created_record fs c clouds evt s sz) in
        create_tree fs c clouds evt s
        ≡ (ok tt, record s { changes_queue = push s.changes_queue change })
  unfolding create_tree create_below handle_created report_created check
  created_at evt s sz file kept unexpected size = ground (arith, file, kept, unexpected, size)

  -- `handleRenamed` looks an absolute path up among relative ones. So where the queries run and every
  -- stored path is relative, whatever is renamed into the directory without its old path, is no directory,
  -- not named like a temporary one, not expected, and has a size, is reported as new: behind the changes
  -- that wait comes the one that brings it to every cloud, also if the database has the file at this path,
  -- and nothing else changes.
  pub appeared_is_created :
      (evt : FileEvent) (s : LocalStorage fs.Disk) (sz : ℕ)
      → reads c ≡ true
      → All (λ (r : FileRow). r.path.rooted ≡ false) s.db.tables.files
      → evt.path.rooted ≡ true
      → evt.associated ≡ none
      → fs.exists s.disk evt.path ≡ true
      → fs.is_directory s.disk evt.path ≡ false
      → ignore_tmp evt.path ≡ false
      → lookup evt.path s.expected_events ≡ none
      → created_size fs c clouds s.disk evt.path ≡ some sz
      → let change = make_local_new clouds (created_record fs c clouds evt s sz) in
        handle_renamed fs c clouds evt s
        ≡ (ok tt, record s { changes_queue = push s.changes_queue change })
  unfolding handle_renamed rename_with handle_appeared
  appeared_is_created evt s sz r relative absolute alone there file kept unexpected size =
      ap (λ associated. rename_with fs c clouds evt associated s) alone
      ∙ ap
          (λ b.
            if b
            then (on_db (get_file_by_path c evt.path) >>= appear_found fs c clouds evt) s
            else handle_deleted fs c clouds evt s)
          there
      ∙ handle_unknown evt s (path_unknown evt.path s.db r absolute relative)
      ∙ created_at evt s sz file kept unexpected size
