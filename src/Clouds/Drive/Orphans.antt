-- ===== src/Clouds/Drive/Orphans.antt =====
-- A new folder whose own parent is not known yet, and a file inside it later in the batch.
use sync_harbor.Base.{
  ℕ, ◌≡◌, refl, ap, ◌∙◌, true, false, ◌||◌, none, some, List, [], ◌∷◌, ◌++◌, String, ◌==◌, ==_refl,
  string_eq, if◌then◌else◌,
}
use sync_harbor.Base.Dict.{lookup, insert, lookup-insert}
use sync_harbor.Utils.Kinds.{ChangeType, change_type_eq, EntryType, entry_type_eq}
use sync_harbor.Utils.FilePath.{FilePath, path_eq, empty_path, is_empty}
use sync_harbor.Utils.Texts.{path_text}
use sync_harbor.Database.Connection.{Codes, ok, err, return, ◌>>=◌, ◌>>◌}
use sync_harbor.Database.Read.{get_file_by_cloud_file_id}
use sync_harbor.Changes.Factory.{make_cloud_new}
use sync_harbor.Registry.{Registry, check}
use sync_harbor.Clouds.Sweep.{Sweep, Turn, push_report, alone, unless_old}
use sync_harbor.Clouds.Sweep.Laws.{asks_bind}
use sync_harbor.Clouds.Drive.Entry.{Entry}
use sync_harbor.Clouds.Drive.Courses.{
  is_nowhere, appeared, after_locating, sort_out-appeared, locate_new-appeared,
}
use sync_harbor.Clouds.Drive.Changes.{
  Folders, Home, under, path_in_batch, new_dto, new_rel_path, note_folder, locate_new, sort_out,
  take_entry, process_entry,
}

module _ (c : Codes) (home : Home) (clouds : List ℕ) where
  -- The entry is not trashed, neither it nor its parent is in the database, and its parent is not the
  -- home directory.
  pub record IsStray (e : Entry) (s : Sweep Folders) : Type 0 where
    pub there : (e.trashed || e.parent_id == "") ≡ false
    pub unknown : get_file_by_cloud_file_id c home.id e.cloud_file_id s.db ≡ (ok none, s.db)
    pub fatherless : get_file_by_cloud_file_id c home.id e.parent_id s.db ≡ (ok none, s.db)
    pub below : (e.parent_id == home.home_dir_id) ≡ false

  abbrev remembered : Entry → FilePath → Sweep Folders → Sweep Folders
  remembered e path s = record s { memory = insert e.cloud_file_id path s.memory }

  new_rel_path-stray :
      (e : Entry) (folder : FilePath) (s : Sweep Folders)
      → IsStray e s
      → lookup e.parent_id s.memory ≡ some folder
      → new_rel_path c home e none s ≡ (ok (under folder e.name), s)
  unfolding new_rel_path path_in_batch
  new_rel_path-stray e folder s stray found = rw (stray.below, found) refl

  new_rel_path-lost :
      (e : Entry) (s : Sweep Folders)
      → IsStray e s
      → lookup e.parent_id s.memory ≡ none
      → new_rel_path c home e none s ≡ (ok empty_path, s)
  unfolding new_rel_path path_in_batch
  new_rel_path-lost e s stray lost = rw (stray.below, lost) refl

  note_folder-directory :
      (e : Entry) (path : FilePath) (s : Sweep Folders)
      → (e.type == EntryType.directory) ≡ true
      → note_folder c home e path s ≡ (ok tt, remembered e path s)
  unfolding note_folder
  note_folder-directory e path s is_folder = rw is_folder refl

  locate_new-lost :
      (e : Entry) (s : Sweep Folders)
      → IsStray e s
      → (e.type == EntryType.directory) ≡ true
      → lookup e.parent_id s.memory ≡ none
      → locate_new c home e s ≡ (ok (appeared empty_path), remembered e empty_path s)
  unfolding locate_new
  locate_new-lost e s stray is_folder lost =
      asks_bind (get_file_by_cloud_file_id c home.id e.parent_id)
        (λ parent. new_rel_path c home e parent >>= λ path.
          note_folder c home e path >> return (appeared path))
        s none stray.fatherless
      ∙ ap
          (λ r. elim r.0 [
            | ok path ↦ (note_folder c home e path >> return (appeared path)) r.1
            | err f ↦ (err f, r.1)
          ])
          (new_rel_path-lost e s stray lost)
      ∙ ap (λ r. elim r.0 [ ok at ↦ (ok (appeared empty_path), r.1) | err f ↦ (err f, r.1) ])
          (note_folder-directory e empty_path s is_folder)

  sort_out-lost :
      (e : Entry) (s : Sweep Folders)
      → sort_out c home clouds e (appeared empty_path) s ≡ (ok tt, s)
  unfolding sort_out is_empty
  sort_out-lost e s = refl

  take_entry-new :
      (e : Entry) (s : Sweep Folders)
      → (e.trashed || e.parent_id == "") ≡ false
      → take_entry c home clouds e none s ≡ (locate_new c home e >>= sort_out c home clouds e) s
  unfolding take_entry
  take_entry-new e s there = rw there refl

  process_entry-new :
      (e : Entry) (s : Sweep Folders)
      → IsStray e s
      → process_entry c home clouds e s ≡ (locate_new c home e >>= sort_out c home clouds e) s
  unfolding process_entry
  process_entry-new e s stray =
      asks_bind (get_file_by_cloud_file_id c home.id e.cloud_file_id) (take_entry c home clouds e) s
        none stray.unknown
      ∙ take_entry-new e s stray.there

  process_entry-lost :
      (e : Entry) (s : Sweep Folders)
      → IsStray e s
      → (e.type == EntryType.directory) ≡ true
      → lookup e.parent_id s.memory ≡ none
      → process_entry c home clouds e s ≡ (ok tt, remembered e empty_path s)
  process_entry-lost e s stray is_folder lost =
      process_entry-new e s stray
      ∙ after_locating c home clouds e (locate_new-lost e s stray is_folder lost)
      ∙ sort_out-lost e (remembered e empty_path s)

  process_entry-found :
      (e : Entry) (folder : FilePath) (s : Sweep Folders)
      → IsStray e s
      → (e.type == EntryType.directory) ≡ false
      → lookup e.parent_id s.memory ≡ some folder
      → is_nowhere (under folder e.name) ≡ false
      → process_entry c home clouds e s
        ≡ unless_old true
            (path_text (under folder e.name))
            ChangeType.created
            (push_report
              (alone (make_cloud_new clouds (new_dto c home e (appeared (under folder e.name))))))
            s
  process_entry-found e folder s stray is_file found somewhere =
      process_entry-new e s stray
      ∙ after_locating c home clouds e (
          locate_new-appeared c home clouds e none (under folder e.name) s is_file stray.fatherless
            (new_rel_path-stray e folder s stray found))
      ∙ sort_out-appeared c home clouds e (under folder e.name) s somewhere

  check-unexpected :
      (key : String) (ct : ChangeType) (r : Registry String)
      → lookup key r ≡ none
      → check key ct r ≡ (false, r)
  unfolding check
  check-unexpected key ct r free = rw (free, check) refl

  unless_old-unexpected :
      (key : String) (ct : ChangeType) (rest : Turn Folders) (s : Sweep Folders)
      → lookup key s.old_expected ≡ none
      → unless_old true key ct rest s ≡ rest s
  unfolding unless_old
  unless_old-unexpected key ct rest s free =
      ap
        (λ r.
          if r.0
          then (ok tt, record s { old_expected = r.1 })
          else rest (record s { old_expected = r.1 }))
        (check-unexpected key ct s.old_expected free)

  -- In one batch, a new folder outside the database whose parent is not known and not the home directory
  -- is passed over, and a new file in it whose entry comes directly behind the folder's, whose path is
  -- neither empty nor "." and is not expected, is reported as new at the top of the home directory, under
  -- its bare name.
  pub orphan_is_misplaced :
      (folder file : Entry) (s : Sweep Folders)
      → IsStray folder s
      → (folder.type == EntryType.directory) ≡ true
      → lookup folder.parent_id s.memory ≡ none
      → IsStray file s
      → (file.type == EntryType.directory) ≡ false
      → file.parent_id ≡ folder.cloud_file_id
      → is_nowhere (under empty_path file.name) ≡ false
      → lookup (path_text (under empty_path file.name)) s.old_expected ≡ none
      → (process_entry c home clouds folder >> process_entry c home clouds file) s ≡ (
        ok tt,
        record s {
          memory = insert folder.cloud_file_id empty_path s.memory;
          changes =
              s.changes
              ++ (alone (
                    make_cloud_new clouds
                      (new_dto c home file (appeared (under empty_path file.name))))
                  ∷ []);
        },
      )
  orphan_is_misplaced folder file s f is_folder lost k is_file inside somewhere free =
      let s' = remembered folder empty_path s in
      let path = under empty_path file.name in
      ap (λ r. elim r.0 [ ok u ↦ process_entry c home clouds file r.1 | err x ↦ (err x, r.1) ])
        (process_entry-lost folder s f is_folder lost)
      ∙ process_entry-found file empty_path s'
          (record {
            there = k.there;
            unknown = k.unknown;
            fatherless = k.fatherless;
            below = k.below;
          })
          is_file
          (lookup-insert file.parent_id folder.cloud_file_id empty_path s.memory
            ∙ rw (inside, ==_refl folder.cloud_file_id) refl)
          somewhere
      ∙ unless_old-unexpected (path_text path) ChangeType.created
          (push_report (alone (make_cloud_new clouds (new_dto c home file (appeared path))))) s'
          free
