-- ===== src/Clouds/Drive/Courses.antt =====
-- The course that the loop of `proccessChanges` takes on an entry, case by case.

use sync_harbor.Base.{
  ℕ, ◌≡◌, refl, ap, ◌∙◌, Bool, true, false, ◌||◌, Option, none, List, [], ◌∷◌, ◌==◌, string_eq,
}
use sync_harbor.Utils.Kinds.{ChangeType, EntryType, entry_type_eq}
use sync_harbor.Utils.FilePath.{FilePath, path_eq, empty_path, is_empty, relative}
use sync_harbor.Utils.Texts.{path_text}
use sync_harbor.Utils.Dto.{FileRecordDto}
use sync_harbor.Database.Connection.{Codes, Result, ok, err, return, Stateful, ◌>>=◌, ◌>>◌}
use sync_harbor.Database.Read.{get_file_by_cloud_file_id}
use sync_harbor.Changes.Factory.{make_cloud_new}
use sync_harbor.Clouds.Sweep.{Sweep, push_report, alone, unless_old}
use sync_harbor.Clouds.Sweep.Laws.{asks_bind}
use sync_harbor.Clouds.Drive.Entry.{Entry}
use sync_harbor.Clouds.Drive.Changes.{
  Folders, Home, Located, consider, new_dto, new_rel_path, locate_new, note_folder, sort_out,
  take_entry,
}

abbrev pub is_nowhere : FilePath → Bool
is_nowhere path = is_empty path || path == relative ("." ∷ [])

abbrev pub appeared : FilePath → Located
appeared path = record {
  link = none;
  trashed = false;
  old_path = empty_path;
  new_path = empty_path;
  rel_path = path;
}

module _ (c : Codes) (home : Home) (clouds : List ℕ) where
  pub after_locating :
      {r r' : Result Located × Sweep Folders} (e : Entry)
      → r ≡ r'
      → elim r.0 [ ok at ↦ sort_out c home clouds e at r.1 | err f ↦ (err f, r.1) ]
        ≡ elim r'.0 [ ok at ↦ sort_out c home clouds e at r'.1 | err f ↦ (err f, r'.1) ]
  after_locating e =
      ap (λ r. elim r.0 [ ok at ↦ sort_out c home clouds e at r.1 | err f ↦ (err f, r.1) ])

  note_folder-file :
      (e : Entry) (path : FilePath) (s : Sweep Folders)
      → (e.type == EntryType.directory) ≡ false
      → note_folder c home e path s ≡ (ok tt, s)
  unfolding note_folder
  note_folder-file e path s is_file = rw is_file refl

  abbrev note_appeared : Entry → FilePath → Stateful (Sweep Folders) Located
  note_appeared e path = note_folder c home e path >> return (appeared path)

  pub locate_new-appeared :
      (e : Entry) (parent : Option FileRecordDto) (path : FilePath) (s : Sweep Folders)
      → (e.type == EntryType.directory) ≡ false
      → get_file_by_cloud_file_id c home.id e.parent_id s.db ≡ (ok parent, s.db)
      → new_rel_path c home e parent s ≡ (ok path, s)
      → locate_new c home e s ≡ (ok (appeared path), s)
  unfolding locate_new
  locate_new-appeared e parent path s is_file known placed =
      asks_bind (get_file_by_cloud_file_id c home.id e.parent_id)
        (λ parent. new_rel_path c home e parent >>= note_appeared e) s parent known
      ∙ ap (λ r. elim r.0 [ ok at ↦ note_appeared e at r.1 | err f ↦ (err f, r.1) ]) placed
      ∙ ap (λ r. elim r.0 [ ok at ↦ (ok (appeared path), r.1) | err f ↦ (err f, r.1) ])
          (note_folder-file e path s is_file)

  pub take_entry-appeared :
      (e : Entry) (parent : Option FileRecordDto) (path : FilePath) (s : Sweep Folders)
      → (e.trashed || e.parent_id == "") ≡ false
      → locate_new c home e s ≡ (ok (appeared path), s)
      → take_entry c home clouds e none s ≡ sort_out c home clouds e (appeared path) s
  unfolding take_entry
  take_entry-appeared e parent path s there located = rw there (after_locating e located)

  pub sort_out-appeared :
      (e : Entry) (path : FilePath) (s : Sweep Folders)
      → is_nowhere path ≡ false
      → sort_out c home clouds e (appeared path) s
        ≡ unless_old true
            (path_text path)
            ChangeType.created
            (push_report (alone (make_cloud_new clouds (new_dto c home e (appeared path)))))
            s
  unfolding sort_out consider
  sort_out-appeared e path s somewhere = rw somewhere refl
