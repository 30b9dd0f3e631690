-- ===== src/Clouds/Drive/Echo.antt =====
-- The changes that the program makes in Google Drive itself are passed over when the drive reports them.
use mathlib.Core.Path.{subst}
use sync_harbor.Base.{
  ℕ, ◌≡◌, refl, sym, ap, ◌∙◌, Bool, true, false, ◌||◌, Option, none, List, String, arith, ◌==◌,
  string_eq,
}
use sync_harbor.Base.Dict.{lookup}
use sync_harbor.Utils.Kinds.{ChangeType, EntryType, entry_type_eq}
use sync_harbor.Utils.FilePath.{FilePath, path_eq}
use sync_harbor.Utils.Texts.{path_text}
use sync_harbor.Utils.Dto.{FileRecordDto}
use sync_harbor.Base.{All, find, keep, not, ◌&&◌, [], ◌∷◌, if◌then◌else◌}
use sync_harbor.Database.Connection.{Codes, ok, ◌>>=◌}
use sync_harbor.Database.Tables.{Tables, LinkRow, is_cloud_file, is_link_of}
use sync_harbor.Database.Calls.{idle, all_ok}
use sync_harbor.Database.Write.{delete_file_and_links}
use sync_harbor.Database.Files.{reads, delete_file_and_links_lem}
use sync_harbor.Database.Read.{get_file_by_cloud_file_id}
use sync_harbor.Registry.{add}
use sync_harbor.Changes.Factory.{make_cloud_new}
use sync_harbor.Clouds.Json.{JsonValues}
use sync_harbor.Clouds.Request.{Request, Side, uploads}
use sync_harbor.Clouds.Sweep.{Sweep, push_report, alone, skip}
use sync_harbor.Clouds.Sweep.Laws.{asks_bind, IsPassedOver, unless_old-IsPassedOver}
use sync_harbor.Clouds.Drive.Entry.{Entry}
use sync_harbor.Clouds.Drive.Requests.{Account, setup_upload, upload_parent, set_up}
use sync_harbor.Clouds.Drive.Courses.{
  is_nowhere, appeared, take_entry-appeared, sort_out-appeared, locate_new-appeared,
}
use sync_harbor.Clouds.Drive.Changes.{
  Folders, Home, new_dto, new_rel_path, take_entry, process_entry, locate_new, sort_out,
}

module _ (json : JsonValues) (escape : String → String) (opens : FilePath → Bool) (c : Codes)
    (drive : Account) where
  upload-expects :
      (dto : FileRecordDto) (side : Side) (r : Request)
      → (set_up json escape opens c drive (uploads dto) side).0 ≡ ok r
      → (set_up json escape opens c drive (uploads dto) side).1.expected_events
        ≡ add (path_text dto.rel_path) ChangeType.created side.expected_events
  unfolding set_up setup_upload upload_parent
  upload-expects dto side r succeeded = ground arith

  module _ (home : Home) (clouds : List ℕ) where
    -- Where no event is expected of the path: after `setupUploadHandle` of a file returned, an entry that
    -- the database does not know, no folder and not trashed, in a parent that is given, whose path is
    -- found to be that of the file, reports nothing, and from then on exactly what was expected before is
    -- expected.
    pub drive_upload_echo :
        (dto : FileRecordDto) (side : Side) (r : Request) (e : Entry)
        (parent : Option FileRecordDto) (s : Sweep Folders)
        → lookup (path_text dto.rel_path) side.expected_events ≡ none
        → (set_up json escape opens c drive (uploads dto) side).0 ≡ ok r
        → s.old_expected ≡ (set_up json escape opens c drive (uploads dto) side).1.expected_events
        → (e.trashed || e.parent_id == "") ≡ false
        → (e.type == EntryType.directory) ≡ false
        → get_file_by_cloud_file_id c home.id e.cloud_file_id s.db ≡ (ok none, s.db)
        → get_file_by_cloud_file_id c home.id e.parent_id s.db ≡ (ok parent, s.db)
        → new_rel_path c home e parent s ≡ (ok dto.rel_path, s)
        → is_nowhere dto.rel_path ≡ false
        → IsPassedOver side.expected_events s (process_entry c home clouds e s)
    unfolding process_entry
    drive_upload_echo dto side r e parent s free succeeded expected there is_file unknown known
          placed somewhere =
        subst (IsPassedOver side.expected_events s)
          (sym (
            asks_bind (get_file_by_cloud_file_id c home.id e.cloud_file_id)
              (take_entry c home clouds e) s none unknown
            ∙ take_entry-appeared c home clouds e parent dto.rel_path s there
                (locate_new-appeared c home clouds e parent dto.rel_path s is_file known placed)
            ∙ sort_out-appeared c home clouds e dto.rel_path s somewhere))
          (unless_old-IsPassedOver side.expected_events s (path_text dto.rel_path)
            ChangeType.created
            (push_report (alone (make_cloud_new clouds (new_dto c home e (appeared dto.rel_path)))))
            free (expected ∙ upload-expects dto side r succeeded))

find-unlinked :
    (g cloud : ℕ) (id : String) (ls : List LinkRow)
    → All (λ l. (is_cloud_file cloud id l && not (is_link_of g l)) ≡ false) ls
    → find (is_cloud_file cloud id) (keep (λ l. not (is_link_of g l)) ls) ≡ none
unfolding find keep
find-unlinked g cloud id [] h = refl
find-unlinked g cloud id (l ∷ ls) h = ground (arith, h.0, find-unlinked g cloud id ls h.1)

deleted_is_unknown :
    (c c' : Codes) (g cloud : ℕ) (id : String) (t : Tables)
    → all_ok c ≡ true
    → reads c' ≡ true
    → All (λ l. (is_cloud_file cloud id l && not (is_link_of g l)) ≡ false) t.file_links
    → let db = (delete_file_and_links c g (idle t)).1 in
      get_file_by_cloud_file_id c' cloud id db ≡ (ok none, db)
unfolding get_file_by_cloud_file_id
deleted_is_unknown c c' g cloud id t h r only =
    rw (delete_file_and_links_lem c g t h)
      (ground (arith, r, find-unlinked g cloud id t.file_links only))

-- Where SQLite reports no error and no other file is linked to the id in this drive: once
-- `LocalDeleteCommand` has taken the file and its links out of the database, an entry of the drive that
-- says that the id is trashed is passed over: it leads to no report, and uses up nothing that is expected.
pub drive_deletion_echo :
    (c c' : Codes) (home : Home) (clouds : List ℕ) (g : ℕ) (t : Tables) (e : Entry)
    (s : Sweep Folders)
    → all_ok c ≡ true
    → reads c' ≡ true
    → All
        (λ l. (is_cloud_file home.id e.cloud_file_id l && not (is_link_of g l)) ≡ false)
        t.file_links
    → s.db ≡ (delete_file_and_links c g (idle t)).1
    → e.trashed ≡ true
    → process_entry c' home clouds e s ≡ (ok tt, s)
unfolding process_entry take_entry
drive_deletion_echo c c' home clouds g t e s h r only deleted trashed =
    asks_bind (get_file_by_cloud_file_id c' home.id e.cloud_file_id) (take_entry c' home clouds e) s
      none
      (subst (λ db. get_file_by_cloud_file_id c' home.id e.cloud_file_id db ≡ (ok none, db))
        (sym deleted) (deleted_is_unknown c c' g home.id e.cloud_file_id t h r only))
    ∙ ap
        (λ b.
          (if b || e.parent_id == ""
              then skip
              else (locate_new c' home e >>= sort_out c' home clouds e))
            s)
        trashed
