-- ===== src/Clouds/Dropbox/Ordering.antt =====
-- What the entries of one batch do to the reports and to the deletions that wait.
pub mod Batch
use sync_harbor.Base.{
  ℕ, ◌≡◌, refl, ◌∙◌, Bool, true, false, not, ◌&&◌, ◌||◌, ◌⊎◌, arith, Bool-cases, inl, inr, String,
  Option, none, some, List, [], ◌∷◌, ◌++◌, map, All, All-append, ◌==◌, string_eq, if◌then◌else◌,
}
use sync_harbor.Base.Dict.{emplace, erase}
use sync_harbor.Utils.Kinds.{ChangeType, change_type_eq, EntryType}
use sync_harbor.Utils.FilePath.{FilePath, path_eq, relative, is_empty, lexically_relative}
use sync_harbor.Utils.Texts.{path_text}
use sync_harbor.Utils.Dto.{FileRecordDto, FileUpdatedDto, FileMovedDto, FileDeletedDto}
use sync_harbor.Database.Connection.{Codes, Failure, Method, Result, ok, err, Stateful, ◌>>=◌, ◌>>◌}
use sync_harbor.Changes.Change.{Change, new_change, add_to_chain, on_command_created}
use sync_harbor.Changes.Factory.{
  make, make_cloud_new, make_cloud_update, make_cloud_move, make_delete,
}
use sync_harbor.Local.Frame.{Ends, does_bind, does_if}
use sync_harbor.Registry.{check}
use sync_harbor.Clouds.Json.{JsonValues}
use sync_harbor.Clouds.Json.Gives.{Gives, given_ok}
use sync_harbor.Queue.{Queue, try_pop}
use sync_harbor.Clouds.Sweep.{
  Report, Sweep, Turn, Needs, asks, unless_old, skip, push_report, alone, move_then_update,
}
use sync_harbor.Clouds.Dropbox.Entry.{Entry, read_entry}
use sync_harbor.Clouds.Dropbox.Changes.{
  Deletions, Home, Located, new_dto, deleted_entry, moved_entry, updated_entry, is_updated, locate,
  report_link, consider_link, consider, process_entry, process_entries, read_page, take_batch,
  pending_reports, process_pages, Dropbox, swept, process_batch, process_changes, forget_deletion,
  note_deletion,
}
use sync_harbor.Clouds.Dropbox.Kept.{
  IsDeletion, IsOther, IsPending, IsOrdered, Keeps, Keeps-trans, make_delete-type,
  make_cloud_new-IsOther, make_cloud_move-IsOther, make_cloud_update-IsOther, report-Keeps,
  erase-IsPending, emplace-IsPending, unless_old-Keeps, asks-Keeps, skips, chooses, result-cases,
}

module _ (c : Codes) (home : Home) (clouds : List ℕ) where
  locate-changes :
      (e : Entry) (rel_path : FilePath) (s : Sweep Deletions)
      → (locate c home e rel_path s).1.changes ≡ s.changes
  unfolding locate
  locate-changes e rel_path s = ground arith

  locate-memory :
      (e : Entry) (rel_path : FilePath) (s : Sweep Deletions)
      → (locate c home e rel_path s).1.memory ≡ s.memory
  unfolding locate
  locate-memory e rel_path s = ground arith

  locate-Keeps :
      (e : Entry) (rel_path : FilePath) (s : Sweep Deletions)
      → Keeps s (locate c home e rel_path s).1
  locate-Keeps e rel_path s o = record {
    others = rw (locate-changes e rel_path s) o.others;
    pending = rw (locate-memory e rel_path s) o.pending;
  }

  moves_with_update :
      (e : Entry) (at : Located) (link : FileRecordDto) (s : Sweep Deletions)
      → Keeps s (record s {
        memory = erase (path_text at.rel_path) s.memory;
        changes =
            s.changes
            ++ (move_then_update clouds
                  (moved_entry c home e at link)
                  (updated_entry c home e at link)
                ∷ []);
      })
  moves_with_update e at link s =
      report-Keeps s _ _ (make_cloud_move-IsOther clouds (moved_entry c home e at link))
        (erase-IsPending (path_text at.rel_path) s.memory)

  deletes_later :
      (at : Located) (link : FileRecordDto) (s : Sweep Deletions)
      → Keeps s (record s {
        memory =
            emplace
              (path_text at.rel_path)
              (make_delete clouds (deleted_entry c home at link))
              s.memory;
      })
  deletes_later at link s o = record {
    others = o.others;
    pending =
        emplace-IsPending (path_text at.rel_path)
          (make_delete clouds (deleted_entry c home at link)) s.memory
          (make_delete-type clouds (deleted_entry c home at link)) o.pending;
  }

  moves :
      (e : Entry) (at : Located) (link : FileRecordDto) (s : Sweep Deletions)
      → Keeps s (record s {
        memory = erase (path_text at.rel_path) s.memory;
        changes = s.changes ++ (alone (make_cloud_move clouds (moved_entry c home e at link)) ∷ []);
      })
  moves e at link s =
      report-Keeps s _ _ (make_cloud_move-IsOther clouds (moved_entry c home e at link))
        (erase-IsPending (path_text at.rel_path) s.memory)

  updates :
      (e : Entry) (at : Located) (link : FileRecordDto) (s : Sweep Deletions)
      → Keeps s (record s {
        changes =
            s.changes ++ (alone (make_cloud_update clouds (updated_entry c home e at link)) ∷ []);
      })
  updates e at link s =
      report-Keeps s _ _ (make_cloud_update-IsOther clouds (updated_entry c home e at link))
        (λ h. h)

  report_link-Keeps :
      (e : Entry) (at : Located) (link : FileRecordDto) (needs : Needs) (s : Sweep Deletions)
      → Ends Keeps s (report_link c home clouds e at link needs s)
  unfolding report_link forget_deletion note_deletion
  report_link-Keeps e at link needs s = elim (Bool-cases (needs.need_move && needs.need_update)) [
    | inl both ↦ rw both (record { related = moves_with_update e at link s })
    | inr one ↦ elim (Bool-cases needs.need_del) [
      | inl del ↦ rw (one, del) (record { related = deletes_later at link s })
      | inr keep ↦ elim (Bool-cases needs.need_move) [
        | inl move ↦ rw (one, keep, move) (record { related = moves e at link s })
        | inr stay ↦ elim (Bool-cases needs.need_update) [
          | inl update ↦ rw (one, keep, stay, update) (record { related = updates e at link s })
          | inr same ↦ rw (one, keep, stay, same) skips
        ]
      ]
    ]
  ]

  abbrev needs_of : Entry → Located → Bool → Needs
  needs_of e at need_update = record {
    need_new = false;
    need_del = e.deleted;
    need_move = not e.deleted && not (at.rel_path == at.old_path);
    need_update = need_update;
  }

  consider_link-Keeps :
      (e : Entry) (at : Located) (link : FileRecordDto) (need_update : Bool) (s : Sweep Deletions)
      → Ends Keeps s (consider_link c home clouds e at link need_update s)
  unfolding consider_link
  consider_link-Keeps e at link need_update s =
      let needs : Needs = needs_of e at need_update in
      let third : Turn Deletions =
        unless_old needs.need_update at.cloud_file_id ChangeType.updated
          (report_link c home clouds e at link needs) in
      unless_old-Keeps needs.need_del (path_text at.rel_path) ChangeType.deleted
        (unless_old needs.need_move at.cloud_file_id ChangeType.moved third) s
        λ s1. unless_old-Keeps needs.need_move at.cloud_file_id ChangeType.moved third s1 λ s2.
          unless_old-Keeps needs.need_update at.cloud_file_id ChangeType.updated
            (report_link c home clouds e at link needs) s2 (report_link-Keeps e at link needs)

  consider-Keeps :
      (e : Entry) (at : Located) (link : Option FileRecordDto) (s : Sweep Deletions)
      → Ends Keeps s (consider c home clouds e at link s)
  unfolding consider
  consider-Keeps e at none s = elim (Bool-cases e.deleted) [
    | inl gone ↦ rw gone skips
    | inr there ↦ rw there (
        unless_old-Keeps true (path_text at.rel_path) ChangeType.created
          (push_report (alone (make_cloud_new clouds (new_dto c home e at)))) s
          λ s1. record {
            related =
                report-Keeps s1 (alone (make_cloud_new clouds (new_dto c home e at))) s1.memory
                  (make_cloud_new-IsOther clouds (new_dto c home e at)) (λ h. h);
          })
  ]
  consider-Keeps e at (some link) s = elim (result-cases (is_updated c home e at link)) [
    | inl (need_update, u) ↦ rw (u, consider) (consider_link-Keeps e at link need_update s)
    | inr (f, u) ↦ rw (u, consider) (record { related = λ o. o })
  ]

  process_entry-Keeps :
      (e : Entry) (s : Sweep Deletions) → Ends Keeps s (process_entry c home clouds e s)
  unfolding process_entry
  process_entry-Keeps e s =
      let rel_path = lexically_relative e.path home.home_path in
      chooses (is_empty rel_path || rel_path == relative ("." ∷ [])) s skip
        (locate c home e rel_path >>= λ at. consider c home clouds e at at.link) skips
        (does_bind Keeps-trans (locate c home e rel_path)
          (λ at. consider c home clouds e at at.link) s (locate-Keeps e rel_path s)
          (λ at. consider-Keeps e at at.link))

  process_entries-Keeps :
      (entries : List (Result Entry)) (s : Sweep Deletions)
      → Ends Keeps s (process_entries c home clouds entries s)
  unfolding process_entries
  process_entries-Keeps [] s = skips
  process_entries-Keeps (err f ∷ entries) s = record { related = λ o. o }
  process_entries-Keeps (ok e ∷ entries) s =
      does_bind Keeps-trans (process_entry c home clouds e)
        (λ u. process_entries c home clouds entries) s (process_entry-Keeps e s).related
        (λ u. process_entries-Keeps entries)
