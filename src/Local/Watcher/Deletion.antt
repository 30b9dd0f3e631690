-- ===== src/Local/Watcher/Deletion.antt =====
-- A deletion on its way from the watcher to a change.
use sync_harbor.Base.{ℕ, ◌≡◌, ap, ◌∙◌, true, false, none, some, List, [], ◌∷◌, ◌++◌, arith}
use sync_harbor.Base.Dict.{lookup}
use sync_harbor.Utils.Kinds.{ChangeType, change_type_eq}
use sync_harbor.Utils.FilePath.{FilePath, path_eq, lexically_relative}
use sync_harbor.Utils.Dto.{FileRecordDto, FileEvent, file_event, local_deleted}
use sync_harbor.Database.Connection.{Codes, ok, ◌>>=◌}
use sync_harbor.Database.Read.{get_file_by_path}
use sync_harbor.Changes.Factory.{make_delete}
use sync_harbor.Queue.{push}
use sync_harbor.Registry.{check}
use sync_harbor.Local.Names.{ignore_tmp}
use sync_harbor.Local.State.{FileSystem, LocalStorage, from_watcher_time}
use sync_harbor.Local.Handlers.{
  delete_found, report_deleted, is_replaced, delete_unless_replaced, handle_deleted, handle_as,
  handle_event,
}
use sync_harbor.Local.Watcher.{
  destroy, WatcherEvent, noted, is_dropped, on_fs_event, handle_events, take_changes,
  process_changes,
}

module _ (fs : FileSystem) (c : Codes) (clouds : List ℕ) where
  -- The file was there, is gone, and nobody expects it to go.
  pub record IsTrueDeletion (path : FilePath) (rec : FileRecordDto) (s : LocalStorage fs.Disk)
      : Type 0 where
    pub unexpected : lookup path s.expected_events ≡ none
    pub kept : ignore_tmp path ≡ false
    pub gone : is_replaced fs c clouds s.disk path ≡ false
    pub known :
        get_file_by_path c (lexically_relative path s.local_home_dir) s.db ≡ (ok (some rec), s.db)

  handle_deletion :
      (path : FilePath) (when : ℕ) (rec : FileRecordDto) (s : LocalStorage fs.Disk)
      → IsTrueDeletion path rec s
      → let rel = lexically_relative path s.local_home_dir in
        let change = make_delete clouds (local_deleted rel rec.global_id when) in
        handle_event fs c clouds (file_event path when ChangeType.deleted) s
        ≡ (ok tt, record s { changes_queue = push s.changes_queue change })
  unfolding handle_event handle_as handle_deleted delete_unless_replaced report_deleted delete_found
      file_event check
  handle_deletion path when rec s d = ground (arith, d.unexpected, d.kept, d.gone, d.known)

  noted_deletion :
      (e : WatcherEvent) (s : LocalStorage fs.Disk)
      → e.effect_type ≡ destroy
      → is_dropped fs e s ≡ false
      → let evt = file_event e.path_name (from_watcher_time e.effect_time) ChangeType.deleted in
        on_fs_event fs e s ≡ (true, record s { events_buff = push s.events_buff evt })
  unfolding on_fs_event noted
  noted_deletion e s destroyed here = ground (arith, destroyed, here)

  -- The only event that waits, and the state that its handler leaves.
  process_one :
      (evt : FileEvent) (s s' : LocalStorage fs.Disk)
      → s.events_buff.items ≡ evt ∷ []
      → handle_event fs c clouds evt
          (record s { events_buff = record s.events_buff { items = [] } })
        ≡ (ok tt, s')
      → (process_changes fs c clouds s).0 ≡ ok s'.changes_queue.items
  unfolding process_changes handle_events take_changes
  process_one evt s s' one handled =
      ap (λ evts. ((handle_events fs c clouds evts >>= λ _. take_changes fs c clouds) s).0) one
      ∙ ground (arith, handled)

  -- Where no other event waits, and the watcher reports that a file is gone which the database knows and
  -- nobody expects to go, is not named like a temporary one and of which no temporary one stands beside it: `onFsEvent` calls
  -- `_onChange`, and `proccessChanges` returns the changes that waited and behind them the one that
  -- deletes the file with its key everywhere, dated to the second of the event.
  pub deletion_is_reported :
      (e : WatcherEvent) (rec : FileRecordDto) (s : LocalStorage fs.Disk)
      → e.effect_type ≡ destroy
      → is_dropped fs e s ≡ false
      → s.events_buff.items ≡ []
      → IsTrueDeletion e.path_name rec s
      → let (calls, s') = on_fs_event fs e s in
        let rel = lexically_relative e.path_name s.local_home_dir in
        let dto = local_deleted rel rec.global_id (from_watcher_time e.effect_time) in
        (calls ≡ true)
        × ((process_changes fs c clouds s').0
            ≡ ok (s.changes_queue.items ++ (make_delete clouds dto ∷ [])))
  unfolding on_fs_event noted process_changes handle_events take_changes push
  deletion_is_reported e rec s destroyed here empty d =
      let popped = record s { events_buff = record s.events_buff { items = [] } } in
      let step = noted_deletion e s destroyed here in
      (
        ap (λ o. o.0) step,
        ap (λ o. (process_changes fs c clouds o.1).0) step
            ∙ process_one
                (file_event e.path_name (from_watcher_time e.effect_time) ChangeType.deleted) _ _
                (ap
                  (λ l.
                    l
                    ++ (file_event e.path_name (from_watcher_time e.effect_time) ChangeType.deleted
                        ∷ []))
                  empty)
                (handle_deletion e.path_name (from_watcher_time e.effect_time) rec popped (record {
                  unexpected = d.unexpected;
                  kept = d.kept;
                  gone = d.gone;
                  known = d.known;
                })),
      )
