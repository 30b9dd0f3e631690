-- ===== src/Local/Handlers/Reports.antt =====
-- The changes that the handlers make of events.
use mathlib.Core.List.{append-nil, append_assoc}
use sync_harbor.Base.{
  ℕ, ◌≡◌, refl, sym, ap, ◌∙◌, true, Option, none, some, List, [], ◌∷◌, ◌++◌, All, All-append,
  nat_eq,
}
use sync_harbor.Base.Int.{pos}
use sync_harbor.Utils.Kinds.{ChangeType}
use sync_harbor.Utils.FilePath.{FilePath, lexically_relative}
use sync_harbor.Utils.Dto.{FileEvent, AssociatedEvent, associated_event, file_event}
use sync_harbor.Database.Connection.{Codes, ok}
use sync_harbor.Database.Read.{get_file_by_path, get_file_by_file_id}
use sync_harbor.Changes.Command.{
  local_upload, local_update, local_move, local_delete, Command, CommandKind, Payload, is_local,
  kind_of,
}
use sync_harbor.Changes.Change.{Change, pending, new_change, on_command_created, add_to_chain}
use sync_harbor.Changes.Factory.{
  make, make_local_new, make_local_update, make_local_move, make_delete,
}
use sync_harbor.Changes.Factory.Coverage.{chain_size, make-pending_cmds}
use sync_harbor.Queue.{Queue, push}
use sync_harbor.Registry.{check}
use sync_harbor.Utils.FilePath.{path_eq}
use sync_harbor.Utils.Dto.{FileRecordDto}
use sync_harbor.Dispatcher.{sync_db_update}
use sync_harbor.Utils.Dto.{FileUpdatedDto}
use sync_harbor.Local.State.{
  get_file_id, FileSystem, LocalStorage, Step, on_db, require, push_change, unless_expected,
}
use sync_harbor.Local.Handlers.{
  delete_found, report_deleted, delete_unless_replaced, handle_deleted, created_size,
  created_record, report_created, handle_created, store_update, updated_record, report_updated,
  find_updated, update_found, handle_updated, move_found, report_moved, handle_moved,
  create_entries, create_below, create_tree, appear_found, handle_appeared, rename_with,
  handle_renamed, handle_as, handle_event,
}
use sync_harbor.Local.Frame.{Ends, does_bind, does_if}

-- A change that can be dispatched: its one first command is a local one, and its counter is the
-- number of its commands.
pub record IsReport (ch : Change) : Type 0 where
  pub first : (c : Command) × (ch.cmd_chain ≡ c ∷ []) × (is_local (kind_of c) ≡ true)
  pub counted : ch.pending_cmds ≡ pos (chain_size ch.cmd_chain)
  pub waits : ch.status ≡ pending

-- The changes that are added to those that wait, with the noted events left alone.
pub record Adds {D : Type 0} (s s' : LocalStorage D) : Type 0 where
  pub events_stay : s'.events_buff ≡ s.events_buff
  pub new : List Change
  pub reports : All IsReport new
  pub grown : s'.changes_queue.items ≡ s.changes_queue.items ++ new

make-IsReport :
    (clouds : List ℕ) (initial : CommandKind) (kinds : List CommandKind) (type : ChangeType)
    (time : ℕ) (path : FilePath) (dto : Payload) (src : ℕ)
    → is_local initial ≡ true
    → IsReport (make clouds initial kinds type time path dto src)
unfolding make kind_of new_change on_command_created add_to_chain
make-IsReport clouds initial kinds type time path dto src h = record {
  first = (_, refl, h);
  counted = make-pending_cmds clouds initial kinds type time path dto src;
  waits = refl;
}

module _ {D : Type 0} where
  pub Adds-nothing :
      (s s' : LocalStorage D)
      → s'.events_buff ≡ s.events_buff
      → s'.changes_queue ≡ s.changes_queue
      → Adds s s'
  Adds-nothing s s' e q = record {
    events_stay = e;
    new = [];
    reports = tt;
    grown = ap (λ (q : Queue Change). q.items) q ∙ sym (append-nil s.changes_queue.items);
  }

  pub Adds-trans : (a b c : LocalStorage D) → Adds a b → Adds b c → Adds a c
  Adds-trans a b c f g = record {
    events_stay = g.events_stay ∙ f.events_stay;
    new = f.new ++ g.new;
    reports = All-append IsReport f.new g.new f.reports g.reports;
    grown = g.grown ∙ ap (λ l. l ++ g.new) f.grown ∙ append_assoc a.changes_queue.items f.new g.new;
  }

  pub Adds-change :
      (ch : Change) (s : LocalStorage D) → IsReport ch → Ends Adds s (push_change ch s)
  unfolding push
  Adds-change ch s report = record {
    related = record { events_stay = refl; new = ch ∷ []; reports = (report, tt); grown = refl };
  }

  skips :
      (s s' : LocalStorage D)
      → s'.events_buff ≡ s.events_buff
      → s'.changes_queue ≡ s.changes_queue
      → Ends Adds s (ok tt, s')
  skips s s' e f = record { related = Adds-nothing s s' e f }

  unless_expected-Adds :
      (path : FilePath) (ct : ChangeType) (rest : Step D)
      → ((s : LocalStorage D) → Ends Adds s (rest s))
      → (s : LocalStorage D) → Ends Adds s (unless_expected path ct rest s)
  unless_expected-Adds path ct rest h s =
      let (expected, r) = check path ct s.expected_events in
      let s' = record s { expected_events = r } in
      does_if expected s (ok tt, s') (rest s') (skips s s' refl refl)
        (record { related = Adds-trans s s' _ (Adds-nothing s s' refl refl) (h s').related })

  requires : {A : Type 0} (o : Option A) (s : LocalStorage D) → Adds s (require o s).1
  requires none s = Adds-nothing s s refl refl
  requires (some a) s = Adds-nothing s s refl refl

module _ (fs : FileSystem) (c : Codes) (clouds : List ℕ) where
  delete_found-Adds :
      (evt : FileEvent) (rel : FilePath) (found : Option FileRecordDto) (s : LocalStorage fs.Disk)
      → Ends Adds s (delete_found fs c clouds evt rel found s)
  unfolding delete_found make_delete is_local
  delete_found-Adds evt rel none s = skips s s refl refl
  delete_found-Adds evt rel (some rec) s =
      Adds-change _ s (make-IsReport clouds local_delete _ _ _ _ _ _ refl)

  report_deleted-Adds :
      (evt : FileEvent) (s : LocalStorage fs.Disk) → Ends Adds s (report_deleted fs c clouds evt s)
  unfolding report_deleted
  report_deleted-Adds evt s =
      let rel = lexically_relative evt.path s.local_home_dir in
      does_bind Adds-trans (on_db (get_file_by_path c rel)) (delete_found fs c clouds evt rel) s
        (Adds-nothing s _ refl refl) (delete_found-Adds evt rel)

  handle_deleted-Adds :
      (evt : FileEvent) (s : LocalStorage fs.Disk) → Ends Adds s (handle_deleted fs c clouds evt s)
  unfolding handle_deleted delete_unless_replaced
  handle_deleted-Adds evt =
      unless_expected-Adds evt.path ChangeType.deleted (delete_unless_replaced fs c clouds evt)
        (λ s. does_if _ s _ _ (skips s s refl refl) (report_deleted-Adds evt s))

  report_created-Adds :
      (evt : FileEvent) (s : LocalStorage fs.Disk) → Ends Adds s (report_created fs c clouds evt s)
  unfolding report_created make_local_new is_local
  report_created-Adds evt s =
      does_bind Adds-trans (require (created_size fs c clouds s.disk evt.path))
        (λ sz. push_change (make_local_new clouds (created_record fs c clouds evt s sz))) s
        (requires _ s)
        (λ sz s'. Adds-change _ s' (make-IsReport clouds local_upload _ _ _ _ _ _ refl))

  handle_created-Adds :
      (evt : FileEvent) (s : LocalStorage fs.Disk) → Ends Adds s (handle_created fs c clouds evt s)
  unfolding handle_created
  handle_created-Adds evt s = does_if _ s _ _ (skips s s refl refl) (
      unless_expected-Adds evt.path ChangeType.created (report_created fs c clouds evt)
        (report_created-Adds evt) s)

  store_update-Adds :
      (dto : FileUpdatedDto) (s : LocalStorage fs.Disk)
      → Ends Adds s (store_update fs c clouds dto s)
  unfolding store_update make_local_update is_local
  store_update-Adds dto s =
      does_bind Adds-trans (on_db (sync_db_update c dto))
        (λ _. push_change (make_local_update clouds dto)) s (Adds-nothing s _ refl refl)
        (λ u s'. Adds-change _ s' (make-IsReport clouds local_update _ _ _ _ _ _ refl))

  report_updated-Adds :
      (evt : FileEvent) (rec : FileRecordDto) (s : LocalStorage fs.Disk)
      → Ends Adds s (report_updated fs c clouds evt rec s)
  unfolding report_updated
  report_updated-Adds evt rec s = does_if _ s _ _ (skips s s refl refl) (
      does_bind Adds-trans (require (fs.file_size s.disk evt.path))
        (λ sz. store_update fs c clouds (updated_record fs c clouds evt rec s sz)) s (requires _ s)
        (λ sz. store_update-Adds (updated_record fs c clouds evt rec s sz)))

  update_found-Adds :
      (evt : FileEvent) (found : Option FileRecordDto) (s : LocalStorage fs.Disk)
      → Ends Adds s (update_found fs c clouds evt found s)
  unfolding update_found
  update_found-Adds evt none s = skips s s refl refl
  update_found-Adds evt (some rec) s = report_updated-Adds evt rec s

  handle_updated-Adds :
      (evt : FileEvent) (s : LocalStorage fs.Disk) → Ends Adds s (handle_updated fs c clouds evt s)
  unfolding handle_updated
  handle_updated-Adds evt s =
      let rel = lexically_relative evt.path s.local_home_dir in
      does_if _ s _ _ (skips s s refl refl) (
        does_bind Adds-trans (on_db (find_updated fs c clouds (get_file_id fs s.disk evt.path) rel))
          (update_found fs c clouds evt) s (Adds-nothing s _ refl refl) (update_found-Adds evt))

  move_found-Adds :
      (evt : FileEvent) (assoc : AssociatedEvent) (found : Option FileRecordDto)
      (s : LocalStorage fs.Disk)
      → Ends Adds s (move_found fs c clouds evt assoc found s)
  unfolding move_found make_local_move is_local
  move_found-Adds evt assoc none s = handle_created-Adds (associated_event assoc) s
  move_found-Adds evt assoc (some rec) s =
      Adds-change _ s (make-IsReport clouds local_move _ _ _ _ _ _ refl)

  report_moved-Adds :
      (evt : FileEvent) (assoc : AssociatedEvent) (s : LocalStorage fs.Disk)
      → Ends Adds s (report_moved fs c clouds evt assoc s)
  unfolding report_moved
  report_moved-Adds evt assoc s =
      does_bind Adds-trans (on_db (get_file_by_file_id c (get_file_id fs s.disk assoc.path)))
        (move_found fs c clouds evt assoc) s (Adds-nothing s _ refl refl)
        (move_found-Adds evt assoc)

  handle_moved-Adds :
      (evt : FileEvent) (assoc : AssociatedEvent) (s : LocalStorage fs.Disk)
      → Ends Adds s (handle_moved fs c clouds evt assoc s)
  unfolding handle_moved
  handle_moved-Adds evt assoc s =
      does_if _ s _ _
        (does_if _ s _ _ (skips s s refl refl) (handle_updated-Adds (associated_event assoc) s))
        (unless_expected-Adds evt.path ChangeType.moved (report_moved fs c clouds evt assoc)
          (report_moved-Adds evt assoc) s)

  create_entries-Adds :
      (when : ℕ) (entries : List FilePath) (s : LocalStorage fs.Disk)
      → Ends Adds s (create_entries fs c clouds when entries s)
  unfolding create_entries
  create_entries-Adds when [] s = skips s s refl refl
  create_entries-Adds when (entry ∷ entries) s =
      let evt = file_event entry when ChangeType.created in
      let rest = create_entries-Adds when entries in
      does_if _ s _ _ (rest s) (
        does_bind Adds-trans (handle_created fs c clouds evt)
          (λ _. create_entries fs c clouds when entries) s (handle_created-Adds evt s).related
          (λ _. rest))

  create_below-Adds :
      (evt : FileEvent) (s : LocalStorage fs.Disk) → Ends Adds s (create_below fs c clouds evt s)
  unfolding create_below
  create_below-Adds evt s =
      does_if _ s _ _ (create_entries-Adds evt.when (fs.recursive_entries s.disk evt.path) s)
        (skips s s refl refl)

  create_tree-Adds :
      (evt : FileEvent) (s : LocalStorage fs.Disk) → Ends Adds s (create_tree fs c clouds evt s)
  unfolding create_tree
  create_tree-Adds evt s =
      does_bind Adds-trans (handle_created fs c clouds evt) (λ _. create_below fs c clouds evt) s
        (handle_created-Adds evt s).related (λ _. create_below-Adds evt)

  appear_found-Adds :
      (evt : FileEvent) (found : Option FileRecordDto) (s : LocalStorage fs.Disk)
      → Ends Adds s (appear_found fs c clouds evt found s)
  unfolding appear_found
  appear_found-Adds evt none s = create_tree-Adds evt s
  appear_found-Adds evt (some rec) s = handle_updated-Adds evt s

  handle_appeared-Adds :
      (evt : FileEvent) (s : LocalStorage fs.Disk) → Ends Adds s (handle_appeared fs c clouds evt s)
  unfolding handle_appeared
  handle_appeared-Adds evt s =
      does_if _ s _ _
        (does_bind Adds-trans (on_db (get_file_by_path c evt.path)) (appear_found fs c clouds evt) s
          (Adds-nothing s _ refl refl) (appear_found-Adds evt))
        (handle_deleted-Adds evt s)

  rename_with-Adds :
      (evt : FileEvent) (associated : Option AssociatedEvent) (s : LocalStorage fs.Disk)
      → Ends Adds s (rename_with fs c clouds evt associated s)
  unfolding rename_with
  rename_with-Adds evt none s = handle_appeared-Adds evt s
  rename_with-Adds evt (some assoc) s =
      does_if _ s _ _ (skips s s refl refl) (handle_moved-Adds evt assoc s)

  handle_as-Adds :
      (t : ChangeType) (evt : FileEvent) (s : LocalStorage fs.Disk)
      → Ends Adds s (handle_as fs c clouds t evt s)
  unfolding handle_as handle_renamed
  handle_as-Adds ChangeType.created evt s = handle_created-Adds evt s
  handle_as-Adds ChangeType.deleted evt s = handle_deleted-Adds evt s
  handle_as-Adds ChangeType.renamed evt s = rename_with-Adds evt evt.associated s
  handle_as-Adds ChangeType.updated evt s = handle_updated-Adds evt s
  handle_as-Adds ChangeType.moved evt s = skips s s refl refl
  handle_as-Adds ChangeType.null evt s = skips s s refl refl

  -- Whatever the event, whatever SQLite and the file system answer, and whether its handler returns or
  -- throws: the changes that wait stay, and each one added behind them can be dispatched, its one
  -- first command being a local one and its counter the number of its commands.
  pub handle_event-Adds :
      (evt : FileEvent) (s : LocalStorage fs.Disk) → Adds s (handle_event fs c clouds evt s).1
  unfolding handle_event
  handle_event-Adds evt s = (handle_as-Adds evt.type evt s).related
