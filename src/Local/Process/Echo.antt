-- ===== src/Local/Process/Echo.antt =====
-- The events that the storage causes itself are expected, and each is passed over once.
use mathlib.Core.Path.{subst}
use sync_harbor.Base.{
  ℕ, ◌≡◌, refl, sym, ap, ◌∙◌, false, none, some, List, [], ◌∷◌, arith, ◌==◌, nat_eq, if◌then◌else◌,
}
use sync_harbor.Base.Dict.{lookup, lookup-erase}
use sync_harbor.Utils.Kinds.{ChangeType, change_type_eq}
use sync_harbor.Utils.FilePath.{FilePath, path_eq, join}
use sync_harbor.Utils.Dto.{FileUpdatedDto, FileMovedDto, FileDeletedDto, file_event}
use sync_harbor.Database.Connection.{Codes, Result, ok, return, ◌>>=◌}
use sync_harbor.Registry.{add}
use sync_harbor.Registry.Laws.{lookup-add, check_expected}
use sync_harbor.Local.State.{FileSystem, LocalStorage, Step, expect, unless_expected}
use sync_harbor.Local.Frame.{Ends, does_bind, does_if}
use sync_harbor.Local.Names.{ignore_tmp}
use sync_harbor.Local.Handlers.{
  handle_event, handle_as, handle_deleted, delete_unless_replaced, handle_renamed, rename_with,
  handle_moved, report_moved,
}
use sync_harbor.Local.Watcher.{renamed_event, associated_rename}
use sync_harbor.Local.Process.{
  move_on_disk, restamp, move_entry, move_entries, move_tree, install, refreshed_update,
  refreshed_move, install_update, install_move, procces_update, procces_delete, procces_move,
}

-- The event leads to nothing but that it is no longer expected: what is expected afterwards is what
-- was before the storage acted.
pub record IsPassedOver {D : Type 0} (before acted : LocalStorage D)
    (outcome : Result (Unit {0}) × LocalStorage D) : Type 0 where
  pub returns : outcome.0 ≡ ok tt
  pub stays : outcome.1 ≡ record acted { expected_events = outcome.1.expected_events }
  pub restored :
      (q : FilePath) → lookup q outcome.1.expected_events ≡ lookup q before.expected_events

unless_expected-IsPassedOver :
    {D : Type 0} (before acted : LocalStorage D) (path : FilePath) (ct : ChangeType) (rest : Step D)
    → lookup path before.expected_events ≡ none
    → acted.expected_events ≡ add path ct before.expected_events
    → IsPassedOver before acted (unless_expected path ct rest acted)
unless_expected-IsPassedOver before acted path ct rest free e =
    let found : lookup path acted.expected_events ≡ some ct =
      ap (lookup path) e ∙ ground (arith, lookup-add path ct before.expected_events path) in
    subst (IsPassedOver before acted)
      (sym (
        ap
          (λ r.
            if r.0
            then (ok tt, record acted { expected_events = r.1 })
            else rest (record acted { expected_events = r.1 }))
          (check_expected path ct acted.expected_events found)))
      (record {
        returns = refl;
        stays = refl;
        restored = λ q.
            lookup-erase q path acted.expected_events
            ∙ ground (arith, lookup-add path ct before.expected_events q, ap (lookup q) e);
      })

module _ (fs : FileSystem) (c : Codes) where
  install_update-expected_events :
      (dto : FileUpdatedDto) (s : LocalStorage fs.Disk)
      → (install_update fs c dto s).1.expected_events
        ≡ add (join s.local_home_dir dto.rel_path) ChangeType.deleted s.expected_events
  unfolding install_update install refreshed_update
  install_update-expected_events dto s = ground arith

  abbrev Keeps : LocalStorage fs.Disk → LocalStorage fs.Disk → Type 0
  Keeps s s' = s'.expected_events ≡ s.expected_events

  Keeps-trans : (s s' s'' : LocalStorage fs.Disk) → Keeps s s' → Keeps s' s'' → Keeps s s''
  Keeps-trans s s' s'' f g = g ∙ f

  move_entry-Keeps :
      (entry : FilePath) (s : LocalStorage fs.Disk) → Keeps s (move_entry fs c entry s).1
  unfolding move_entry restamp
  move_entry-Keeps entry s = ground arith

  move_entries-Keeps :
      (entries : List FilePath) (s : LocalStorage fs.Disk)
      → Ends Keeps s (move_entries fs c entries s)
  unfolding move_entries
  move_entries-Keeps [] s = record { related = refl }
  move_entries-Keeps (entry ∷ entries) s =
      does_bind Keeps-trans (move_entry fs c entry) (λ _. move_entries fs c entries) s
        (move_entry-Keeps entry s) (λ _. move_entries-Keeps entries)

  move_tree-Keeps :
      (moved : FilePath) (s : LocalStorage fs.Disk) → Ends Keeps s (move_tree fs c moved s)
  unfolding move_tree
  move_tree-Keeps moved s =
      does_if (fs.is_directory s.disk moved) s _ (ok tt, s)
        (move_entries-Keeps (fs.recursive_entries s.disk moved) s) (record { related = refl })

  move_on_disk-Keeps :
      (dto : FileMovedDto) (s : LocalStorage fs.Disk) → Keeps s (move_on_disk fs c dto s).1
  unfolding move_on_disk refreshed_move
  move_on_disk-Keeps dto s = ground arith

  install_move-expected_events :
      (dto : FileMovedDto) (s : LocalStorage fs.Disk)
      → (install_move fs c dto s).1.expected_events
        ≡ add (join s.local_home_dir dto.old_rel_path) ChangeType.moved s.expected_events
  unfolding install_move
  install_move-expected_events dto s =
      let moved = join s.local_home_dir dto.new_rel_path in
      let s' = expect (join s.local_home_dir dto.old_rel_path) ChangeType.moved s in
      (does_bind Keeps-trans (move_on_disk fs c dto)
        (λ here. move_tree fs c moved >>= λ _. return here) s' (move_on_disk-Keeps dto s')
        (λ here s''.
          does_bind Keeps-trans (move_tree fs c moved) (λ _. return here) s''
            (move_tree-Keeps moved s'').related (λ _ _. record { related = refl }))).related

  module _ (clouds : List ℕ) where
    expected_deletion :
        (before acted : LocalStorage fs.Disk) (path : FilePath) (when : ℕ)
        → lookup path before.expected_events ≡ none
        → acted.expected_events ≡ add path ChangeType.deleted before.expected_events
        → IsPassedOver before acted
            (handle_event fs c clouds (file_event path when ChangeType.deleted) acted)
    unfolding handle_event handle_as handle_deleted file_event
    expected_deletion before acted path when free e =
        unless_expected-IsPassedOver before acted path ChangeType.deleted
          (delete_unless_replaced fs c clouds (file_event path when ChangeType.deleted)) free e

    expected_move :
        (before acted : LocalStorage fs.Disk) (old new : FilePath) (when : ℕ)
        → ignore_tmp old ≡ false
        → ignore_tmp new ≡ false
        → lookup old before.expected_events ≡ none
        → acted.expected_events ≡ add old ChangeType.moved before.expected_events
        → IsPassedOver before acted
            (handle_event fs c clouds (renamed_event old when (some new)) acted)
    unfolding handle_event handle_as handle_renamed rename_with renamed_event handle_moved
    expected_move before acted old new when o n free e =
        rw (o, n)
          (unless_expected-IsPassedOver before acted old ChangeType.moved
            (report_moved fs c clouds (renamed_event old when (some new))
              (associated_rename when new))
            free e)

    -- Where no event is expected of the path: after `proccesUpdate` or `proccesDelete` for a cloud,
    -- whatever it returned, the event that the file is deleted leads to nothing, and from then on
    -- exactly what was expected before is expected.
    pub deletion_echo :
        (update : FileUpdatedDto) (delete : FileDeletedDto) (when : ℕ) (s : LocalStorage fs.Disk)
        → (update.cloud_id == 0) ≡ false
        → (delete.cloud_id == 0) ≡ false
        → update.rel_path ≡ delete.rel_path
        → let path = join s.local_home_dir delete.rel_path in
          let echo = handle_event fs c clouds (file_event path when ChangeType.deleted) in
          lookup path s.expected_events ≡ none
          → let updated = (procces_update fs c update s).1 in
            let deleted = procces_delete fs delete s in
            IsPassedOver s updated (echo updated) × IsPassedOver s deleted (echo deleted)
    unfolding procces_update procces_delete
    deletion_echo update delete when s u d e free =
        let path = join s.local_home_dir delete.rel_path in
        (
          expected_deletion s (procces_update fs c update s).1 path when free
              (ground (arith, u, e, install_update-expected_events update s)),
          expected_deletion s (procces_delete fs delete s) path when free (ground arith),
        )

    -- Where no event is expected of the old path and neither path is a temporary one: after
    -- `proccesMove` for a cloud, whatever it returned, the event that the file is renamed leads to
    -- nothing, and from then on exactly what was expected before is expected.
    pub move_echo :
        (dto : FileMovedDto) (when : ℕ) (s : LocalStorage fs.Disk)
        → (dto.cloud_id == 0) ≡ false
        → let old = join s.local_home_dir dto.old_rel_path in
          let new = join s.local_home_dir dto.new_rel_path in
          ignore_tmp old ≡ false
          → ignore_tmp new ≡ false
          → lookup old s.expected_events ≡ none
          → let moved = (procces_move fs c dto s).1 in
            IsPassedOver s moved
              (handle_event fs c clouds (renamed_event old when (some new)) moved)
    unfolding procces_move
    move_echo dto when s h o n free =
        expected_move s (procces_move fs c dto s).1 (join s.local_home_dir dto.old_rel_path)
          (join s.local_home_dir dto.new_rel_path) when o n free
          (ground (arith, h, install_move-expected_events dto s))
