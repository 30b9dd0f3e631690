-- ===== src/Tests/Manager.antt =====
-- Two updates of one file, and a new directory.
use sync_harbor.Base.{ℕ, ◌≡◌, refl, none, [], ◌∷◌, ◌++◌, keep, nat_eq, string_eq, list_eq}
use sync_harbor.Base.Dict.{lookup, insert, erase}
use sync_harbor.Base.Int.{pos}
use sync_harbor.Utils.Kinds.{entry_type_eq, ChangeType, change_type_eq}
use sync_harbor.Utils.FilePath.{path_eq}
use sync_harbor.Database.Calls.{idle}
use sync_harbor.Changes.Command.{command, local_update, local_upload, updated_dto, record_dto, end}
use sync_harbor.Changes.Change.{dispatch, Change, pending, change_target_type}
use sync_harbor.Manager.{Making, Manager, starts, handle_change, on_change_completed}
use sync_harbor.Manager.Order.{runs_at, started}
use sync_harbor.Manager.Serial.{History, begins, hands, completes, changes_in_order}
use sync_harbor.Tests.Data.{fine, stored, notes, notes_update, photo}

abbrev update_at : ℕ → Change
update_at time = record {
  cmd_chain = command local_update 0 (updated_dto notes_update) end ∷ [];
  target_path = notes;
  pending_cmds = pos 1;
  change_time = time;
  cloud_id = 0;
  status = pending;
  type = ChangeType.updated;
}

-- Every path is made.
abbrev pub makes : Making
makes m path missing = none

-- The second update waits for the first, which completes.
abbrev second_runs : Manager
second_runs = record {
  current_changes = (notes, record { change = update_at 2; dependents = [] }) ∷ [];
  num_clouds = 1;
  actions = starts notes (update_at 1) ∷ starts notes (update_at 2) ∷ [];
}

two_updates-History : History (update_at 1 ∷ update_at 2 ∷ []) (update_at 1 ∷ []) second_runs
unfolding handle_change on_change_completed lookup insert erase path_eq list_eq string_eq
    entry_type_eq change_type_eq change_target_type dispatch
two_updates-History =
    completes makes fine (idle stored) notes
      (record { change = update_at 1; dependents = update_at 2 ∷ [] })
      (hands makes fine (idle stored) (update_at 2)
        (hands makes fine (idle stored) (update_at 1) (begins 1) refl) refl)
      refl refl

changes_in_order_example :
    (keep (runs_at notes) (update_at 1 ∷ update_at 2 ∷ [])
      ≡ keep (runs_at notes) (update_at 1 ∷ []) ++ (update_at 2 ∷ []))
    × (started notes second_runs.actions
        ≡ keep (runs_at notes) (update_at 1 ∷ []) ++ (update_at 2 ∷ []))
unfolding lookup path_eq list_eq string_eq
changes_in_order_example = changes_in_order notes two_updates-History

abbrev new_notes : Change
new_notes = record (update_at 1) {
  cmd_chain = command local_upload 0 (record_dto photo) end ∷ [];
  type = ChangeType.created;
}
