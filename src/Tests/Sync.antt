-- ===== src/Tests/Sync.antt =====
-- The initial sync of two paths, and a path that is made everywhere.
use sync_harbor.Base.{
  ◌≡◌, refl, true, not, inl, inr, Bool-cases, ◌==◌, arith, some, List, [], ◌∷◌, map, keep, All,
  nat_eq, string_eq,
}
use sync_harbor.Base.Dict.{lookup, insert}
use sync_harbor.Utils.Kinds.{EntryType, change_type_eq, entry_type_eq}
use sync_harbor.Utils.FilePath.{FilePath, path_eq}
use sync_harbor.Utils.Dto.{FileRecordDto}
use sync_harbor.Database.Calls.{idle}
use sync_harbor.Changes.Command.{
  get_id, Command, command, cloud_upload, cloud_update, cloud_download_new, local_upload, next,
  unset, record_dto, updated_dto, end,
}
use sync_harbor.Manager.InitialSync.{
  Candidates, Reconciled, Handling, hand_over, remote_only, newest, text_of, take_newer,
  remote_newer, reconcile_with, reconcile, reconcile_all,
}
use sync_harbor.Manager.InitialSync.Newest.{NoneNewer}
use sync_harbor.Manager.InitialSync.Returns.{AllHandled, newest_wins}
use sync_harbor.Manager.{handle_change}
use sync_harbor.Manager.Serial.{idle_manager}
use sync_harbor.Manager.Returns.{HasCommand, handle_change_returns}
use sync_harbor.Tests.Manager.{makes}
use sync_harbor.Changes.Change.{change_target_type}
use sync_harbor.Manager.PushLocal.{
  push_to_clouds, push_with, push_known, push_over, last_of, with_command, pushed_update,
}
use sync_harbor.Manager.PushLocal.Targets.{has_best, push_to_clouds-targets}
use sync_harbor.Tests.Data.{fine, stored, notes, notes_on_drive, drive_row}
use sync_harbor.Database.Tables.{Tables}
use sync_harbor.Database.Write.{add_file_link}
use sync_harbor.Base.{any}
use sync_harbor.Database.Connection.{transaction}

-- The notes are here since 1000, and two clouds have them, the first one newer.
abbrev notes_here : FileRecordDto
notes_here = record notes_on_drive { cloud_id = 0; cloud_file_modified_time = 1000 }

abbrev newer : FileRecordDto
newer = record notes_on_drive { cloud_file_modified_time = 3000 }

abbrev older : FileRecordDto
older = record notes_on_drive { cloud_id = 2; cloud_file_modified_time = 500 }

-- Every call finds the same database.
abbrev handle : Handling
handle = handle_change makes fine (idle stored)

abbrev before : Reconciled
before = record { changes = []; manager = idle_manager 2; local_files = (notes, notes_here) ∷ [] }

abbrev notes_candidates : Candidates
notes_candidates = record { path = notes; first = older; others = newer ∷ [] }

abbrev after : Reconciled
after = record {
  changes = remote_newer 9 notes notes_here newer "c0ffee" ∷ [];
  manager = (handle (remote_newer 9 notes notes_here newer "c0ffee") (idle_manager 2)).1;
  local_files = (notes, record newer { global_id = 1 }) ∷ [];
}

remote_only-type :
    (path : FilePath) (best : FileRecordDto)
    → change_target_type (remote_only 9 path best) ≡ some best.type
unfolding remote_only change_target_type
remote_only-type path best = ground arith

remote_only-HasCommand :
    (path : FilePath) (best : FileRecordDto) → HasCommand (remote_only 9 path best)
unfolding remote_only
remote_only-HasCommand path best = elim (Bool-cases (best.type == EntryType.directory)) [
  | inl e ↦ (command local_upload 0 (record_dto best) end, [], ground (arith, e))
  | inr e ↦ (
    command cloud_download_new best.cloud_id (record_dto best)
        (next (command local_upload 0 unset end) end),
    [],
    ground (arith, e),
  )
]

handles_all : AllHandled (λ p. true) 9 handle
unfolding remote_newer change_target_type
handles_all = record {
  new_ones = λ path best m.
      handle_change_returns makes fine stored (remote_only 9 path best) m refl
        (λ m path missing. refl) (remote_only-HasCommand path best) (remote_only-type path best);
  newer_ones = λ path here best hash m.
      handle_change_returns makes fine stored (remote_newer 9 path here best hash) m refl
        (λ m path missing. refl) (_, _, refl) refl;
}

newest_wins_example :
    (r' : Reconciled) × (reconcile_all (λ p. true) 9 handle (notes_candidates ∷ []) before
      ≡ some r')
    × All (NoneNewer (λ p. true) 9 handle r'.local_files) (notes_candidates ∷ [])
unfolding lookup path_eq string_eq
newest_wins_example =
    newest_wins (λ p. true) 9 handle (notes_candidates ∷ []) before (tt, tt) (inl refl, tt)
      ((("c0ffee", refl), (("c0ffee", refl), tt)), tt) handles_all

-- The newer file of the first cloud is the one that is taken.
newer_is_taken : reconcile_all (λ p. true) 9 handle (notes_candidates ∷ []) before ≡ some after
unfolding reconcile_all reconcile reconcile_with take_newer newest text_of insert lookup path_eq
    string_eq hand_over handle_change change_target_type entry_type_eq change_type_eq
newer_is_taken = refl

abbrev with_box : Tables
with_box = record stored {
  cloud_configs = drive_row ∷ record drive_row { config_id = 2; name = "box" } ∷ [];
}

-- The first cloud has the file, the second an old one, the third none.
abbrev pushed : List Command
pushed =
    command cloud_update 2 (updated_dto (pushed_update notes newer older "c0ffee")) end
    ∷ command cloud_upload 3 (record_dto newer) end
    ∷ []

push_to_clouds-targets_example :
    map get_id pushed ≡ keep (λ id. not (has_best newer (older ∷ newer ∷ []) id)) (1 ∷ 2 ∷ 3 ∷ [])
unfolding push_to_clouds push_with push_known push_over last_of with_command text_of nat_eq any
    add_file_link transaction
push_to_clouds-targets_example =
    push_to_clouds-targets fine notes newer (older ∷ newer ∷ []) (1 ∷ 2 ∷ 3 ∷ []) (idle with_box)
      pushed refl
