-- ===== src/Database/Atomicity.antt =====
-- Every writing method takes effect as a whole or not at all, and leaves no transaction open.
use sync_harbor.Base.{
  String, ◌≡◌, ◌⊎◌, inl, inr, Bool-cases, Option-cases, Option, none, some, arith,
}
use sync_harbor.Utils.Kinds.{CloudProviderType}
use sync_harbor.Database.Tables.{Tables}
use sync_harbor.Database.Connection.{
  Connection, Codes, Result, Failure, prepare_failed, step_failed,
}
use sync_harbor.Database.Write.{
  add_file, add_file_link, update_file_link, update_file, update_moved_link, update_moved_file,
  delete_file_and_links, mark_initial_sync_done, add_local_dir, update_cloud_data, add_cloud,
  insert_file, insert_link, update_link_rows, update_file_rows, move_link_rows, move_file_rows,
  delete_rows, put_metadata, update_config_rows, insert_config,
}
use sync_harbor.Database.Calls.{
  Call, adds_file, links_file, updates_link, updates_file, moves_link, moves_file, deletes_file,
  marks_sync_done, sets_local_dir, sets_cloud_data, adds_cloud, outcome, perform, idle, Transacts,
  transaction-Transacts,
}

abbrev forget : {A : Type 0} → Option (A × Tables) → Option Tables
forget none = none
forget (some (a, t)) = some t

-- The change that a call's statement makes, `none` where a constraint refuses it.
unfoldable pub effect : Call → Tables → Option Tables
effect (adds_file dto) t = forget (insert_file dto t)
effect (links_file dto) t = forget (insert_link dto t)
effect (updates_link dto) t = forget (update_link_rows dto t)
effect (updates_file dto) t = forget (update_file_rows dto t)
effect (moves_link dto) t = forget (move_link_rows dto t)
effect (moves_file dto) t = forget (move_file_rows dto t)
effect (deletes_file g) t = forget (delete_rows g t)
effect marks_sync_done t = forget (put_metadata "initial_sync_done" "1" t)
effect (sets_local_dir dir) t = forget (put_metadata "local_dir" dir t)
effect (sets_cloud_data cloud dump) t = forget (update_config_rows cloud dump t)
effect (adds_cloud name type dump) t = forget (insert_config name type dump t)

-- A call on tables `t` with the change `change` succeeds with it, or throws and changes nothing.
abbrev pub IsAtomic : Tables → Option Tables → Option Failure × Connection → Type 0
IsAtomic t change r =
    ((t' : Tables) × (change ≡ some t') × (r ≡ (none, idle t')))
    ⊎ ((e : Failure) × (r ≡ (some e, idle t)))

Transacts-IsAtomic :
    {A : Type 0} (t : Tables) (change : Option (A × Tables)) (r : Result A × Connection)
    → Transacts t change r
    → IsAtomic t (forget change) (outcome r)
Transacts-IsAtomic t change r (inl (a, t', e, h)) = inl (t', ground arith, ground arith)
Transacts-IsAtomic t change r (inr (e, h)) = inr (e, ground arith)

add_cloud-IsAtomic :
    (c : Codes) (name : String) (type : CloudProviderType) (dump : String) (t : Tables)
    → IsAtomic t
        (forget (insert_config name type dump t))
        (outcome (add_cloud c name type dump (idle t)))
unfolding add_cloud
add_cloud-IsAtomic c name type dump t = elim (Bool-cases c.prepares) [
  | inr e ↦ inr (prepare_failed, ground arith)
  | inl p ↦ elim (Bool-cases c.steps) [
    | inr e ↦ inr (step_failed, ground arith)
    | inl s ↦ elim (Option-cases (insert_config name type dump t)) [
      | inl e ↦ inr (step_failed, ground arith)
      | inr (r, e) ↦ inl (r.1, ground arith, ground arith)
    ]
  ]
]

-- Whatever codes SQLite returns, a writing method on an idle connection either takes the whole
-- effect of its statement or throws and leaves the tables as they were; no transaction stays open.
pub perform-IsAtomic :
    (c : Codes) (call : Call) (t : Tables) → IsAtomic t (effect call t) (perform c call (idle t))
unfolding perform effect add_file add_file_link update_file_link update_file update_moved_link
    update_moved_file delete_file_and_links mark_initial_sync_done add_local_dir update_cloud_data
perform-IsAtomic c (adds_file dto) t =
    Transacts-IsAtomic t _ _ (transaction-Transacts c (insert_file dto) t)
perform-IsAtomic c (links_file dto) t =
    Transacts-IsAtomic t _ _ (transaction-Transacts c (insert_link dto) t)
perform-IsAtomic c (updates_link dto) t =
    Transacts-IsAtomic t _ _ (transaction-Transacts c (update_link_rows dto) t)
perform-IsAtomic c (updates_file dto) t =
    Transacts-IsAtomic t _ _ (transaction-Transacts c (update_file_rows dto) t)
perform-IsAtomic c (moves_link dto) t =
    Transacts-IsAtomic t _ _ (transaction-Transacts c (move_link_rows dto) t)
perform-IsAtomic c (moves_file dto) t =
    Transacts-IsAtomic t _ _ (transaction-Transacts c (move_file_rows dto) t)
perform-IsAtomic c (deletes_file g) t =
    Transacts-IsAtomic t _ _ (transaction-Transacts c (delete_rows g) t)
perform-IsAtomic c marks_sync_done t =
    Transacts-IsAtomic t _ _ (transaction-Transacts c (put_metadata _ _) t)
perform-IsAtomic c (sets_local_dir dir) t =
    Transacts-IsAtomic t _ _ (transaction-Transacts c (put_metadata _ dir) t)
perform-IsAtomic c (sets_cloud_data cloud dump) t =
    Transacts-IsAtomic t _ _ (transaction-Transacts c (update_config_rows cloud dump) t)
perform-IsAtomic c (adds_cloud name type dump) t = add_cloud-IsAtomic c name type dump t
