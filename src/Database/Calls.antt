-- ===== src/Database/Calls.antt =====
-- The writing methods as one type of calls, and histories of them on an idle connection.
use sync_harbor.Base.{
  ℕ, String, ◌≡◌, Bool, true, ◌&&◌, ◌⊎◌, inl, inr, Bool-cases, Option-cases, List, [], ◌∷◌, Option,
  none, some, arith,
}
use sync_harbor.Utils.Kinds.{CloudProviderType}
use sync_harbor.Utils.Dto.{FileRecordDto, FileUpdatedDto, FileMovedDto}
use sync_harbor.Database.Tables.{Tables}
use sync_harbor.Database.Connection.{
  Connection, Codes, Result, ok, err, Failure, begin_failed, prepare_failed, step_failed,
  commit_failed, Statement, transaction,
}
use sync_harbor.Database.Write.{
  add_file, add_file_link, update_file_link, update_file, update_moved_link, update_moved_file,
  delete_file_and_links, mark_initial_sync_done, add_local_dir, update_cloud_data, add_cloud,
}

pub data Call : Type 0 where
  adds_file links_file : FileRecordDto → Call
  updates_link updates_file : FileUpdatedDto → Call
  moves_link moves_file : FileMovedDto → Call
  deletes_file : ℕ → Call
  marks_sync_done : Call
  sets_local_dir : String → Call
  sets_cloud_data : ℕ → String → Call
  adds_cloud : String → CloudProviderType → String → Call

-- What the method throws, if anything, and the connection afterwards.
abbrev pub outcome : {A : Type 0} → Result A × Connection → Option Failure × Connection
outcome (r, s) = (elim r [ ok a ↦ none | err e ↦ some e ], s)

unfoldable pub perform : Codes → Call → Connection → Option Failure × Connection
perform c (adds_file dto) s = outcome (add_file c dto s)
perform c (links_file dto) s = outcome (add_file_link c dto s)
perform c (updates_link dto) s = outcome (update_file_link c dto s)
perform c (updates_file dto) s = outcome (update_file c dto s)
perform c (moves_link dto) s = outcome (update_moved_link c dto s)
perform c (moves_file dto) s = outcome (update_moved_file c dto s)
perform c (deletes_file g) s = outcome (delete_file_and_links c g s)
perform c marks_sync_done s = outcome (mark_initial_sync_done c s)
perform c (sets_local_dir dir) s = outcome (add_local_dir c dir s)
perform c (sets_cloud_data cloud dump) s = outcome (update_cloud_data c cloud dump s)
perform c (adds_cloud name type dump) s = outcome (add_cloud c name type dump s)

-- A connection between two methods.
abbrev pub idle : Tables → Connection
idle t = record { tables = t; saved = none }

abbrev pub all_ok : Codes → Bool
all_ok c = c.begins && c.prepares && c.steps && c.commits

-- A transaction succeeds with what its statement does, or fails and leaves the connection alone.
abbrev pub Transacts : {A : Type 0} → Tables → Option (A × Tables) → Result A × Connection → Type 0
Transacts {A} t change r =
    ((a : A) × (t' : Tables) × (change ≡ some (a, t')) × (r ≡ (ok a, idle t')))
    ⊎ ((e : Failure) × (r ≡ (err e, idle t)))

pub transaction-Transacts :
    {A : Type 0} (c : Codes) (stmt : Statement A) (t : Tables)
    → Transacts t (stmt t) (transaction c stmt (idle t))
unfolding transaction
transaction-Transacts c stmt t = elim (Bool-cases c.begins) [
  | inr e ↦ inr (begin_failed, ground arith)
  | inl b ↦ elim (Bool-cases c.prepares) [
    | inr e ↦ inr (prepare_failed, ground arith)
    | inl p ↦ elim (Bool-cases c.steps) [
      | inr e ↦ inr (step_failed, ground arith)
      | inl s ↦ elim (Option-cases (stmt t)) [
        | inl e ↦ inr (step_failed, ground arith)
        | inr (r, e) ↦ elim (Bool-cases c.commits) [
          | inr m ↦ inr (commit_failed, ground arith)
          | inl m ↦ inl (r.0, r.1, e, ground arith)
        ]
      ]
    ]
  ]
]

pub transaction_succeeds :
    {A : Type 0} (c : Codes) (stmt : Statement A) (t t' : Tables) (a : A)
    → all_ok c ≡ true
    → stmt t ≡ some (a, t')
    → transaction c stmt (idle t) ≡ (ok a, idle t')
unfolding transaction
transaction_succeeds c stmt t t' a h e = ground arith

-- A history of calls on one connection; the caller goes on after a method that threw.
unfoldable pub run : List (Codes × Call) → Connection → Connection
run [] s = s
run ((c, call) ∷ calls) s = run calls (perform c call s).1
