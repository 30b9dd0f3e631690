-- ===== src/Manager.antt =====
-- The changes under way in `SyncManager` of src/sync-manager.cpp: one for each path at a time, with
-- those that wait for it. Each method is one step; `_current_changes` has no lock in the source.
pub mod Order
pub mod Serial
pub mod Returns
pub mod CreatePath
pub mod InitialSync
pub mod PushLocal
use sync_harbor.Base.{
  ℕ, Bool, true, false, ◌&&◌, Option, none, some, List, [], ◌∷◌, ◌++◌, ◌==◌, if◌then◌else◌,
}
use mathlib.Core.Option
use sync_harbor.Base.Dict.{Dict, lookup, insert, erase}
use sync_harbor.Utils.Kinds.{EntryType, entry_type_eq, ChangeType, change_type_eq}
use sync_harbor.Utils.FilePath.{FilePath, path_eq, is_empty, parent_path}
use sync_harbor.Database.Connection.{Codes, Connection, Failure, Result, ok, err}
use sync_harbor.Database.Read.{get_missing_path_part}
use sync_harbor.Changes.Change.{Change, change_target_type, dispatch}

-- A change of `_current_changes`, with its `_dependents`.
pub record Active : Type 0 where
  pub change : Change
  pub dependents : List Change

-- What is asked of the storages and of the queues of commands.
pub data Action : Type 0 where
  creates_path : FilePath → FilePath → Action
  starts : FilePath → Change → Action

pub record Manager : Type 0 where
  pub current_changes : Dict FilePath Active
  pub num_clouds : ℕ
  pub actions : List Action

-- Why a call does not return: an exception, or the dereference of a null `_dto`.
pub data Stop : Type 0 where
  throws : Failure → Stop
  undefined : Stop

-- What comes of `createPath` of a path and its missing part: whether it throws.
abbrev pub Making : Type 0
Making = Manager → FilePath → FilePath → Option Failure

-- `startChange`: the entry is written before `dispatch`, which has undefined behaviour without a command.
unfoldable pub start_change : FilePath → Change → Manager → Option Stop × Manager
unfolding dispatch
start_change path change m =
    let m' = record m {
      current_changes = insert path (record { change = change; dependents = [] }) m.current_changes;
    } in
    elim (dispatch change) [
      | none ↦ (some undefined, m')
      | some cmds ↦ (none, record m' { actions = m'.actions ++ (starts path change ∷ []) })
    ]

-- `addDependent` of the change that is there.
unfoldable pub add_dependent : FilePath → Active → Change → Manager → Manager
add_dependent path active incoming m = record m {
  current_changes =
      insert path (record active { dependents = active.dependents ++ (incoming ∷ []) })
        m.current_changes;
}

-- A failure comes first.
unfoldable pub then_start : FilePath → Change → Option Stop × Manager → Option Stop × Manager
unfolding start_change
then_start path change (some s, m) = (some s, m)
then_start path change (none, m) = start_change path change m

unfoldable pub is_new : Change → Bool
is_new ch = ch.type == ChangeType.created

module _ (made : Making) where
  -- `createPath` of what `getMissingPathPart` returned, if anything is missing.
  unfoldable pub create_missing : FilePath → Result FilePath → Manager → Option Stop × Manager
  create_missing path (err e) m = (some (throws e), m)
  create_missing path (ok missing) m = if is_empty missing then (none, m) else (
    Option.map throws (made m path missing),
    record m { actions = m.actions ++ (creates_path path missing ∷ []) },
  )

  unfoldable pub ensure_path : Codes → Connection → FilePath → Manager → Option Stop × Manager
  unfolding create_missing
  ensure_path c db path m = create_missing path (get_missing_path_part c path m.num_clouds db).0 m

  -- The part of `handleChange` for all but new directories.
  unfoldable pub admit : Codes → Connection → Change → Manager → Option Stop × Manager
  unfolding ensure_path then_start add_dependent is_new
  admit c db incoming m =
      let path = incoming.target_path in
      elim (lookup path m.current_changes) [
        | none ↦
            then_start path incoming
              (if is_new incoming then ensure_path c db (parent_path path) m else (none, m))
        | some active ↦ (none, add_dependent path active incoming m)
      ]

  -- `handleChange`
  unfoldable pub handle_change : Codes → Connection → Change → Manager → Option Stop × Manager
  unfolding admit ensure_path is_new
  handle_change c db incoming m = elim (change_target_type incoming) [
    | none ↦ (some undefined, m)
    | some entry_type ↦
        if entry_type == EntryType.directory && is_new incoming
        then ensure_path c db incoming.target_path m
        else admit c db incoming m
  ]

  unfoldable pub handle_all : Codes → Connection → List Change → Manager → Option Stop × Manager
  handle_all c db [] m = (none, m)
  handle_all c db (dep ∷ dependents) m =
      let (stop, m') = handle_change c db dep m in
      elim stop [ some s ↦ (some s, m') | none ↦ handle_all c db dependents m' ]

  -- `onChangeCompleted`
  unfoldable pub on_change_completed :
      Codes → Connection → FilePath → List Change → Manager → Option Stop × Manager
  unfolding handle_all
  on_change_completed c db path dependents m =
      handle_all c db dependents (record m { current_changes = erase path m.current_changes })
