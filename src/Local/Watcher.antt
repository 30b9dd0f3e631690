-- ===== src/Local/Watcher.antt =====
-- `onFsEvent` and `proccessChanges` of src/LocalStorage.cpp. An event that the watcher's thread adds
-- while `proccessChanges` runs waits for its next call.
use sync_harbor.Base.{
  ℕ, Bool, true, false, not, ◌&&◌, ◌||◌, Option, none, some, List, [], ◌∷◌, ◌==◌, if◌then◌else◌,
}
pub mod Deletion
pub mod Draining
pub mod Times
use mathlib.Core.Option
use sync_harbor.Utils.Kinds.{ChangeType}
use sync_harbor.Utils.FilePath.{FilePath, path_eq, relative, is_empty, lexically_relative}
use sync_harbor.Utils.Dto.{FileEvent, AssociatedEvent, file_event}
use sync_harbor.Database.Connection.{Codes, Result, ok, err, return, ◌>>=◌, ◌>>◌, Stateful}
use sync_harbor.Changes.Change.{Change}
use sync_harbor.Queue.{Queue, push, is_empty as is_empty_queue}
use sync_harbor.Local.State.{FileSystem, LocalStorage, Step, from_watcher_time}
use sync_harbor.Local.Handlers.{handle_event}

-- `wtr::event::effect_type`, and what of `path_type` the program asks.
pub data EffectType : Type 0 where
  rename modify create destroy owner other : EffectType

-- `wtr::event`, with the path name of its `associated` one.
pub record WatcherEvent : Type 0 where
  pub path_name : FilePath
  pub effect_type : EffectType
  pub is_watcher : Bool
  pub effect_time : ℕ
  pub associated : Option FilePath

unfoldable pub associated_rename : ℕ → FilePath → AssociatedEvent
associated_rename time path = record {
  path = path;
  file_id = 0;
  when = time;
  type = ChangeType.renamed;
}

-- The event that `onFsEvent` notes for a rename.
unfoldable pub renamed_event : FilePath → ℕ → Option FilePath → FileEvent
unfolding associated_rename
renamed_event path time associated = record {
  path = path;
  associated = Option.map (associated_rename time) associated;
  file_id = 0;
  when = time;
  type = ChangeType.renamed;
}

-- Whether the effect says that there is something at the path.
unfoldable pub says_there : EffectType → Bool
says_there create = true
says_there modify = true
says_there _ = false

module _ (fs : FileSystem) where
  -- The event that the switch of `onFsEvent` notes, if any.
  unfoldable pub noted : fs.Disk → WatcherEvent → Option FileEvent
  unfolding renamed_event from_watcher_time
  noted disk e =
      let time = from_watcher_time e.effect_time in
      elim e.effect_type [
        | rename ↦ some (renamed_event e.path_name time e.associated)
        | create ↦ some (file_event e.path_name time ChangeType.created)
        | destroy ↦ some (file_event e.path_name time ChangeType.deleted)
        | modify ↦
            if fs.is_directory disk e.path_name
            then none
            else some (file_event e.path_name time ChangeType.updated)
        | _ ↦ none
      ]

  -- The path that `onFsEvent` compares with the home directory.
  unfoldable pub real_path : fs.Disk → FilePath → FilePath
  real_path disk p = elim (fs.weakly_canonical disk p) [ none ↦ p | some q ↦ q ]

  -- Whether `onFsEvent` returns before it looks at what happened.
  unfoldable pub is_dropped : WatcherEvent → LocalStorage fs.Disk → Bool
  unfolding says_there real_path is_empty
  is_dropped e s =
      let rel = lexically_relative (real_path s.disk e.path_name) s.local_home_dir in
      (says_there e.effect_type && not (fs.exists s.disk e.path_name))
      || e.is_watcher
      || (is_empty rel || rel == relative ("." ∷ []))

  -- `onFsEvent`, and whether it calls `_onChange`.
  unfoldable pub on_fs_event : WatcherEvent → LocalStorage fs.Disk → Bool × LocalStorage fs.Disk
  unfolding is_dropped noted
  on_fs_event e s = if is_dropped e s then (false, s) else (
    true,
    elim (noted s.disk e) [
      | none ↦ s
      | some evt ↦ record s { events_buff = push s.events_buff evt }
    ],
  )

  -- `hasChanges`
  unfoldable pub has_changes : LocalStorage fs.Disk → Bool
  has_changes s = not (is_empty_queue s.events_buff)

  module _ (c : Codes) (clouds : List ℕ) where
    -- The loop of `proccessChanges` over `_events_buff`.
    unfoldable pub handle_events : List FileEvent → Step fs.Disk
    unfolding handle_event
    handle_events [] s = (ok tt, s)
    handle_events (evt ∷ evts) s =
        let rest = handle_events evts in
        let popped = record s { events_buff = record s.events_buff { items = evts } } in
        (handle_event fs c clouds evt >> rest) popped

    -- Its loop over `_changes_queue`.
    unfoldable pub take_changes : Stateful (LocalStorage fs.Disk) (List Change)
    take_changes s = (
      ok s.changes_queue.items,
      record s { changes_queue = record s.changes_queue { items = [] } },
    )

    -- `proccessChanges`
    unfoldable pub process_changes : Stateful (LocalStorage fs.Disk) (List Change)
    unfolding handle_events take_changes
    process_changes s = (handle_events s.events_buff.items >>= λ _. take_changes) s
