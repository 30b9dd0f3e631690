-- ===== src/Local/State.antt =====
-- The state of `LocalStorage`, and what its methods ask of std::filesystem, of the reads of a file
-- and of the xxHash library, which are not in the repository.
use Prim.Native.Nat.{bit_or}
use Prim.Native.String.{String}
use sync_harbor.Base.{ℕ, ◌*◌, ◌%◌, ◌^◌, ◌/◌, Bool, Option, none, some, List, [], ◌∷◌, if◌then◌else◌}
use sync_harbor.Utils.Kinds.{EntryType, ChangeType}
use sync_harbor.Utils.FilePath.{FilePath, path_eq}
use sync_harbor.Utils.Dto.{FileEvent}
use sync_harbor.Database.Connection.{
  Connection, Method, ok, file_system_failed, Stateful, return, throw,
}
use sync_harbor.Changes.Change.{Change}
use sync_harbor.Queue.{Queue, push}
use sync_harbor.Registry.{Registry, add, check}
use sync_harbor.Local.Names.{is_doc}

-- `none` is an exception, of `contents` a file that does not open, and of `stat` its failure; the
-- contents come in the order in which `in.read` returns them.
pub record FileSystem : Type 1 where
  pub Disk : Type 0
  pub HashState : Type 0
  pub exists : Disk → FilePath → Bool
  pub is_directory : Disk → FilePath → Bool
  pub is_regular_file : Disk → FilePath → Bool
  pub stat : Disk → FilePath → Option (ℕ × ℕ)
  pub contents : Disk → FilePath → Option (List String)
  pub file_size : Disk → FilePath → Option ℕ
  pub last_write_time : Disk → FilePath → Option ℕ
  pub weakly_canonical : Disk → FilePath → Option FilePath
  pub recursive_entries : Disk → FilePath → List FilePath
  pub rename : FilePath → FilePath → Disk → Option Disk
  pub remove : FilePath → Disk → Option Disk
  pub create_directory : FilePath → Disk → Option (Bool × Disk)
  pub hash_reset : ℕ → HashState
  pub hash_update : HashState → String → HashState
  pub hash_digest : HashState → ℕ

pub record LocalStorage (D : Type 0) : Type 0 where
  pub local_home_dir : FilePath
  pub id : ℕ
  pub changes_queue : Queue Change
  pub events_buff : Queue FileEvent
  pub expected_events : Registry FilePath
  pub db : Connection
  pub disk : D

-- A method of the storage that returns nothing or throws.
abbrev pub Step : Type 0 → Type 0
Step D = Stateful (LocalStorage D) (Unit {0})

module _ {D : Type 0} where
  -- A call of the database by the storage.
  abbrev pub on_db : {A : Type 0} → Method A → Stateful (LocalStorage D) A
  on_db m s = let (r, db) = m s.db in (r, record s { db = db })

  -- What throws where the file system does.
  abbrev pub require : {A : Type 0} → Option A → Stateful (LocalStorage D) A
  require o = elim o [ none ↦ throw file_system_failed | some a ↦ return a ]

  -- `_changes_queue.push(std::move(ch))`
  abbrev pub push_change : Change → Step D
  push_change ch s = (ok tt, record s { changes_queue = push s.changes_queue ch })

  -- `_expected_events.add(path, ct)`
  abbrev pub expect : FilePath → ChangeType → LocalStorage D → LocalStorage D
  expect path ct s = record s { expected_events = add path ct s.expected_events }

  -- `if (_expected_events.check(path, ct)) return;` before the rest of a handler.
  abbrev pub unless_expected : FilePath → ChangeType → Step D → Step D
  unless_expected path ct rest s =
      let (expected, r) = check path ct s.expected_events in
      let s' = record s { expected_events = r } in if expected then (ok tt, s') else rest s'

module _ (fs : FileSystem) where
  -- `getFileId`, in 64 bits.
  unfoldable pub get_file_id : fs.Disk → FilePath → ℕ
  get_file_id disk path = elim (fs.stat disk path) [
    | none ↦ 0
    | some (dev, ino) ↦ bit_or (dev * 2 ^ 32 % 2 ^ 64) (ino % 2 ^ 64)
  ]

  hash_reads : List String → fs.HashState → fs.HashState
  hash_reads [] state = state
  hash_reads (read ∷ reads) state = hash_reads reads (fs.hash_update state read)

  -- `computeFileHash` with the seed 0 of every call.
  unfoldable pub compute_file_hash : fs.Disk → FilePath → ℕ
  unfolding hash_reads
  compute_file_hash disk path = elim (fs.contents disk path) [
    | none ↦ 0
    | some reads ↦ fs.hash_digest (hash_reads reads (fs.hash_reset 0))
  ]

  -- The type that a new entry is given.
  unfoldable pub entry_type : fs.Disk → FilePath → EntryType
  unfolding is_doc
  entry_type disk path =
      if fs.is_directory disk path
      then EntryType.directory
      else if is_doc path
      then EntryType.document
      else EntryType.file

-- `fromWatcherTime`: nanoseconds to seconds. An effect time is never negative.
unfoldable pub from_watcher_time : ℕ → ℕ
from_watcher_time effect_ns = effect_ns / 1000000000
