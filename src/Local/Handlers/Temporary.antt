-- ===== src/Local/Handlers/Temporary.antt =====
-- Temporary files, those of the program's downloads among them, lead to no change.

use text.Mathlib.TextEquality.{starts_with_iff}
use text.Mathlib.TextLemmas.{prefix-append}
use sync_harbor.Base.{
  ℕ, String, ◌<>◌, ◌≡◌, refl, Bool, true, false, Option, none, some, List, [], ◌∷◌, ◌++◌, any,
  arith, ◌==◌, if◌then◌else◌,
}
use sync_harbor.Utils.Kinds.{ChangeType, change_type_eq}
use sync_harbor.Utils.FilePath.{FilePath, path_eq, last_name, filename}
use sync_harbor.Utils.Dto.{FileEvent, AssociatedEvent, file_event}
use sync_harbor.Database.Connection.{Codes, Result, ok}
use sync_harbor.Registry.{check}
use sync_harbor.Local.Names.{tmp_prefix, is_tmp_name, ignore_tmp, tmp_path}
use sync_harbor.Local.State.{FileSystem, LocalStorage}
use sync_harbor.Local.Handlers.{
  handle_event, handle_as, handle_created, handle_deleted, delete_unless_replaced, handle_updated,
  handle_renamed, rename_with, handle_moved,
}

last_name-append : (xs : List String) (n : String) → last_name (xs ++ (n ∷ [])) ≡ n
unfolding last_name
last_name-append [] n = refl
last_name-append (x ∷ []) n = refl
last_name-append (x ∷ y ∷ xs) n = last_name-append (y ∷ xs) n

is_tmp_name-prefix : (n : String) → is_tmp_name (tmp_prefix <> n) ≡ true
unfolding is_tmp_name any
is_tmp_name-prefix n =
    rw ((starts_with_iff (tmp_prefix <> n) tmp_prefix).1 (prefix-append tmp_prefix n)) refl

pub ignore_tmp-tmp_path : (home rel : FilePath) → ignore_tmp (tmp_path home rel) ≡ true
unfolding ignore_tmp tmp_path filename
ignore_tmp-tmp_path home rel = rw last_name-append (is_tmp_name-prefix (filename rel))

-- The event leads to nothing, except that it may no longer be expected.
pub record IsIgnored {D : Type 0} (s : LocalStorage D)
    (outcome : Result (Unit {0}) × LocalStorage D) : Type 0 where
  pub returns : outcome.0 ≡ ok tt
  pub stays : outcome.1 ≡ record s { expected_events = outcome.1.expected_events }

ignored : {D : Type 0} (s : LocalStorage D) → IsIgnored s (ok tt, s)
ignored s = record { returns = refl; stays = refl }

-- All that the event names is temporary; a rename has to say what to.
abbrev pub IsTemporary : FileEvent → Type 0
IsTemporary evt = (ignore_tmp evt.path ≡ true) × elim evt.associated as (λ _. Type 0) [
  | none ↦ (evt.type == ChangeType.renamed) ≡ false
  | some assoc ↦ ignore_tmp assoc.path ≡ true
]

module _ (fs : FileSystem) (c : Codes) (clouds : List ℕ) where
  delete_tmp :
      (evt : FileEvent) (s : LocalStorage fs.Disk)
      → ignore_tmp evt.path ≡ true
      → IsIgnored s (handle_deleted fs c clouds evt s)
  unfolding handle_deleted delete_unless_replaced
  delete_tmp evt s h =
      let (expected, r) = check evt.path ChangeType.deleted s.expected_events in
      rw h
        (both expected (record s { expected_events = r }) (record { returns = refl; stays = refl }))
    where
      both :
          (b : Bool) (s' : LocalStorage fs.Disk)
          → IsIgnored s (ok tt, s')
          → IsIgnored s (if b then (ok tt, s') else (ok tt, s'))
      both true s' i = i
      both false s' i = i

  rename_tmp :
      (evt : FileEvent) (assoc : AssociatedEvent) (s : LocalStorage fs.Disk)
      → ignore_tmp evt.path ≡ true
      → ignore_tmp assoc.path ≡ true
      → IsIgnored s (rename_with fs c clouds evt (some assoc) s)
  unfolding rename_with handle_moved
  rename_tmp evt assoc s h k = rw (h, k) (ignored s)

  handle_tmp :
      (t : ChangeType) (evt : FileEvent) (associated : Option AssociatedEvent)
      (s : LocalStorage fs.Disk)
      → ignore_tmp evt.path ≡ true
      → evt.associated ≡ associated
      → (elim associated as (λ _. Type 0) [
        | none ↦ (t == ChangeType.renamed) ≡ false
        | some assoc ↦ ignore_tmp assoc.path ≡ true
      ])
      → IsIgnored s (handle_as fs c clouds t evt s)
  unfolding handle_as handle_created handle_updated handle_renamed change_type_eq
  handle_tmp ChangeType.created evt associated s h e k = rw h (ignored s)
  handle_tmp ChangeType.deleted evt associated s h e k = delete_tmp evt s h
  handle_tmp ChangeType.updated evt associated s h e k = rw h (ignored s)
  handle_tmp ChangeType.renamed evt none s h e k = absurd (ground arith)
  handle_tmp ChangeType.renamed evt (some assoc) s h e k = rw e (rename_tmp evt assoc s h k)
  handle_tmp ChangeType.moved evt associated s h e k = ignored s
  handle_tmp ChangeType.null evt associated s h e k = ignored s

  -- An event of temporary files alone leads to nothing but that it may no longer be expected; and the
  -- file of a download is a temporary one, wherever it goes.
  pub handle_event-IsIgnored :
      (evt : FileEvent) (s : LocalStorage fs.Disk)
      → IsTemporary evt
      → IsIgnored s (handle_event fs c clouds evt s)
  unfolding handle_event
  handle_event-IsIgnored evt s h = handle_tmp evt.type evt evt.associated s h.0 refl h.1

  -- Whatever the watcher reports of the file that a download writes, its creation, its updates or its
  -- deletion, leads to nothing but that it may no longer be expected.
  pub download-IsIgnored :
      (rel : FilePath) (when : ℕ) (t : ChangeType) (s : LocalStorage fs.Disk)
      → (t == ChangeType.renamed) ≡ false
      → IsIgnored s (handle_event fs c clouds (file_event (tmp_path s.local_home_dir rel) when t) s)
  unfolding file_event
  download-IsIgnored rel when t s h =
      handle_event-IsIgnored (file_event (tmp_path s.local_home_dir rel) when t) s
        (ignore_tmp-tmp_path s.local_home_dir rel, h)
