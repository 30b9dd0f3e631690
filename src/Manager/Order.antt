-- ===== src/Manager/Order.antt =====
-- The changes of one path are started one at a time, in the order in which they are handed over.
use mathlib.Core.List.{append-nil, append_assoc}
use mathlib.Core.Path.{subst}
use sync_harbor.Base.{
  ◌≡◌, refl, sym, ap, ◌∙◌, Bool, true, false, ◌&&◌, not, Bool-cases, Option-cases, inl, inr, Option,
  none, some, List, [], ◌∷◌, ◌++◌, arith, ◌==◌, if◌then◌else◌,
}
use sync_harbor.Base.Dict.{lookup, insert, lookup-insert}
use sync_harbor.Utils.Kinds.{EntryType, entry_type_eq}
use sync_harbor.Utils.FilePath.{FilePath, is_empty, path_eq, parent_path}
use sync_harbor.Database.Connection.{Codes, Connection, Result, ok, err}
use sync_harbor.Changes.Change.{Change, change_target_type, dispatch}
use sync_harbor.Manager.{
  Active, Action, starts, creates_path, Manager, Stop, Making, create_missing, ensure_path,
  start_change, add_dependent, is_new, admit, then_start, handle_change,
}

-- Whether a change is run as a change of the path: a new directory is made at once instead.
abbrev pub runs_at : FilePath → Change → Bool
runs_at q ch = elim (change_target_type ch) [
  | none ↦ false
  | some entry_type ↦ not (entry_type == EntryType.directory && is_new ch) && q == ch.target_path
]

-- The change of a path that is under way, and those that wait for it.
abbrev pub unfinished : FilePath → Manager → List Change
unfinished q m = elim (lookup q m.current_changes) [
  | none ↦ []
  | some active ↦ active.change ∷ active.dependents
]

-- The changes started at a path, the first one first.
abbrev pub first_of : List Change → List Change
first_of [] = []
first_of (ch ∷ chs) = ch ∷ []

-- Of changes handed over, the one that is started, given those of the path that are unfinished.
abbrev pub started_now : List Change → List Change → List Change
started_now [] new = first_of new
started_now (ch ∷ chs) new = []

-- The changes started at a path, the first one first.
unfoldable pub started : FilePath → List Action → List Change
started q [] = []
started q (creates_path path missing ∷ actions) = started q actions
started q (starts path ch ∷ actions) =
    let rest = started q actions in if q == path then ch ∷ rest else rest

started-append :
    (q : FilePath) (before after : List Action)
    → started q (before ++ after) ≡ started q before ++ started q after
unfolding started
started-append q [] after = refl
started-append q (creates_path path missing ∷ before) after = started-append q before after
started-append q (starts path ch ∷ before) after = ground (arith, started-append q before after)

-- What a call that returned did to the changes of a path.
pub record Effect (q : FilePath) (new : List Change) (m m' : Manager) : Type 0 where
  pub queued : unfinished q m' ≡ unfinished q m ++ new
  pub begun : started q m'.actions ≡ started q m.actions ++ started_now (unfinished q m) new

pub started_now-nil : (chs : List Change) → started_now chs [] ≡ []
started_now-nil [] = refl
started_now-nil (ch ∷ chs) = refl

pub no_Effect :
    (q : FilePath) (m m' : Manager)
    → unfinished q m' ≡ unfinished q m
    → started q m'.actions ≡ started q m.actions
    → Effect q [] m m'
no_Effect q m m' e f = record {
  queued = e ∙ sym (append-nil _);
  begun =
      f ∙ sym (ap (◌++◌ (started q m.actions)) (started_now-nil (unfinished q m)) ∙ append-nil _);
}

started-creates :
    (q path missing : FilePath) (before : List Action)
    → started q (before ++ (creates_path path missing ∷ [])) ≡ started q before
unfolding started
started-creates q path missing before =
    started-append q before (creates_path path missing ∷ []) ∙ append-nil (started q before)

create_missing-Effect :
    (made : Making) (path q : FilePath) (missing : Result FilePath) (m : Manager)
    → Effect q [] m (create_missing made path missing m).1
unfolding create_missing
create_missing-Effect made path q (err e) m = no_Effect q m m refl refl
create_missing-Effect made path q (ok missing) m = elim (Bool-cases (is_empty missing)) [
  | inl nothing ↦ rw nothing (no_Effect q m m refl refl)
  | inr something ↦ rw something (no_Effect q m _ refl (started-creates q path missing m.actions))
]

add_dependent-Effect :
    (q : FilePath) (active : Active) (ch : Change) (m : Manager)
    → lookup ch.target_path m.current_changes ≡ some active
    → Effect q
        (if q == ch.target_path then ch ∷ [] else [])
        m
        (add_dependent ch.target_path active ch m)
unfolding add_dependent
add_dependent-Effect q active ch m e =
    let found =
      lookup-insert q ch.target_path (record active { dependents = active.dependents ++ (ch ∷ []) })
        m.current_changes in
    record {
      queued = ground (arith, found, append-nil (unfinished q m));
      begun = ground (arith, append-nil (started q m.actions));
    }

-- The manager after a change was dispatched.
abbrev started_change : Change → Manager → Manager
started_change ch m = record m {
  current_changes =
      insert ch.target_path (record { change = ch; dependents = [] }) m.current_changes;
  actions = m.actions ++ (starts ch.target_path ch ∷ []);
}

start_change-dispatched :
    (ch : Change) (m m' : Manager)
    → start_change ch.target_path ch m ≡ (none, m')
    → start_change ch.target_path ch m ≡ (none, started_change ch m)
unfolding start_change
start_change-dispatched ch m m' e = elim (Option-cases (dispatch ch)) [
  | inl undefined ↦ absurd (ground (arith, e, undefined))
  | inr (cmds, dispatched) ↦ rw (start_change, dispatched) refl
]

started_change-Effect :
    (q : FilePath) (ch : Change) (m : Manager)
    → lookup ch.target_path m.current_changes ≡ none
    → Effect q (if q == ch.target_path then ch ∷ [] else []) m (started_change ch m)
unfolding started
started_change-Effect q ch m e =
    let found =
      lookup-insert q ch.target_path (record { change = ch; dependents = [] }) m.current_changes in
    record {
      queued = ground (arith, found, append-nil (unfinished q m));
      begun = ground (
        arith,
        started-append q m.actions (starts ch.target_path ch ∷ []),
        append-nil (started q m.actions),
      );
    }

start_change-Effect :
    (q : FilePath) (ch : Change) (m m' : Manager)
    → lookup ch.target_path m.current_changes ≡ none
    → start_change ch.target_path ch m ≡ (none, m')
    → Effect q (if q == ch.target_path then ch ∷ [] else []) m m'
start_change-Effect q ch m m' e done =
    subst (Effect q (if q == ch.target_path then ch ∷ [] else []) m)
      (ap (λ r. r.1) (sym (start_change-dispatched ch m m' done) ∙ done))
      (started_change-Effect q ch m e)

started_now-append :
    (chs new after : List Change)
    → started_now chs new ++ started_now (chs ++ new) after ≡ started_now chs (new ++ after)
started_now-append [] [] after = refl
started_now-append [] (ch ∷ new) after = refl
started_now-append (ch ∷ chs) new after = refl

pub Effect-then :
    (q : FilePath) (new after : List Change) (m m' m'' : Manager)
    → Effect q new m m'
    → Effect q after m' m''
    → Effect q (new ++ after) m m''
Effect-then q new after m m' m'' v w = record {
  queued = w.queued ∙ ap (λ l. l ++ after) v.queued ∙ append_assoc (unfinished q m) new after;
  begun =
      w.begun
      ∙ rw (v.begun, v.queued)
          (append_assoc (started q m.actions) _ _
            ∙ ap (λ l. started q m.actions ++ l) (started_now-append (unfinished q m) new after));
}

create_missing-current_changes :
    (made : Making) (path : FilePath) (missing : Result FilePath) (m : Manager)
    → (create_missing made path missing m).1.current_changes ≡ m.current_changes
unfolding create_missing
create_missing-current_changes made path (err e) m = refl
create_missing-current_changes made path (ok missing) m = ground arith

then_start-Effect :
    (q : FilePath) (ch : Change) (m m' : Manager) (r : Option Stop × Manager)
    → Effect q [] m r.1
    → lookup ch.target_path r.1.current_changes ≡ none
    → then_start ch.target_path ch r ≡ (none, m')
    → Effect q (if q == ch.target_path then ch ∷ [] else []) m m'
unfolding then_start
then_start-Effect q ch m m' (some s, m1) v free e = absurd (ground (arith, e))
then_start-Effect q ch m m' (none, m1) v free e =
    Effect-then q [] _ m m1 m' v (start_change-Effect q ch m1 m' free e)

module _ (made : Making) (c : Codes) (db : Connection) (ch : Change) (m : Manager) where
  -- What is done before a change of a free path starts.
  abbrev pub prepared : Bool → Option Stop × Manager
  prepared new = if new then ensure_path made c db (parent_path ch.target_path) m else (none, m)

  prepared-Effect : (q : FilePath) (new : Bool) → Effect q [] m (prepared new).1
  unfolding ensure_path
  prepared-Effect q true = create_missing-Effect made (parent_path ch.target_path) q _ m
  prepared-Effect q false = no_Effect q m m refl refl

  prepared-current_changes : (new : Bool) → (prepared new).1.current_changes ≡ m.current_changes
  unfolding ensure_path
  prepared-current_changes true =
      create_missing-current_changes made (parent_path ch.target_path) _ m
  prepared-current_changes false = refl

  pub admit-free :
      lookup ch.target_path m.current_changes ≡ none
      → admit made c db ch m ≡ then_start ch.target_path ch (prepared (is_new ch))
  unfolding admit
  admit-free free = ground (arith, free)

  pub admit-busy :
      (active : Active)
      → lookup ch.target_path m.current_changes ≡ some active
      → admit made c db ch m ≡ (none, add_dependent ch.target_path active ch m)
  unfolding admit
  admit-busy active found = ground (arith, found)

  admit-Effect :
      (q : FilePath) (m' : Manager)
      → admit made c db ch m ≡ (none, m')
      → Effect q (if q == ch.target_path then ch ∷ [] else []) m m'
  admit-Effect q m' e = elim (Option-cases (lookup ch.target_path m.current_changes)) [
    | inl free ↦
        then_start-Effect q ch m m' (prepared (is_new ch)) (prepared-Effect q (is_new ch))
          (ap (lookup ch.target_path) (prepared-current_changes (is_new ch)) ∙ free)
          (sym (admit-free free) ∙ e)
    | inr (active, found) ↦
        subst (Effect q (if q == ch.target_path then ch ∷ [] else []) m)
          (ap (λ r. r.1) (sym (admit-busy active found) ∙ e))
          (add_dependent-Effect q active ch m found)
  ]

  pub handle_change-directory :
      {entry_type : EntryType}
      → change_target_type ch ≡ some entry_type
      → (entry_type == EntryType.directory && is_new ch) ≡ true
      → handle_change made c db ch m ≡ ensure_path made c db ch.target_path m
  unfolding handle_change
  handle_change-directory found directory = ground (arith, found, directory)

  pub handle_change-other :
      {entry_type : EntryType}
      → change_target_type ch ≡ some entry_type
      → (entry_type == EntryType.directory && is_new ch) ≡ false
      → handle_change made c db ch m ≡ admit made c db ch m
  unfolding handle_change
  handle_change-other found other = ground (arith, found, other)

  pub handle_change-Effect :
      (q : FilePath) (m' : Manager)
      → handle_change made c db ch m ≡ (none, m')
      → Effect q (if runs_at q ch then ch ∷ [] else []) m m'
  unfolding handle_change ensure_path
  handle_change-Effect q m' e = elim (Option-cases (change_target_type ch)) [
    | inl none_found ↦ absurd (ground (arith, e))
    | inr (entry_type, found) ↦ elim (Bool-cases (entry_type == EntryType.directory && is_new ch)) [
      | inl directory ↦
          subst (λ new. Effect q new m m') (ground arith)
            (subst (Effect q [] m)
              (ap (λ r. r.1) (sym (handle_change-directory found directory) ∙ e))
              (create_missing-Effect made ch.target_path q _ m))
      | inr other ↦
          subst (λ new. Effect q new m m') (ground arith)
            (admit-Effect q m' (sym (handle_change-other found other) ∙ e))
    ]
  ]
