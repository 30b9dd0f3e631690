-- ===== src/Manager/Serial.antt =====
-- Histories of the changes handed over and completed: those of one path run in turn.
use mathlib.Core.Path.{subst}
use mathlib.Core.List.{append-nil, append_assoc}
use sync_harbor.Base.{
  ℕ, ◌≡◌, refl, sym, ap, ◌∙◌, true, false, Bool-cases, Option-cases, inl, inr, none, some, List, [],
  ◌∷◌, ◌++◌, keep, keep-append, keep-All, keep_everything, keep_nothing, All, All-append, All-mono,
  arith, ◌==◌, ==_sound, if◌then◌else◌,
}
use sync_harbor.Base.Dict.{lookup, erase, lookup-erase}
use sync_harbor.Utils.Kinds.{entry_type_eq}
use sync_harbor.Utils.FilePath.{FilePath, path_eq}
use sync_harbor.Database.Connection.{Codes, Connection}
use sync_harbor.Changes.Change.{Change}
use sync_harbor.Manager.{
  Active, Manager, Stop, Making, handle_change, handle_all, on_change_completed,
}
use sync_harbor.Manager.Order.{
  runs_at, unfinished, started, first_of, started_now, started_now-nil, Effect, no_Effect,
  Effect-then, handle_change-Effect,
}

abbrev pub idle_manager : ℕ → Manager
idle_manager num_clouds = record { current_changes = []; num_clouds = num_clouds; actions = [] }

-- Calls that returned and did not overlap. `onCommandFinished` holds the lock of the change while
-- `onChangeCompleted` reads its `_dependents` and erases it, so no `addDependent` comes between; a
-- `handleChange` that finds the change before this and adds to it behind it is an overlap, which is
-- left out. The lists are the changes handed over and those completed, the first one first.
pub data History : List Change → List Change → Manager → Type 0 where
  begins : (num_clouds : ℕ) → History [] [] (idle_manager num_clouds)
  hands :
      {handed finished : List Change} {m m' : Manager} (made : Making) (c : Codes) (db : Connection)
      (ch : Change)
      → History handed finished m
      → handle_change made c db ch m ≡ (none, m')
      → History (handed ++ (ch ∷ [])) finished m'
  completes :
      {handed finished : List Change} {m m' : Manager} (made : Making) (c : Codes) (db : Connection)
      (path : FilePath) (active : Active)
      → History handed finished m
      → lookup path m.current_changes ≡ some active
      → on_change_completed made c db path active.dependents m ≡ (none, m')
      → History handed (finished ++ (active.change ∷ [])) m'

handle_all-next :
    (made : Making) (c : Codes) (db : Connection) (ch : Change) (chs : List Change) (m : Manager)
    → (handle_change made c db ch m).0 ≡ none
    → handle_all made c db (ch ∷ chs) m ≡ handle_all made c db chs (handle_change made c db ch m).1
unfolding handle_all
handle_all-next made c db ch chs m e = ground (arith, e)

handle_all-stop :
    (made : Making) (c : Codes) (db : Connection) (ch : Change) (chs : List Change) (m : Manager)
    (s : Stop)
    → (handle_change made c db ch m).0 ≡ some s
    → (handle_all made c db (ch ∷ chs) m).0 ≡ some s
unfolding handle_all
handle_all-stop made c db ch chs m s e = ground (arith, e)

keep-one :
    (q : FilePath) (ch : Change) (chs : List Change)
    → (if runs_at q ch then ch ∷ [] else []) ++ keep (runs_at q) chs ≡ keep (runs_at q) (ch ∷ chs)
unfolding keep
keep-one q ch chs = elim (Bool-cases (runs_at q ch)) [
  | inl e ↦ ground (arith, e)
  | inr e ↦ ground (arith, e)
]

handle_all-Effect :
    (made : Making) (c : Codes) (db : Connection) (q : FilePath) (chs : List Change)
    (m m' : Manager)
    → handle_all made c db chs m ≡ (none, m')
    → Effect q (keep (runs_at q) chs) m m'
unfolding handle_all keep
handle_all-Effect made c db q [] m m' e =
    subst (Effect q [] m) (ap (λ r. r.1) e) (no_Effect q m m refl refl)
handle_all-Effect made c db q (ch ∷ chs) m m' e =
    elim (Option-cases (handle_change made c db ch m).0) [
      | inl fine ↦
          let m1 = (handle_change made c db ch m).1 in
          subst (λ new. Effect q new m m') (keep-one q ch chs)
            (Effect-then q _ _ m m1 m'
              (handle_change-Effect made c db ch m q m1 (ap (λ s. (s, m1)) fine))
              (handle_all-Effect made c db q chs m1 m'
                (sym (handle_all-next made c db ch chs m fine) ∙ e)))
      | inr (s, stops) ↦ absurd (ground (arith, e, handle_all-stop made c db ch chs m s stops))
    ]

-- A change of one path is none of another.
runs_at-other :
    (q path : FilePath) (ch : Change)
    → (q == path) ≡ false
    → runs_at path ch ≡ true
    → runs_at q ch ≡ false
runs_at-other q path ch e h = ground (arith, e, h)

unfinished-erase :
    (q path : FilePath) (m : Manager)
    → unfinished q (record m { current_changes = erase path m.current_changes })
      ≡ (if q == path then [] else unfinished q m)
unfinished-erase q path m = ground (arith, lookup-erase q path m.current_changes)

-- What the histories keep up for a path.
record InOrder (q : FilePath) (handed finished : List Change) (m : Manager) : Type 0 where
  own : All (λ ch. runs_at q ch ≡ true) (unfinished q m)
  order : keep (runs_at q) handed ≡ keep (runs_at q) finished ++ unfinished q m
  begun : started q m.actions ≡ keep (runs_at q) finished ++ first_of (unfinished q m)

first_of-append :
    (before : List Change) (unf new : List Change)
    → (before ++ first_of unf) ++ started_now unf new ≡ before ++ first_of (unf ++ new)
first_of-append before [] new = append_assoc before [] (first_of new)
first_of-append before (ch ∷ unf) new = append-nil _

hands-InOrder :
    (q : FilePath) (handed finished : List Change) (ch : Change) (m m' : Manager)
    → Effect q (if runs_at q ch then ch ∷ [] else []) m m'
    → InOrder q handed finished m
    → InOrder q (handed ++ (ch ∷ [])) finished m'
unfolding keep
hands-InOrder q handed finished ch m m' v w =
    let new = keep (runs_at q) (ch ∷ []) in
    let v' : Effect q new m m' = v in
    record {
      own =
          subst (All (λ c. runs_at q c ≡ true)) (sym v'.queued)
            (All-append _ (unfinished q m) new w.own (keep-All (runs_at q) (ch ∷ [])));
      order =
          keep-append (runs_at q) handed (ch ∷ [])
          ∙ ap (λ l. l ++ new) w.order
          ∙ append_assoc (keep (runs_at q) finished) (unfinished q m) new
          ∙ ap (λ l. keep (runs_at q) finished ++ l) (sym v'.queued);
      begun =
          v'.begun
          ∙ ap (λ l. l ++ started_now (unfinished q m) new) w.begun
          ∙ first_of-append (keep (runs_at q) finished) (unfinished q m) new
          ∙ ap (λ l. keep (runs_at q) finished ++ first_of l) (sym v'.queued);
    }

keep-append_one :
    (q : FilePath) (finished : List Change) (ch : Change)
    → keep (runs_at q) (finished ++ (ch ∷ []))
      ≡ keep (runs_at q) finished ++ (if runs_at q ch then ch ∷ [] else [])
unfolding keep
keep-append_one q finished ch = keep-append (runs_at q) finished (ch ∷ [])

-- The change of a path completes, and those that wait for it are handed over again.
module _ (q path : FilePath) (handed finished : List Change) (active : Active) (m m' : Manager)
    (v : Effect q
      (keep (runs_at q) active.dependents)
      (record m { current_changes = erase path m.current_changes })
      m') where
  completes_here :
      (q == path) ≡ true
      → unfinished q m ≡ active.change ∷ active.dependents
      → InOrder q handed finished m
      → InOrder q handed (finished ++ (active.change ∷ [])) m'
  completes_here same found w =
      let own = subst (All (λ ch. runs_at q ch ≡ true)) found w.own in
      let deps = keep (runs_at q) active.dependents in
      let fin = keep (runs_at q) finished in
      let erased = unfinished-erase q path m ∙ ap (λ b. if b then [] else unfinished q m) same in
      let left : unfinished q m' ≡ deps = v.queued ∙ ap (λ l. l ++ deps) erased in
      let done : keep (runs_at q) (finished ++ (active.change ∷ [])) ≡ fin ++ (active.change ∷ []) =
        keep-append_one q finished active.change
        ∙ ap (λ b. fin ++ (if b then active.change ∷ [] else [])) own.0 in
      record {
        own =
            subst (All (λ ch. runs_at q ch ≡ true)) (sym left)
              (keep-All (runs_at q) active.dependents);
        order =
            w.order
            ∙ ap (λ l. fin ++ l) found
            ∙ sym (append_assoc fin (active.change ∷ []) active.dependents)
            ∙ cc (done, left, keep_everything (runs_at q) active.dependents own.1);
        begun = v.begun ∙ cc (erased, w.begun, found, done, left);
      }

  completes_elsewhere :
      (q == path) ≡ false
      → All (λ ch. runs_at path ch ≡ true) (active.change ∷ active.dependents)
      → InOrder q handed finished m
      → InOrder q handed (finished ++ (active.change ∷ [])) m'
  completes_elsewhere other theirs w =
      let none_waits =
        keep_nothing (runs_at q) active.dependents
          (All-mono _ _ active.dependents (λ ch. runs_at-other q path ch other) theirs.1) in
      let fin = keep (runs_at q) finished in
      let kept = unfinished-erase q path m ∙ ap (λ b. if b then [] else unfinished q m) other in
      let before = unfinished q (record m { current_changes = erase path m.current_changes }) in
      let left : unfinished q m' ≡ unfinished q m =
        v.queued ∙ cc (kept, none_waits, append-nil (unfinished q m)) in
      let done : keep (runs_at q) (finished ++ (active.change ∷ [])) ≡ fin =
        keep-append_one q finished active.change
        ∙ ap (λ b. fin ++ (if b then active.change ∷ [] else []))
            (runs_at-other q path active.change other theirs.0)
        ∙ append-nil fin in
      record {
        own = subst (All (λ ch. runs_at q ch ≡ true)) (sym left) w.own;
        order = w.order ∙ cc (done, left);
        begun =
            v.begun
            ∙ ap (λ l. started q m.actions ++ started_now before l) none_waits
            ∙ ap (λ l. started q m.actions ++ l) (started_now-nil before)
            ∙ append-nil (started q m.actions)
            ∙ w.begun
            ∙ cc (done, left);
      }

unfinished-active :
    (path : FilePath) (active : Active) (m : Manager)
    → lookup path m.current_changes ≡ some active
    → unfinished path m ≡ active.change ∷ active.dependents
unfinished-active path active m found = ground (arith, found)

completes-InOrder :
    (q path : FilePath) (handed finished : List Change) (active : Active) (m m' : Manager)
    → lookup path m.current_changes ≡ some active
    → Effect q
        (keep (runs_at q) active.dependents)
        (record m { current_changes = erase path m.current_changes })
        m'
    → InOrder path handed finished m
    → InOrder q handed finished m
    → InOrder q handed (finished ++ (active.change ∷ [])) m'
completes-InOrder q path handed finished active m m' found v at_path w =
    let theirs = unfinished-active path active m found in
    elim (Bool-cases (q == path)) [
      | inl same ↦
          completes_here q path handed finished active m m' v same
            (ap (λ p. unfinished p m) (==_sound q path same) ∙ theirs) w
      | inr other ↦
          completes_elsewhere q path handed finished active m m' v other
            (subst (All (λ ch. runs_at path ch ≡ true)) theirs at_path.own) w
    ]

History-InOrder :
    {handed finished : List Change} {m : Manager}
    → History handed finished m
    → (q : FilePath) → InOrder q handed finished m
unfolding keep started lookup on_change_completed
History-InOrder (begins num_clouds) q = record { own = tt; order = refl; begun = refl }
History-InOrder (hands {handed} {finished} {m} {m'} made c db ch h e) q =
    hands-InOrder q handed finished ch m m' (handle_change-Effect made c db ch m q m' e)
      (History-InOrder h q)
History-InOrder (completes {handed} {finished} {m} {m'} made c db path active h found e) q =
    completes-InOrder q path handed finished active m m' found
      (handle_all-Effect made c db q active.dependents _ m' e) (History-InOrder h path)
      (History-InOrder h q)

-- In every history of calls of `handleChange` and `onChangeCompleted` that return and do not overlap, each
-- completion handing over the dependents that the change has, and for every path, counting the changes
-- whose first command has its DTO and that are no new directories: those of the path that were handed over
-- are, in this order, those completed, the one under way and those that wait for it; and those started
-- are those completed and the one under way.
pub changes_in_order :
    {handed finished : List Change} {m : Manager} (q : FilePath)
    → History handed finished m
    → (keep (runs_at q) handed ≡ keep (runs_at q) finished ++ unfinished q m)
      × (started q m.actions ≡ keep (runs_at q) finished ++ first_of (unfinished q m))
changes_in_order q h = let w = History-InOrder h q in (w.order, w.begun)
