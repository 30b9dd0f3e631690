-- ===== src/Manager/Returns.antt =====
-- When `handleChange` returns.
use sync_harbor.Base.{
  ◌≡◌, refl, ap, ◌∙◌, Bool, true, false, ◌&&◌, Bool-cases, Option-cases, inl, inr, Option, none,
  some, List, ◌∷◌, arith, ◌==◌,
}
use sync_harbor.Base.Dict.{lookup}
use sync_harbor.Utils.Kinds.{EntryType, entry_type_eq}
use sync_harbor.Utils.FilePath.{FilePath, relative, path_eq, parent_path}
use sync_harbor.Database.Tables.{Tables}
use sync_harbor.Database.Connection.{Codes, ok}
use sync_harbor.Database.Calls.{idle}
use sync_harbor.Database.Files.{reads}
use sync_harbor.Database.MissingPath.{get_missing_path_part_split}
use sync_harbor.Changes.Change.{Change, change_target_type, dispatch}
use sync_harbor.Changes.Command.{Command}
use sync_harbor.Manager.{
  Manager, Stop, Making, start_change, is_new, create_missing, ensure_path, then_start, admit,
  handle_change,
}
use sync_harbor.Manager.Order.{
  prepared, admit-free, admit-busy, handle_change-directory, handle_change-other,
}

create_missing_returns :
    (made : Making) (path missing : FilePath) (m : Manager)
    → made m path missing ≡ none
    → (create_missing made path (ok missing) m).0 ≡ none
unfolding create_missing
create_missing_returns made path missing m e = ground (arith, e)

-- The chain of the change is not empty.
abbrev pub HasCommand : Change → Type 0
HasCommand ch = (first : Command) × (others : List Command) × (ch.cmd_chain ≡ first ∷ others)

then_start_returns :
    (path : FilePath) (ch : Change) (r : Option Stop × Manager)
    → HasCommand ch
    → r.0 ≡ none
    → (then_start path ch r).0 ≡ none
unfolding then_start start_change dispatch
then_start_returns path ch (none, m) (first, others, chain) e = rw chain refl
then_start_returns path ch (some s, m) h e = e

module _ (made : Making) (c : Codes) (t : Tables) (m : Manager) (r : reads c ≡ true)
    (fine : (m : Manager) (path missing : FilePath) → made m path missing ≡ none) where
  ensure_path_returns : (path : FilePath) → (ensure_path made c (idle t) path m).0 ≡ none
  unfolding ensure_path
  ensure_path_returns path =
      let (found, rest, split, result, before, stops) =
        get_missing_path_part_split c path m.num_clouds t r in
      rw result (create_missing_returns made path (relative rest) m (fine m path (relative rest)))

  prepared_returns : (ch : Change) (new : Bool) → (prepared made c (idle t) ch m new).0 ≡ none
  prepared_returns ch true = ensure_path_returns (parent_path ch.target_path)
  prepared_returns ch false = refl

  admit_returns : (ch : Change) → HasCommand ch → (admit made c (idle t) ch m).0 ≡ none
  admit_returns ch h = elim (Option-cases (lookup ch.target_path m.current_changes)) [
    | inl free ↦
        ap (λ o. o.0) (admit-free made c (idle t) ch m free)
        ∙ then_start_returns ch.target_path ch _ h (prepared_returns ch (is_new ch))
    | inr (active, found) ↦ ap (λ o. o.0) (admit-busy made c (idle t) ch m active found)
  ]

pub handle_change_returns :
    (made : Making) (c : Codes) (t : Tables) (ch : Change) (m : Manager) {entry_type : EntryType}
    → reads c ≡ true
    → ((m : Manager) (path missing : FilePath) → made m path missing ≡ none)
    → HasCommand ch
    → change_target_type ch ≡ some entry_type
    → (handle_change made c (idle t) ch m).0 ≡ none
handle_change_returns made c t ch m {entry_type} r fine h found =
    elim (Bool-cases (entry_type == EntryType.directory && is_new ch)) [
      | inl directory ↦
          ap (λ o. o.0) (handle_change-directory made c (idle t) ch m found directory)
          ∙ ensure_path_returns made c t m r fine ch.target_path
      | inr other ↦
          ap (λ o. o.0) (handle_change-other made c (idle t) ch m found other)
          ∙ admit_returns made c t m r fine ch h
    ]
