-- ===== src/Registry.antt =====
-- include/event-registry.h and src/event-registry.cpp: the events that the program expects the file
-- watcher to report because it caused them itself. The overloads for strings and for paths are the
-- same code at two types of keys, as are `PrevEventsRegistry` and `ThreadSafeEventsRegistry`, whose
-- mutex makes each method one atomic step.
pub mod Laws
use sync_harbor.Base.{Bool, true, false, Option, none, some, List, [], ◌∷◌, Eq, ◌==◌, if◌then◌else◌}
use sync_harbor.Base.Dict.{Dict, lookup, emplace, erase}
use sync_harbor.Utils.Kinds.{ChangeType, change_type_eq}

abbrev pub Registry {ℓ} : Type ℓ → Type ℓ
Registry K = Dict K ChangeType

module _ {ℓ} {K : Type ℓ} ⦃e : Eq K⦄ where
  -- `add`: `emplace` keeps an entry that is there.
  unfoldable pub add : K → ChangeType → Registry K → Registry K
  add path ct r = emplace path ct r

  -- `check`
  unfoldable pub check : K → ChangeType → Registry K → Bool × Registry K
  check path ct r = elim (lookup path r) [
    | none ↦ (false, r)
    | some found ↦ if found == ct then (true, erase path r) else (false, r)
  ]

  -- `copyMap`
  unfoldable pub copy_map : Registry K → Registry K × Registry K
  copy_map r = (r, [])

-- The constructor of `PrevEventsRegistry`.
abbrev pub prev_events {ℓ} : {K : Type ℓ} → Registry K → Registry K
prev_events map = map
