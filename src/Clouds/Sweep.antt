-- ===== src/Clouds/Sweep.antt =====
-- What the two `proccessChanges` share: the state of their loops, the tests against the events that
-- the program expects, and the reports.
pub mod Laws
use sync_harbor.Base.{
  ℕ, String, Bool, true, false, not, List, [], ◌∷◌, ◌++◌, string_eq, ◌==◌, if◌then◌else◌,
}
use sync_harbor.Utils.Kinds.{ChangeType, change_type_eq}
use sync_harbor.Utils.Dto.{HashSum, text, word, FileUpdatedDto, FileMovedDto}
use sync_harbor.Database.Connection.{
  Connection, Method, Result, ok, err, bad_variant_access, Stateful,
}
use sync_harbor.Changes.Change.{Change}
use sync_harbor.Changes.Factory.{make_cloud_move, make_cloud_update}
use sync_harbor.Registry.{Registry, check}

-- A change with its `_dependents`.
pub record Report : Type 0 where
  pub change : Change
  pub dependents : List Change

abbrev pub alone : Change → Report
alone ch = record { change = ch; dependents = [] }

-- The variables of a loop over entries; `memory` is what it remembers of those before.
pub record Sweep (M : Type 0) : Type 0 where
  pub db : Connection
  pub old_expected : Registry String
  pub memory : M
  pub changes : List Report

-- What becomes of one entry.
abbrev pub Turn : Type 0 → Type 0
Turn M = Stateful (Sweep M) (Unit {0})

-- Which of the four changes an entry calls for.
pub record Needs : Type 0 where
  pub need_new : Bool
  pub need_del : Bool
  pub need_move : Bool
  pub need_update : Bool

module _ {M : Type 0} where
  abbrev pub asks : {A : Type 0} → Method A → Stateful (Sweep M) A
  asks m s = let (r, db) = m s.db in (r, record s { db = db })

  -- `continue`
  abbrev pub skip : Turn M
  skip s = (ok tt, s)

  -- `changes.push_back`
  abbrev pub push_report : Report → Turn M
  push_report r s = (ok tt, record s { changes = s.changes ++ (r ∷ []) })

  -- `if (need && old_expected.check(key, ct)) continue;`
  unfoldable pub unless_old : Bool → String → ChangeType → Turn M → Turn M
  unfolding check
  unless_old need key ct rest s =
      if need
      then (let (hit, r) = check key ct s.old_expected in
          let s' = record s { old_expected = r } in if hit then (ok tt, s') else rest s')
      else rest s

-- `hash != get<std::string>(link->cloud_hash_check_sum)`
unfoldable pub differs : String → HashSum → Result Bool
differs hash (text s) = ok (not (hash == s))
differs hash (word n) = err bad_variant_access

-- A move with the update that waits for it.
abbrev pub move_then_update : List ℕ → FileMovedDto → FileUpdatedDto → Report
move_then_update clouds m_dto u_dto = record {
  change = make_cloud_move clouds m_dto;
  dependents = make_cloud_update clouds u_dto ∷ [];
}
