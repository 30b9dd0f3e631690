-- ===== src/Database/Connection.antt =====
-- A SQLite connection, the codes that its calls return, and the transactions of `Database`.
use sync_harbor.Base.{Bool, true, false, Option, none, some}
use sync_harbor.Utils.Kinds.{EntryType}
use sync_harbor.Database.Tables.{Tables}

-- What a method throws: `std::runtime_error` of one of its messages, or a parse error. The callers of
-- the methods also see `std::filesystem_error`, `std::bad_variant_access`, a `json::type_error`, the end
-- of a request that was tried too often, a folder that a cloud refuses to make, and undefined behaviour.
pub data Failure : Type 0 where
  begin_failed prepare_failed step_failed commit_failed not_found parse_failed : Failure
  file_system_failed bad_variant_access type_failed request_failed folder_refused : Failure
  undefined_behaviour : Failure

pub data Result {ℓ} (A : Type ℓ) : Type ℓ where
  ok : A → Result A
  err : Failure → Result A

-- `saved` holds the tables at the open transaction's BEGIN.
pub record Connection : Type 0 where
  pub tables : Tables
  pub saved : Option Tables

-- Whether the calls of one method return the code that it expects, and what an uninitialised
-- `EntryType` member holds.
pub record Codes : Type 0 where
  pub begins : Bool
  pub prepares : Bool
  pub steps : Bool
  pub commits : Bool
  pub indeterminate : EntryType

-- What a computation that may throw returns, and the state that it leaves.
abbrev pub Stateful : Type 0 → Type 0 → Type 0
Stateful S A = S → Result A × S

abbrev pub Method : Type 0 → Type 0
Method A = Stateful Connection A

infixl 5 ◌>>=◌ ◌>>◌
abbrev pub ◌>>=◌ : {S A B : Type 0} → Stateful S A → (A → Stateful S B) → Stateful S B
◌>>=◌ m f s = let (r, s') = m s in elim r [ ok a ↦ f a s' | err e ↦ (err e, s') ]

abbrev pub ◌>>◌ : {S B : Type 0} → Stateful S (Unit {0}) → Stateful S B → Stateful S B
m >> k = m >>= λ _. k

abbrev pub return : {S A : Type 0} → A → Stateful S A
return a s = (ok a, s)

abbrev pub throw : {S A : Type 0} → Failure → Stateful S A
throw e s = (err e, s)

-- A write statement: the new tables with a value, or `none` where a constraint refuses it.
abbrev pub Statement : Type 0 → Type 0
Statement A = Tables → Option (A × Tables)

-- "BEGIN TRANSACTION;" fails inside an open transaction.
unfoldable pub begin_transaction : Codes → Method (Unit {0})
begin_transaction c s = elim s.saved [
  | none ↦ elim c.begins [
    | true ↦ (ok tt, record s { saved = some s.tables })
    | false ↦ (err begin_failed, s)
  ]
  | some t ↦ (err begin_failed, s)
]

-- "ROLLBACK;"
unfoldable pub rollback : Connection → Connection
rollback s = elim s.saved [ none ↦ s | some t ↦ record { tables = t; saved = none } ]

abbrev pub rollback_and_throw : {A : Type 0} → Failure → Method A
rollback_and_throw e s = (err e, rollback s)

unfoldable pub prepare : Codes → Method (Unit {0})
prepare c = elim c.prepares [ true ↦ return tt | false ↦ rollback_and_throw prepare_failed ]

unfoldable pub step : {A : Type 0} → Codes → Statement A → Method A
step c stmt s = elim c.steps [
  | true ↦ elim (stmt s.tables) [
    | none ↦ rollback_and_throw step_failed s
    | some (a, t) ↦ (ok a, record s { tables = t })
  ]
  | false ↦ rollback_and_throw step_failed s
]

-- "COMMIT;"
unfoldable pub commit : Codes → Method (Unit {0})
commit c s = elim c.commits [
  | true ↦ (ok tt, record s { saved = none })
  | false ↦ rollback_and_throw commit_failed s
]

-- The course that every writing method takes round its one statement.
unfoldable pub transaction : {A : Type 0} → Codes → Statement A → Method A
unfolding begin_transaction prepare step commit rollback
transaction c stmt = do begin_transaction c; prepare c; a ← step c stmt; commit c; return a

-- A query outside a transaction: a failed step counts as "no row".
unfoldable pub query : {A : Type 0} → Codes → (Tables → Option A) → Method (Option A)
query c select s = elim c.prepares [
  | true ↦ (ok (elim c.steps [ true ↦ select s.tables | false ↦ none ]), s)
  | false ↦ (err prepare_failed, s)
]

-- A query that throws where it finds no row.
unfoldable pub query_or_throw : {A : Type 0} → Codes → (Tables → Option A) → Method A
unfolding query
query_or_throw c select = do
  found ← query c select
  elim found [ none ↦ throw not_found | some a ↦ return a ]
