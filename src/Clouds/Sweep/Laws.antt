-- ===== src/Clouds/Sweep/Laws.antt =====
-- Queries inside a sweep, and the events that it passes over.
use mathlib.Core.Path.{subst}
use sync_harbor.Base.{
  ◌≡◌, refl, sym, ap, ◌∙◌, true, none, some, String, arith, string_eq, if◌then◌else◌,
}
use sync_harbor.Base.Dict.{lookup, lookup-erase}
use sync_harbor.Utils.Kinds.{ChangeType, change_type_eq}
use sync_harbor.Database.Connection.{Method, Result, ok, err, Stateful, ◌>>=◌}
use sync_harbor.Registry.{Registry, add}
use sync_harbor.Registry.Laws.{lookup-add, check_expected}
use sync_harbor.Clouds.Sweep.{Sweep, Turn, asks, unless_old}

module _ {M : Type 0} where
  -- A query that answers and leaves the connection is as its answer.
  pub asks_bind :
      {A B : Type 0} (m : Method A) (f : A → Stateful (Sweep M) B) (s : Sweep M) (a : A)
      → m s.db ≡ (ok a, s.db)
      → (asks m >>= f) s ≡ f a s
  asks_bind m f s a h =
      ap
        (λ r. elim r.0 [
          | ok x ↦ f x (record s { db = r.1 })
          | err e ↦ (err e, record s { db = r.1 })
        ])
        h

  -- Nothing is reported and remembered, and what is expected afterwards is what was before.
  pub record IsPassedOver (before : Registry String) (s : Sweep M)
      (outcome : Result (Unit {0}) × Sweep M) : Type 0 where
    pub returns : outcome.0 ≡ ok tt
    pub stays : outcome.1 ≡ record s { old_expected = outcome.1.old_expected }
    pub restored : (q : String) → lookup q outcome.1.old_expected ≡ lookup q before

  pub unless_old-IsPassedOver :
      (before : Registry String) (s : Sweep M) (key : String) (ct : ChangeType) (rest : Turn M)
      → lookup key before ≡ none
      → s.old_expected ≡ add key ct before
      → IsPassedOver before s (unless_old true key ct rest s)
  unfolding unless_old
  unless_old-IsPassedOver before s key ct rest free e =
      let found : lookup key s.old_expected ≡ some ct =
        ap (lookup key) e ∙ ground (arith, lookup-add key ct before key) in
      subst (IsPassedOver before s)
        (sym (
          ap
            (λ r.
              if r.0
              then (ok tt, record s { old_expected = r.1 })
              else rest (record s { old_expected = r.1 }))
            (check_expected key ct s.old_expected found)))
        (record {
          returns = refl;
          stays = refl;
          restored = λ q.
              lookup-erase q key s.old_expected
              ∙ ground (arith, lookup-add key ct before q, ap (lookup q) e);
        })
