-- ===== src/Registry/Laws.antt =====
-- The registry as a partial function from paths to the one event expected of each.
use sync_harbor.Base.{◌≡◌, true, false, ◌&&◌, none, some, arith, Eq, ◌==◌, ==_refl, if◌then◌else◌}
use sync_harbor.Base.Dict.{lookup, erase, lookup-emplace, lookup-erase}
use sync_harbor.Utils.Kinds.{ChangeType, change_type_eq}
use sync_harbor.Registry.{Registry, add, check}

module _ {ℓ} {K : Type ℓ} ⦃e : Eq K⦄ where
  -- `add` expects the event of a path of which none is expected, and is without effect on every
  -- other path and where an event of the path is expected already.
  pub lookup-add :
      (path : K) (ct : ChangeType) (r : Registry K) (q : K)
      → lookup q (add path ct r) ≡ (
          if q == path
          then elim (lookup path r) [ none ↦ some ct | some old ↦ some old ]
          else lookup q r)
  unfolding add
  lookup-add path ct r q = lookup-emplace q path ct r

  -- `check` says whether exactly the event asked for is expected of the path, and forgets it if so;
  -- what is expected of other paths stays, and so does all where it answers no.
  pub check_lem :
      (path : K) (ct : ChangeType) (r : Registry K) (q : K)
      → ((check path ct r).0 ≡ elim (lookup path r) [ none ↦ false | some found ↦ found == ct ])
        × (lookup q (check path ct r).1
            ≡ (if (check path ct r).0 && q == path then none else lookup q r))
  unfolding check
  check_lem path ct r q = ground (arith, lookup-erase q path r)

  -- An event that was recorded for a path with none is reported as expected once: the first check
  -- for it answers yes, and a second check of the path, for whatever event, answers no.
  pub check_once :
      (path : K) (ct again : ChangeType) (r : Registry K)
      → lookup path r ≡ none
      → let (first, r') = check path ct (add path ct r) in
        (first ≡ true) × ((check path again r').0 ≡ false)
  unfolding check
  check_once path ct again r h =
      ground (arith, lookup-add path ct r path, lookup-erase path path (add path ct r))

  pub check_expected :
      (path : K) (ct : ChangeType) (r : Registry K)
      → lookup path r ≡ some ct
      → check path ct r ≡ (true, erase path r)
  unfolding check
  check_expected path ct r h = ground (arith, ==_refl ct)
