-- ===== src/Base/Dict.antt =====
-- `std::unordered_map`, as an association list that holds each key at most once.
use mathlib.Core.Path.{◌≡◌, refl}
use mathlib.Core.Bool.{Bool, true, false}
use mathlib.Core.List.{List, [], ◌∷◌}
use mathlib.Core.Option.{Option, none, some}
use native.Mathlib.Omega.{arith}
use sync_harbor.Base.Equality.{Eq, ◌==◌, if◌then◌else◌}

abbrev pub Dict {ℓ κ} : Type ℓ → Type κ → Type (ℓ ⊔ κ)
Dict K V = List (K × V)

module _ {ℓ κ} {K : Type ℓ} {V : Type κ} ⦃e : Eq K⦄ where
  unfoldable pub lookup : K → Dict K V → Option V
  lookup k [] = none
  lookup k ((j, v) ∷ d) = if k == j then some v else lookup k d

  unfoldable pub contains : K → Dict K V → Bool
  contains k [] = false
  contains k ((j, v) ∷ d) = if k == j then true else contains k d

  -- `m[k] = v`
  unfoldable pub insert : K → V → Dict K V → Dict K V
  insert k v [] = (k, v) ∷ []
  insert k v ((j, w) ∷ d) = if k == j then (k, v) ∷ d else (j, w) ∷ insert k v d

  -- `m.emplace(k, v)`: an entry that is there stays.
  unfoldable pub emplace : K → V → Dict K V → Dict K V
  emplace k v [] = (k, v) ∷ []
  emplace k v ((j, w) ∷ d) = if k == j then (j, w) ∷ d else (j, w) ∷ emplace k v d

  -- `m.erase(k)`
  unfoldable pub erase : K → Dict K V → Dict K V
  erase k [] = []
  erase k ((j, w) ∷ d) = let rest = erase k d in if k == j then rest else (j, w) ∷ rest

  pub lookup-insert :
      (j k : K) (v : V) (d : Dict K V)
      → lookup j (insert k v d) ≡ (if j == k then some v else lookup j d)
  unfolding insert lookup
  lookup-insert j k v [] = refl
  lookup-insert j k v ((i, w) ∷ d) = ground (arith, lookup-insert j k v d)

  pub lookup-emplace :
      (j k : K) (v : V) (d : Dict K V)
      → lookup j (emplace k v d)
        ≡ (if j == k then elim (lookup k d) [ none ↦ some v | some w ↦ some w ] else lookup j d)
  unfolding emplace lookup
  lookup-emplace j k v [] = ground arith
  lookup-emplace j k v ((i, w) ∷ d) = ground (arith, lookup-emplace j k v d)

  pub lookup-erase :
      (j k : K) (d : Dict K V) → lookup j (erase k d) ≡ (if j == k then none else lookup j d)
  unfolding erase lookup
  lookup-erase j k [] = ground arith
  lookup-erase j k ((i, w) ∷ d) = ground (arith, lookup-erase j k d)

  pub contains-lookup : (k : K) (d : Dict K V) → (contains k d ≡ false) → lookup k d ≡ none
  unfolding contains lookup
  contains-lookup k [] h = refl
  contains-lookup k ((i, w) ∷ d) h = ground (arith, contains-lookup k d)

  pub lookup-contains : (k : K) (d : Dict K V) (v : V) → lookup k d ≡ some v → contains k d ≡ true
  unfolding contains lookup
  lookup-contains k [] v h = cc
  lookup-contains k ((i, w) ∷ d) v h = ground (arith, lookup-contains k d v)
