-- ===== src/Local/Frame.antt =====
-- What a computation does to its state, whatever it returns, composed along its steps.
use sync_harbor.Base.{Bool, true, false, if◌then◌else◌}
use sync_harbor.Database.Connection.{Result, ok, err, Stateful, ◌>>=◌}

-- The state before is related to the one that the outcome leaves.
pub record Ends {S A : Type 0} (R : S → S → Type 0) (s : S) (outcome : Result A × S) : Type 0 where
  pub related : R s outcome.1

module _ {S : Type 0} {R : S → S → Type 0} (trans : (a b c : S) → R a b → R b c → R a c) where
  does_after :
      {A B : Type 0} (s : S) (r : Result A × S) (k : A → Stateful S B)
      → R s r.1
      → ((a : A) (s' : S) → Ends R s' (k a s'))
      → Ends R s (elim r.0 as (λ _. Result B × S) [ ok a ↦ k a r.1 | err e ↦ (err e, r.1) ])
  does_after s (ok a, s') k first later = record {
    related = trans s s' _ first (later a s').related;
  }
  does_after s (err e, s') k first later = record { related = first }

  -- What relates the states over every step does over the whole.
  pub does_bind :
      {A B : Type 0} (m : Stateful S A) (k : A → Stateful S B) (s : S)
      → R s (m s).1
      → ((a : A) (s' : S) → Ends R s' (k a s'))
      → Ends R s ((m >>= k) s)
  does_bind m k s first later = does_after s (m s) k first later

module _ {S : Type 0} {R : S → S → Type 0} where
  pub does_if :
      {A : Type 0} (b : Bool) (s : S) (x y : Result A × S)
      → Ends R s x
      → Ends R s y
      → Ends R s (if b then x else y)
  does_if true s x y hx hy = hx
  does_if false s x y hx hy = hy
