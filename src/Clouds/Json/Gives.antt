-- ===== src/Clouds/Json/Gives.antt =====
-- What a reading, or a method that may throw, gives where it returns.
use mathlib.Core.Path.{◌≡◌, refl, ap, subst}
use sync_harbor.Database.Connection.{Failure, Result, ok, err, Stateful, ◌>>=◌}
use sync_harbor.Clouds.Json.{◌then_read◌}

abbrev pub Gives : {A : Type 0} → (A → Type 0) → Result A → Type 0
Gives P (ok a) = P a
Gives P (err e) = Unit {0}

abbrev pub Anything : {A : Type 0} → A → Type 0
Anything a = Unit {0}

pub anything : {A : Type 0} (r : Result A) → Gives Anything r
anything (ok a) = tt
anything (err e) = tt

module _ {A B : Type 0} where
  pub Gives-then :
      (Q : A → Type 0) (P : B → Type 0) (r : Result A) (f : A → Result B)
      → Gives Q r
      → ((a : A) → Q a → Gives P (f a))
      → Gives P (r then_read f)
  Gives-then Q P (ok a) f h k = k a h
  Gives-then Q P (err e) f h k = tt

  pub reads_then :
      (P : B → Type 0) (r : Result A) (f : A → Result B)
      → ((a : A) → Gives P (f a))
      → Gives P (r then_read f)
  reads_then P (ok a) f k = k a
  reads_then P (err e) f k = tt

  goes_on :
      {S : Type 0} (Q : A → Type 0) (P : B → Type 0) (out : Result A × S) (f : A → Stateful S B)
      → Gives Q out.0
      → ((a : A) (s : S) → Q a → Gives P (f a s).0)
      → let next : Result B × S = elim out.0 [ ok a ↦ f a out.1 | err e ↦ (err e, out.1) ] in
        Gives P next.0
  goes_on Q P (ok a, s) f h k = k a s h
  goes_on Q P (err e, s) f h k = tt

  pub Gives-bind :
      {S : Type 0} (Q : A → Type 0) (P : B → Type 0) (m : Stateful S A) (f : A → Stateful S B)
      (s : S)
      → Gives Q (m s).0
      → ((a : A) (s : S) → Q a → Gives P (f a s).0)
      → Gives P ((m >>= f) s).0
  Gives-bind Q P m f s = goes_on Q P (m s) f

pub given_ok : {A : Type 0} (P : A → Type 0) (r : Result A) (a : A) → Gives P r → r ≡ ok a → P a
given_ok P r a h e = subst (Gives P) e h

pub Gives-map :
    {A : Type 0} (P Q : A → Type 0) (r : Result A) → ((a : A) → P a → Q a) → Gives P r → Gives Q r
Gives-map P Q (ok a) f h = f a h
Gives-map P Q (err e) f h = tt

pub itself : {A : Type 0} (r : Result A) → Gives (λ a. r ≡ ok a) r
itself (ok a) = refl
itself (err e) = tt

-- A part that returns is as what it returns and leaves.
pub bind_ok :
    {S A B : Type 0} (m : Stateful S A) (f : A → Stateful S B) (s s' : S) (a : A)
    → m s ≡ (ok a, s')
    → (m >>= f) s ≡ f a s'
bind_ok m f s s' a = ap (λ r. elim r.0 [ ok x ↦ f x r.1 | err e ↦ (err e, r.1) ])

pub bind_err :
    {S A B : Type 0} (m : Stateful S A) (f : A → Stateful S B) (s s' : S) (e : Failure)
    → m s ≡ (err e, s')
    → (m >>= f) s ≡ (err e, s')
bind_err m f s s' e = ap (λ r. elim r.0 [ ok x ↦ f x r.1 | err e ↦ (err e, r.1) ])
