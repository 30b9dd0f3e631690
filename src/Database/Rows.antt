-- ===== src/Database/Rows.antt =====
-- Facts about searching, filtering and changing rows whose keys ascend.
use mathlib.Core.Option
use sync_harbor.Base.{if◌then◌else◌}
use sync_harbor.Base.{
  ℕ, suc, ◌≤◌, ◌≡◌, refl, Bool, true, false, not, none, some, List, [], ◌∷◌, ◌++◌, find, any, keep,
  amend, arith, ◌==◌, nat_eq,
}
use sync_harbor.Database.Tables.{Ascending}

module _ {ℓ} {A : Type ℓ} where
  pub find-append :
      (p : A → Bool) (xs ys : List A)
      → find p (xs ++ ys) ≡ elim (find p xs) [ none ↦ find p ys | some a ↦ some a ]
  unfolding find
  find-append p [] ys = ground arith
  find-append p (x ∷ xs) ys = ground (arith, find-append p xs ys)

  pub any-append_left : (p : A → Bool) (xs ys : List A) → any p xs ≡ true → any p (xs ++ ys) ≡ true
  unfolding any
  any-append_left p [] ys h = ground arith
  any-append_left p (x ∷ xs) ys h = ground (arith, any-append_left p xs ys)

  pub any-append_none :
      (p : A → Bool) (xs ys : List A)
      → any p xs ≡ false
      → any p ys ≡ false
      → any p (xs ++ ys) ≡ false
  unfolding any
  any-append_none p [] ys h k = k
  any-append_none p (x ∷ xs) ys h k = ground (arith, any-append_none p xs ys)

  -- A change that the test does not see.
  pub any-amend :
      (p q : A → Bool) (f : A → A) (xs : List A)
      → ((a : A) → p (f a) ≡ p a)
      → any p (amend q f xs) ≡ any p xs
  unfolding any amend
  any-amend p q f [] h = refl
  any-amend p q f (x ∷ xs) h = ground (arith, h x, any-amend p q f xs h)

  pub any-keep_none : (p q : A → Bool) (xs : List A) → any p xs ≡ false → any p (keep q xs) ≡ false
  unfolding any keep
  any-keep_none p q [] h = refl
  any-keep_none p q (x ∷ xs) h = ground (arith, any-keep_none p q xs)

  -- Filtering keeps a row that satisfies the filter.
  pub any-keep :
      (p q : A → Bool) (xs : List A)
      → ((a : A) → p a ≡ true → q a ≡ true)
      → any p xs ≡ true
      → any p (keep q xs) ≡ true
  unfolding any keep
  any-keep p q [] h k = k
  any-keep p q (x ∷ xs) h k = ground (arith, h x, any-keep p q xs h)

  pub find-keep_self : (p : A → Bool) (xs : List A) → find p (keep (λ x. not (p x)) xs) ≡ none
  unfolding find keep
  find-keep_self p [] = refl
  find-keep_self p (x ∷ xs) = ground (arith, find-keep_self p xs)

  pub find-keep :
      (p q : A → Bool) (xs : List A)
      → ((a : A) → p a ≡ true → q a ≡ true)
      → find p (keep q xs) ≡ find p xs
  unfolding find keep
  find-keep p q [] h = refl
  find-keep p q (x ∷ xs) h = ground (arith, h x, find-keep p q xs h)

  -- The row that a search finds after a change that its test does not see.
  pub find-amend :
      (p q : A → Bool) (f : A → A) (xs : List A)
      → ((a : A) → p (f a) ≡ p a)
      → find p (amend q f xs)
        ≡ elim (find p xs) [ none ↦ none | some a ↦ some (elim (q a) [ true ↦ f a | false ↦ a ]) ]
  unfolding find amend
  find-amend p q f [] h = refl
  find-amend p q f (x ∷ xs) h = ground (arith, h x, find-amend p q f xs h)

  pub find_sound : (p : A → Bool) (xs : List A) (a : A) → find p xs ≡ some a → p a ≡ true
  unfolding find
  find_sound p [] a h = ground arith
  find_sound p (x ∷ xs) a h = ground (arith, find_sound p xs a)

  pub any_of_find : (p : A → Bool) (xs : List A) (a : A) → find p xs ≡ some a → any p xs ≡ true
  unfolding find any
  any_of_find p [] a h = ground arith
  any_of_find p (x ∷ xs) a h = ground (arith, any_of_find p xs a)

  pub find-none : (p : A → Bool) (xs : List A) → any p xs ≡ false → find p xs ≡ none
  unfolding find any
  find-none p [] h = refl
  find-none p (x ∷ xs) h = ground (arith, find-none p xs)

module _ {ℓ} {A : Type ℓ} (key : A → ℕ) where
  pub Ascending-mono :
      (lo lo' hi : ℕ) (xs : List A) → lo' ≤ lo → Ascending key lo xs hi → Ascending key lo' xs hi
  Ascending-mono lo lo' hi [] h w = omega arith
  Ascending-mono lo lo' hi (x ∷ xs) h w = (omega arith, w.1)

  pub Ascending-append :
      (lo hi : ℕ) (xs : List A) (a : A)
      → key a ≡ hi
      → Ascending key lo xs hi
      → Ascending key lo (xs ++ (a ∷ [])) (suc hi)
  Ascending-append lo hi [] a e w = (omega arith, omega arith)
  Ascending-append lo hi (x ∷ xs) a e w = (w.0, Ascending-append (suc (key x)) hi xs a e w.1)

  pub Ascending-keep :
      (lo hi : ℕ) (p : A → Bool) (xs : List A)
      → Ascending key lo xs hi
      → Ascending key lo (keep p xs) hi
  unfolding keep
  Ascending-keep lo hi p [] w = w
  Ascending-keep lo hi p (x ∷ xs) w = ground (
    arith,
    Ascending-keep (suc (key x)) hi p xs w.1,
    Ascending-mono (suc (key x)) lo hi (keep p xs),
  )

  pub Ascending-amend :
      (lo hi : ℕ) (p : A → Bool) (f : A → A) (xs : List A)
      → ((a : A) → key (f a) ≡ key a)
      → Ascending key lo xs hi
      → Ascending key lo (amend p f xs) hi
  unfolding amend
  Ascending-amend lo hi p f [] h w = w
  Ascending-amend lo hi p f (x ∷ xs) h w =
      ground (arith, h x, Ascending-amend (suc (key x)) hi p f xs h w.1)

  -- A key that is still to be given out is in no row.
  pub any_above :
      (lo hi k : ℕ) (xs : List A)
      → Ascending key lo xs hi
      → hi ≤ k
      → any (λ a. key a == k) xs ≡ false
  unfolding any
  any_above lo hi k [] w h = refl
  any_above lo hi k (x ∷ xs) w h =
      ground (arith, any_above (suc (key x)) hi k xs w.1, Ascending-le (suc (key x)) hi xs w.1)
    where
      Ascending-le : (lo hi : ℕ) (xs : List A) → Ascending key lo xs hi → lo ≤ hi
      Ascending-le lo hi [] w = w
      Ascending-le lo hi (x ∷ xs) w = omega (arith, Ascending-le (suc (key x)) hi xs w.1)

  -- Changing the rows with key `g` changes what a search by key finds for `g` alone.
  pub find-amend_key :
      (k g : ℕ) (f : A → A) (xs : List A)
      → ((a : A) → key (f a) ≡ key a)
      → find (λ a. key a == k) (amend (λ a. key a == g) f xs)
        ≡ Option.map (λ a. if k == g then f a else a) (find (λ a. key a == k) xs)
  unfolding find amend
  find-amend_key k g f [] h = refl
  find-amend_key k g f (x ∷ xs) h = ground (arith, h x, find-amend_key k g f xs h)

  Ascending-le : (lo hi : ℕ) (xs : List A) → Ascending key lo xs hi → lo ≤ hi
  Ascending-le lo hi [] w = w
  Ascending-le lo hi (x ∷ xs) w = omega (arith, Ascending-le (suc (key x)) hi xs w.1)

  -- Every key that is found is below the next one.
  pub find-below :
      (lo hi : ℕ) (p : A → Bool) (xs : List A) (a : A)
      → Ascending key lo xs hi
      → find p xs ≡ some a
      → suc (key a) ≤ hi
  unfolding find
  find-below lo hi p [] a w h = ground arith
  find-below lo hi p (x ∷ xs) a w h =
      ground (arith, find-below (suc (key x)) hi p xs a w.1, Ascending-le (suc (key x)) hi xs w.1)
