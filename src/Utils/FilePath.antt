-- ===== src/Utils/FilePath.antt =====
-- `std::filesystem::path` as far as the program uses it, and `normalizePath` of src/utils.cpp.
-- A path is its root directory flag and its names, none of them empty; `path.string()` of two such
-- paths agrees exactly when the paths do.
use sync_harbor.Base.{
  ℕ, zero, suc, ◌+◌, ◌-◌, String, ◌≡◌, ap, Bool, false, ◌&&◌, ◌||◌, List, [], ◌∷◌, ◌++◌, arith, Eq,
  ◌==◌, ltb, nat_eq, string_eq, list_eq, dite, if◌then◌else◌,
}
use mathlib.Core.Bool.{Bool-discrete}

pub record FilePath : Type 0 where
  pub rooted : Bool
  pub names : List String

path_dec : Discrete FilePath
unfolding list_eq
path_dec p q =
    dite (Bool-discrete p.rooted q.rooted)
      (λ e.
        dite (list_eq.dec p.names q.names) (λ f. yes (λ i. record { rooted = e i; names = f i }))
          (λ n. no (λ r. n (ap (λ (x : FilePath). x.names) r))))
      (λ n. no (λ r. n (ap (λ (x : FilePath). x.rooted) r)))

instance unfoldable pub path_eq : Eq FilePath
unfolding path_dec list_eq
path_eq = record { dec = path_dec }

abbrev pub empty_path : FilePath
empty_path = record { rooted = false; names = [] }

abbrev pub relative : List String → FilePath
relative names = record { rooted = false; names = names }

-- `p.empty()`
unfoldable pub is_empty : FilePath → Bool
is_empty p = if p.rooted then false else p.names == []

-- `p /= name`
abbrev pub append_name : FilePath → String → FilePath
append_name p name = record p { names = p.names ++ (name ∷ []) }

-- `p / q`: an absolute `q` replaces `p`.
unfoldable pub join : FilePath → FilePath → FilePath
join p q = if q.rooted then q else record p { names = p.names ++ q.names }

unfoldable pub drop_last : List String → List String
drop_last [] = []
drop_last (x ∷ []) = []
drop_last (x ∷ y ∷ xs) = x ∷ drop_last (y ∷ xs)

unfoldable pub last_name : List String → String
last_name [] = ""
last_name (x ∷ []) = x
last_name (x ∷ y ∷ xs) = last_name (y ∷ xs)

-- `p.parent_path()`; the root is its own parent.
unfoldable pub parent_path : FilePath → FilePath
unfolding drop_last
parent_path p = record p { names = drop_last p.names }

-- `p.filename().string()`
unfoldable pub filename : FilePath → String
unfolding last_name
filename p = last_name p.names

-- `normalizePath`: the one leading slash of an absolute path is dropped.
unfoldable pub normalize_path : FilePath → FilePath
normalize_path p =
    if p.rooted && p.names == [] then empty_path else if p.rooted then relative p.names else p

-- The numbers of names in `base` that go down, and of those that go up.
downs : List String → ℕ
downs [] = 0
downs (x ∷ xs) = (if x == "." || x == ".." then 0 else 1) + downs xs

ups : List String → ℕ
ups [] = 0
ups (x ∷ xs) = (if x == ".." then 1 else 0) + ups xs

climb : ℕ → List String → List String
climb zero rest = rest
climb (suc n) rest = ".." ∷ climb n rest

-- What `lexically_relative` makes of the two rests behind the common part.
relative_rest : List String → List String → FilePath
unfolding downs ups climb
relative_rest base rest =
    if ltb (downs base) (ups base)
    then empty_path
    else if downs base == ups base && rest == []
    then relative ("." ∷ [])
    else relative (climb (downs base - ups base) rest)

relative_names : List String → List String → FilePath
unfolding relative_rest
relative_names (b ∷ base) (x ∷ rest) =
    if b == x then relative_names base rest else relative_rest (b ∷ base) (x ∷ rest)
relative_names base rest = relative_rest base rest

-- `p.lexically_relative(base)`
unfoldable pub lexically_relative : FilePath → FilePath → FilePath
unfolding relative_names
lexically_relative p base =
    if p.rooted == base.rooted then relative_names base.names p.names else empty_path
  where
    instance bool_eq : Eq Bool
    bool_eq = record { dec = Bool-discrete }

-- The part of a path behind a prefix of it.
relative_names-append :
    (base x : List String) (n : String) → relative_names base (base ++ (n ∷ x)) ≡ relative (n ∷ x)
unfolding relative_names
relative_names-append [] x n = ground arith
relative_names-append (b ∷ base) x n = ground (arith, relative_names-append base x n)

pub lexically_relative-append :
    (p : FilePath) (n : String) (x : List String)
    → lexically_relative (record p { names = p.names ++ (n ∷ x) }) p ≡ relative (n ∷ x)
unfolding lexically_relative
lexically_relative-append p n x = ground (arith, relative_names-append p.names x n)
