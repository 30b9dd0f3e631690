-- ===== src/Database/Constraints.antt =====
-- How the constraints on `file_links` and `cloud_configs` fare when rows are added, changed or dropped.
use sync_harbor.Base.{
  ℕ, ◌≡◌, refl, Bool, true, false, not, inl, inr, Bool-cases, List, [], ◌∷◌, ◌++◌, any, keep, amend,
  All, arith, nat_eq, string_eq,
}
use sync_harbor.Database.Tables.{
  FileRow, ConfigRow, LinkRow, DistinctLinks, DistinctNames, Refers, is_global, is_config, is_named,
  is_link, is_link_of,
}
use sync_harbor.Database.Rows.{any-append_none, any-amend, any-keep_none, any-keep}
use sync_harbor.Database.Write.{}
use sync_harbor.Database.Calls.{}

pub DistinctLinks-append :
    (ls : List LinkRow) (l : LinkRow)
    → any (is_link l.global_id l.cloud_id) ls ≡ false
    → DistinctLinks ls
    → DistinctLinks (ls ++ (l ∷ []))
unfolding any
DistinctLinks-append [] l h d = (refl, tt)
DistinctLinks-append (r ∷ rs) l h d = ground (
  arith,
  any-append_none (is_link r.global_id r.cloud_id) rs (l ∷ []) d.0,
  DistinctLinks-append rs l,
)

pub DistinctLinks-amend :
    (q : LinkRow → Bool) (f : LinkRow → LinkRow) (ls : List LinkRow)
    → ((l : LinkRow) → ((f l).global_id ≡ l.global_id) × ((f l).cloud_id ≡ l.cloud_id))
    → DistinctLinks ls
    → DistinctLinks (amend q f ls)
unfolding amend
DistinctLinks-amend q f [] h d = tt
DistinctLinks-amend q f (r ∷ rs) h d = ground (
  arith,
  h r,
  any-amend (is_link r.global_id r.cloud_id) q f rs (λ l. ground (arith, h l)),
  DistinctLinks-amend q f rs h d.1,
)

pub DistinctLinks-keep :
    (q : LinkRow → Bool) (ls : List LinkRow) → DistinctLinks ls → DistinctLinks (keep q ls)
unfolding keep
DistinctLinks-keep q [] d = tt
DistinctLinks-keep q (r ∷ rs) d =
    ground (arith, any-keep_none (is_link r.global_id r.cloud_id) q rs, DistinctLinks-keep q rs d.1)

pub DistinctNames-append :
    (cs : List ConfigRow) (c : ConfigRow)
    → any (is_named c.name) cs ≡ false
    → DistinctNames cs
    → DistinctNames (cs ++ (c ∷ []))
unfolding any
DistinctNames-append [] c h d = (refl, tt)
DistinctNames-append (r ∷ rs) c h d =
    ground (arith, any-append_none (is_named r.name) rs (c ∷ []) d.0, DistinctNames-append rs c)

pub DistinctNames-amend :
    (q : ConfigRow → Bool) (f : ConfigRow → ConfigRow) (cs : List ConfigRow)
    → ((c : ConfigRow) → (f c).name ≡ c.name)
    → DistinctNames cs
    → DistinctNames (amend q f cs)
unfolding amend
DistinctNames-amend q f [] h d = tt
DistinctNames-amend q f (r ∷ rs) h d = ground (
  arith,
  h r,
  any-amend (is_named r.name) q f rs (λ c. ground (arith, h c)),
  DistinctNames-amend q f rs h d.1,
)

module _ (fs gs : List FileRow) (cs ds : List ConfigRow) where
  -- Links that referred to the old tables refer to the new ones.
  pub Refers-mono :
      ((g : ℕ) → any (is_global g) fs ≡ true → any (is_global g) gs ≡ true)
      → ((c : ℕ) → any (is_config c) cs ≡ true → any (is_config c) ds ≡ true)
      → (ls : List LinkRow) → All (Refers fs cs) ls
      → All (Refers gs ds) ls
  Refers-mono hf hc [] r = tt
  Refers-mono hf hc (l ∷ ls) ((rf, rc), r) =
      ((hf l.global_id rf, hc l.cloud_id rc), Refers-mono hf hc ls r)

-- A change of a link that keeps its key keeps what it refers to.
pub Refers-amend :
    (fs : List FileRow) (cs : List ConfigRow) (q : LinkRow → Bool) (f : LinkRow → LinkRow)
    → ((l : LinkRow) → ((f l).global_id ≡ l.global_id) × ((f l).cloud_id ≡ l.cloud_id))
    → (ls : List LinkRow) → All (Refers fs cs) ls
    → All (Refers fs cs) (amend q f ls)
unfolding amend
Refers-amend fs cs q f h [] r = tt
Refers-amend fs cs q f h (l ∷ ls) r = ground (arith, h l, Refers-amend fs cs q f h ls r.1)

-- The links that stay when a file goes do not refer to it.
pub Refers-delete :
    (g : ℕ) (fs : List FileRow) (cs : List ConfigRow) (ls : List LinkRow)
    → All (Refers fs cs) ls
    → All (Refers (keep (λ r. not (is_global g r)) fs) cs) (keep (λ l. not (is_link_of g l)) ls)
unfolding keep
Refers-delete g fs cs [] r = tt
Refers-delete g fs cs (l ∷ ls) ((rf, rc), r) = elim (Bool-cases (is_link_of g l)) [
  | inl gone ↦ rw gone (Refers-delete g fs cs ls r)
  | inr stays ↦ rw stays (((found stays, rc), Refers-delete g fs cs ls r))
]
  where
    found :
        is_link_of g l ≡ false
        → any (is_global l.global_id) (keep (λ r. not (is_global g r)) fs) ≡ true
    found stays =
        any-keep (is_global l.global_id) (λ r. not (is_global g r)) fs (λ a h. ground arith) rf
