-- ===== src/Manager/InitialSync/Returns.antt =====
-- The first loop of `initialSync` comes to its end when the clouds' hashes are texts.
use sync_harbor.Base.{
  ℕ, String, ◌≡◌, refl, ap, Bool, ◌&&◌, Bool-cases, inl, inr, Option, none, some, List, [], ◌∷◌,
  All, arith, ltb,
}
use sync_harbor.Base.Dict.{lookup}
use sync_harbor.Utils.FilePath.{FilePath, path_eq}
use sync_harbor.Utils.Dto.{FileRecordDto, text}
use sync_harbor.Changes.Change.{Change}
use sync_harbor.Manager.{Manager}
use sync_harbor.Manager.InitialSync.{
  Candidates, newest, text_of, Reconciled, Handling, remote_only, remote_newer, hand_over,
  take_newer, reconcile_with, reconcile, reconcile_all,
}
use sync_harbor.Manager.InitialSync.Newest.{Distinct, AllOpen, NoneNewer, none_newer}

-- The hash is a text, as `initialFiles` of the clouds makes it.
abbrev pub HasText : FileRecordDto → Type 0
HasText d = (hash : String) × (d.cloud_hash_check_sum ≡ text hash)

abbrev pub AllHaveText : Candidates → Type 0
AllHaveText g = All HasText (g.first ∷ g.others)

newest-HasText :
    (best : FileRecordDto) (dtos : List FileRecordDto)
    → HasText best
    → All HasText dtos
    → HasText (newest best dtos)
unfolding newest
newest-HasText best [] h hs = h
newest-HasText best (dto ∷ dtos) h hs =
    elim (Bool-cases (ltb best.cloud_file_modified_time dto.cloud_file_modified_time)) [
      | inl lt ↦ rw (newest, lt) (newest-HasText dto dtos hs.0 hs.1)
      | inr ge ↦ rw (newest, ge) (newest-HasText best dtos h hs.1)
    ]

module _ (is_regular : FilePath → Bool) (now : ℕ) (handle : Handling) where
  -- `handleChange` of the changes that the loop makes returns.
  pub record AllHandled : Type 0 where
    pub new_ones :
        (path : FilePath) (best : FileRecordDto) (m : Manager)
        → (handle (remote_only now path best) m).0 ≡ none
    pub newer_ones :
        (path : FilePath) (here best : FileRecordDto) (hash : String) (m : Manager)
        → (handle (remote_newer now path here best hash) m).0 ≡ none

  abbrev Returns : Option Reconciled → Type 0
  Returns o = (r : Reconciled) × (o ≡ some r)

  hand_over-Returns :
      (path : FilePath) (entry : FileRecordDto) (change : Change) (r : Reconciled)
      → (handle change r.manager).0 ≡ none
      → Returns (hand_over is_regular now handle path entry change r)
  unfolding hand_over
  hand_over-Returns path entry change r e = rw (hand_over, e) (_, refl)

  take_newer-Returns :
      (path : FilePath) (here best : FileRecordDto) (r : Reconciled) (found : Option String)
      (hash : String)
      → AllHandled
      → found ≡ some hash
      → Returns (take_newer is_regular now handle path here best r found)
  unfolding take_newer
  take_newer-Returns path here best r none hash v e = absurd (ground arith)
  take_newer-Returns path here best r (some found) hash v e =
      hand_over-Returns path (record best { global_id = here.global_id })
        (remote_newer now path here best found) r (v.newer_ones path here best found r.manager)

  reconcile_with-Returns :
      (path : FilePath) (best : FileRecordDto) (r : Reconciled) (found : Option FileRecordDto)
      → AllHandled
      → HasText best
      → Returns (reconcile_with is_regular now handle path best r found)
  unfolding reconcile_with take_newer text_of
  reconcile_with-Returns path best r none v (hash, e) =
      hand_over-Returns path best (remote_only now path best) r (v.new_ones path best r.manager)
  reconcile_with-Returns path best r (some here) v (hash, e) =
      elim (Bool-cases
        (is_regular path && ltb here.cloud_file_modified_time best.cloud_file_modified_time)) [
          | inl update ↦ rw update (take_newer-Returns path here best r _ hash v (ap text_of e))
          | inr stays ↦ rw stays (_, refl)
        ]

  reconcile_all-Returns :
      (groups : List Candidates) (r : Reconciled)
      → AllHandled
      → All AllHaveText groups
      → Returns (reconcile_all is_regular now handle groups r)
  unfolding reconcile_all reconcile
  reconcile_all-Returns [] r v h = (r, refl)
  reconcile_all-Returns (g ∷ groups) r v h =
      let (r1, e) =
        reconcile_with-Returns g.path (newest g.first g.others) r (lookup g.path r.local_files) v
          (newest-HasText g.first g.others h.0.0 h.0.1) in
      let (r', rest) = reconcile_all-Returns groups r1 v h.1 in (r', ground (arith, e, rest))

  -- The newest wins: where the groups have distinct paths, each of them new here or a regular file, all
  -- hashes are texts, and `handleChange` returns for every change that the loop makes, the loop returns,
  -- and at its end no candidate of a group is newer than what `local_files_map` has for its path.
  pub newest_wins :
      (groups : List Candidates) (r : Reconciled)
      → Distinct is_regular now handle groups
      → AllOpen is_regular now handle groups r.local_files
      → All AllHaveText groups
      → AllHandled
      → (r' : Reconciled) × (reconcile_all is_regular now handle groups r ≡ some r')
        × All (NoneNewer is_regular now handle r'.local_files) groups
  newest_wins groups r d o h v =
      let (r', e) = reconcile_all-Returns groups r v h in
      (r', e, none_newer is_regular now handle groups r r' d o e)
