-- ===== src/Manager/InitialSync/Newest.antt =====
-- After the first loop of `initialSync` nothing in a cloud is newer than what `local_files_map` says.
use mathlib.Core.Path.{subst}
use sync_harbor.Base.{
  ℕ, String, ◌≤◌, ◌<◌, ◌≡◌, refl, sym, ap, Bool, true, false, ◌⊎◌, inl, inr, Bool-cases,
  Option-cases, Option, none, some, List, [], ◌∷◌, All, All-mono, arith, ◌==◌, ==_refl, ltb,
  if◌then◌else◌,
}
use sync_harbor.Base.Dict.{Dict, lookup, insert, lookup-insert}
use sync_harbor.Utils.FilePath.{FilePath, path_eq}
use sync_harbor.Utils.Dto.{FileRecordDto}
use sync_harbor.Changes.Change.{Change}
use sync_harbor.Manager.InitialSync.{
  Candidates, newest, text_of, Reconciled, Handling, remote_only, remote_newer, hand_over,
  take_newer, reconcile_with, reconcile, reconcile_all,
}

newest_above :
    (best : FileRecordDto) (dtos : List FileRecordDto)
    → best.cloud_file_modified_time ≤ (newest best dtos).cloud_file_modified_time
unfolding newest
newest_above best [] = omega arith
newest_above best (dto ∷ dtos) = ground (arith, newest_above best dtos, newest_above dto dtos)

newest_covers :
    (best : FileRecordDto) (dtos : List FileRecordDto)
    → All
        (λ (d : FileRecordDto).
          d.cloud_file_modified_time ≤ (newest best dtos).cloud_file_modified_time)
        (best ∷ dtos)
unfolding newest
newest_covers best [] = (omega arith, tt)
newest_covers best (dto ∷ dtos) =
    let winner =
      if ltb best.cloud_file_modified_time dto.cloud_file_modified_time then dto else best in
    (
      ground (arith, newest_above best dtos, newest_above dto dtos),
      (
        ground (arith, newest_above best dtos, newest_above dto dtos),
        (newest_covers winner dtos).1,
      ),
    )

-- There is an entry, and it is not older.
abbrev pub IsAtLeast : ℕ → Option FileRecordDto → Type 0
IsAtLeast time none = ⊥
IsAtLeast time (some d) = time ≤ d.cloud_file_modified_time

-- What one turn of the loop does to `local_files_map`.
record Turn (path : FilePath) (time : ℕ) (before after : Dict FilePath FileRecordDto) : Type 0 where
  later : (q : FilePath) (t : ℕ) → IsAtLeast t (lookup q before) → IsAtLeast t (lookup q after)
  frame : (q : FilePath) → (q == path) ≡ false → lookup q after ≡ lookup q before

replaced :
    (path : FilePath) (d : FileRecordDto) (before : Dict FilePath FileRecordDto)
    → ((t : ℕ) → IsAtLeast t (lookup path before) → t ≤ d.cloud_file_modified_time)
    → Turn path d.cloud_file_modified_time before (insert path d before)
replaced path d before h = record {
  later = λ q t old. ground (
    arith,
    lookup-insert q path d before,
    old,
    h t,
    ap (λ p. lookup p before) {x = q} {y = path},
  );
  frame = λ q e. ground (arith, lookup-insert q path d before, e);
}

inserted :
    (path : FilePath) (d : FileRecordDto) (before : Dict FilePath FileRecordDto)
    → IsAtLeast d.cloud_file_modified_time (lookup path (insert path d before))
inserted path d before = ground (arith, lookup-insert path path d before, ==_refl path)

unchanged : (path : FilePath) (time : ℕ) (d : Dict FilePath FileRecordDto) → Turn path time d d
unchanged path time d = record { later = λ q t old. old; frame = λ q e. refl }

module _ (is_regular : FilePath → Bool) (now : ℕ) (handle : Handling) where
  -- Whether a newer version of a cloud is taken.
  abbrev IsOpen : FilePath → Option FileRecordDto → Type 0
  IsOpen path found = (is_regular path ≡ true) ⊎ (found ≡ none)

  -- A turn, after which the entry of the path is not older where it is open.
  abbrev Wins : FilePath → ℕ → Option FileRecordDto → Reconciled → Reconciled → Type 0
  Wins path time found r r' =
      Turn path time r.local_files r'.local_files
      × (IsOpen path found → IsAtLeast time (lookup path r'.local_files))

  put-Wins :
      (path : FilePath) (d : FileRecordDto) (found : Option FileRecordDto) (r r' : Reconciled)
      → r'.local_files ≡ insert path d r.local_files
      → ((t : ℕ) → IsAtLeast t (lookup path r.local_files) → t ≤ d.cloud_file_modified_time)
      → Wins path d.cloud_file_modified_time found r r'
  put-Wins path d found r r' e h =
      subst
        (λ after.
          Turn path d.cloud_file_modified_time r.local_files after
          × (IsOpen path found → IsAtLeast d.cloud_file_modified_time (lookup path after)))
        (sym e) (replaced path d r.local_files h, λ _. inserted path d r.local_files)

  keep-Wins :
      (path : FilePath) (time : ℕ) (found : Option FileRecordDto) (r r' : Reconciled)
      → r'.local_files ≡ r.local_files
      → (IsOpen path found → IsAtLeast time (lookup path r.local_files))
      → Wins path time found r r'
  keep-Wins path time found r r' e h =
      subst
        (λ after.
          Turn path time r.local_files after
          × (IsOpen path found → IsAtLeast time (lookup path after)))
        (sym e) (unchanged path time r.local_files, h)

  hand_over-local_files :
      (path : FilePath) (entry : FileRecordDto) (change : Change) (r r' : Reconciled)
      → hand_over is_regular now handle path entry change r ≡ some r'
      → r'.local_files ≡ insert path entry r.local_files
  unfolding hand_over
  hand_over-local_files path entry change r r' e = elim (Option-cases (handle change r.manager).0) [
    | inl fine ↦ ground (arith, e, fine)
    | inr (s, stops) ↦ absurd (ground (arith, e, stops))
  ]

  take_newer-Wins :
      (path : FilePath) (here best : FileRecordDto) (r r' : Reconciled) (hash : Option String)
      → lookup path r.local_files ≡ some here
      → here.cloud_file_modified_time < best.cloud_file_modified_time
      → take_newer is_regular now handle path here best r hash ≡ some r'
      → Wins path best.cloud_file_modified_time (some here) r r'
  unfolding take_newer
  take_newer-Wins path here best r r' none e lt h = absurd (ground arith)
  take_newer-Wins path here best r r' (some hash) e lt h =
      put-Wins path (record best { global_id = here.global_id }) (some here) r r'
        (hand_over-local_files path (record best { global_id = here.global_id })
          (remote_newer now path here best hash) r r' h)
        (λ t old. ground (arith, e, lt))

  reconcile_with-Wins :
      (path : FilePath) (best : FileRecordDto) (r r' : Reconciled) (found : Option FileRecordDto)
      → lookup path r.local_files ≡ found
      → reconcile_with is_regular now handle path best r found ≡ some r'
      → Wins path best.cloud_file_modified_time found r r'
  unfolding reconcile_with
  reconcile_with-Wins path best r r' none e h =
      put-Wins path best none r r'
        (hand_over-local_files path best (remote_only now path best) r r' h)
        (λ t old. absurd (ground (arith, e)))
  reconcile_with-Wins path best r r' (some here) e h =
      let opened : IsOpen path (some here) → is_regular path ≡ true =
        λ o. elim o [ inl regular ↦ regular | inr none_found ↦ absurd (ground arith) ] in
      elim (Bool-cases (is_regular path)) [
        | inr irregular ↦
            keep-Wins path best.cloud_file_modified_time (some here) r r'
              (ground (arith, h, irregular)) (λ o. absurd (ground (arith, opened o, irregular)))
        | inl regular ↦
            elim (Bool-cases (ltb here.cloud_file_modified_time best.cloud_file_modified_time)) [
              | inl lt ↦
                  take_newer-Wins path here best r r' (text_of best.cloud_hash_check_sum) e
                    (ground (arith, lt)) (ground (arith, h, regular, lt))
              | inr ge ↦
                  keep-Wins path best.cloud_file_modified_time (some here) r r'
                    (ground (arith, h, regular, ge)) (λ o. ground (arith, e, ge))
            ]
      ]

  reconcile-Wins :
      (g : Candidates) (r r' : Reconciled)
      → reconcile is_regular now handle g r ≡ some r'
      → Wins g.path
          (newest g.first g.others).cloud_file_modified_time
          (lookup g.path r.local_files)
          r
          r'
  unfolding reconcile
  reconcile-Wins g r r' h =
      reconcile_with-Wins g.path (newest g.first g.others) r r' (lookup g.path r.local_files) refl h

  -- No two groups have the same path.
  abbrev pub Distinct : List Candidates → Type 0
  Distinct [] = Unit
  Distinct (g ∷ groups) = All (λ h. (h.path == g.path) ≡ false) groups × Distinct groups

  -- Every path of a group is not here yet, or is a regular file.
  abbrev pub AllOpen : List Candidates → Dict FilePath FileRecordDto → Type 0
  AllOpen groups files = All (λ g. IsOpen g.path (lookup g.path files)) groups

  -- No candidate of a group is newer than the entry of its path.
  abbrev pub NoneNewer : Dict FilePath FileRecordDto → Candidates → Type 0
  NoneNewer files g =
      All (λ (d : FileRecordDto). IsAtLeast d.cloud_file_modified_time (lookup g.path files))
        (g.first ∷ g.others)

  IsAtLeast-mono : (t u : ℕ) (o : Option FileRecordDto) → t ≤ u → IsAtLeast u o → IsAtLeast t o
  IsAtLeast-mono t u none h k = k
  IsAtLeast-mono t u (some d) h k = omega arith

  later_all :
      (groups : List Candidates) (r r' : Reconciled)
      → reconcile_all is_regular now handle groups r ≡ some r'
      → (q : FilePath) (t : ℕ) → IsAtLeast t (lookup q r.local_files)
      → IsAtLeast t (lookup q r'.local_files)
  unfolding reconcile_all
  later_all [] r r' h q t old =
      let same : r'.local_files ≡ r.local_files = ground (arith, h) in
      subst (λ files. IsAtLeast t (lookup q files)) (sym same) old
  later_all (g ∷ groups) r r' h q t old =
      elim (Option-cases (reconcile is_regular now handle g r)) [
        | inl e ↦ absurd (ground (arith, h, e))
        | inr (r1, e) ↦
            later_all groups r1 r' (ground (arith, h, e)) q t
              ((reconcile-Wins g r r1 e).0.later q t old)
      ]

  open_after :
      (path : FilePath) (time : ℕ) (groups : List Candidates)
      (before after : Dict FilePath FileRecordDto)
      → Turn path time before after
      → All (λ (h : Candidates). (h.path == path) ≡ false) groups
      → AllOpen groups before
      → AllOpen groups after
  open_after path time [] before after turn d o = tt
  open_after path time (h ∷ groups) before after turn d o = (
    subst (IsOpen h.path) (sym (turn.frame h.path d.0)) o.0,
    open_after path time groups before after turn d.1 o.1,
  )

  -- Where the groups have distinct paths, each of them new here or a regular file,
  -- and the loop does not throw, at its end no candidate of a group is newer than what
  -- `local_files_map` has for its path.
  pub none_newer :
      (groups : List Candidates) (r r' : Reconciled)
      → Distinct groups
      → AllOpen groups r.local_files
      → reconcile_all is_regular now handle groups r ≡ some r'
      → All (NoneNewer r'.local_files) groups
  unfolding reconcile_all
  none_newer [] r r' d o h = tt
  none_newer (g ∷ groups) r r' d o h = elim (Option-cases (reconcile is_regular now handle g r)) [
    | inl e ↦ absurd (ground (arith, h, e))
    | inr (r1, e) ↦
        let best = newest g.first g.others in
        let rest : reconcile_all is_regular now handle groups r1 ≡ some r' = ground (arith, h, e) in
        let (turn, wins) = reconcile-Wins g r r1 e in
        let held = later_all groups r1 r' rest g.path best.cloud_file_modified_time (wins o.0) in
        (
          All-mono _ _ (g.first ∷ g.others)
              (λ a below. IsAtLeast-mono a.cloud_file_modified_time _ _ below held)
              (newest_covers g.first g.others),
          none_newer groups r1 r' d.1
              (open_after g.path best.cloud_file_modified_time groups _ _ turn d.0 o.1) rest,
        )
  ]
