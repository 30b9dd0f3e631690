-- ===== src/Database/MissingPath.antt =====
-- What `getMissingPathPart` returns.
use mathlib.Core.List.{append-nil, append_assoc}
use sync_harbor.Base.{
  ℕ, String, ◌≡◌, refl, ap, Bool, true, false, Bool-cases, Option-cases, inl, inr, none, some, List,
  [], ◌∷◌, ◌++◌, find, keep, length, arith, ◌==◌, nat_eq, string_eq, list_eq, if◌then◌else◌,
}
use sync_harbor.Utils.FilePath.{
  FilePath, empty_path, relative, append_name, is_empty, drop_last, parent_path, normalize_path,
  lexically_relative-append,
}
use sync_harbor.Database.Tables.{Tables, is_path, is_link_of}
use sync_harbor.Database.Connection.{Connection, Codes, Result, ok, query}
use sync_harbor.Database.Read.{missing_from, missing_loop, get_missing_path_part}
use sync_harbor.Database.Calls.{idle}
use sync_harbor.Database.Files.{reads}

normalize_path_lem : (p : FilePath) → normalize_path p ≡ relative p.names
unfolding normalize_path
normalize_path_lem p = ground arith

module _ (t : Tables) (num_clouds : ℕ) where
  -- The path is a file, and that file has a link for each of the clouds.
  abbrev pub everywhere : FilePath → Bool
  everywhere p = elim (find (is_path p) t.files) [
    | none ↦ false
    | some r ↦ length (keep (is_link_of r.global_id) t.file_links) == num_clouds
  ]

  -- Every path that some of the names make, counted from the first, is everywhere.
  abbrev pub PrefixesEverywhere : FilePath → List String → Type 0
  PrefixesEverywhere accum [] = Unit
  PrefixesEverywhere accum (n ∷ ns) =
      (everywhere (append_name accum n) ≡ true) × PrefixesEverywhere (append_name accum n) ns

  -- One name more makes a path that is not everywhere, if there is a name more.
  abbrev pub StopsBefore : List String → List String → Type 0
  StopsBefore found [] = Unit
  StopsBefore found (n ∷ ns) = everywhere (relative (found ++ (n ∷ []))) ≡ false

  drop_last-append : (pre : List String) (n : String) → drop_last (pre ++ (n ∷ [])) ≡ pre
  unfolding drop_last
  drop_last-append [] n = refl
  drop_last-append (x ∷ []) n = refl
  drop_last-append (x ∷ y ∷ pre) n = ap (◌∷◌ x) (drop_last-append (y ∷ pre) n)

  missing_from-append :
      (pre : List String) (n : String) (ns : List String)
      → missing_from (relative (pre ++ (n ∷ ns))) (relative (pre ++ (n ∷ []))) ≡ relative (n ∷ ns)
  unfolding missing_from parent_path is_empty
  missing_from-append pre n ns =
      ground (arith, drop_last-append pre n, lexically_relative-append (relative pre) n ns)

  missing_loop_step :
      (c : Codes) (norm accum : FilePath) (n : String) (ns : List String)
      → reads c ≡ true
      → missing_loop c num_clouds norm accum (n ∷ ns) (idle t) ≡ (
          if everywhere (append_name accum n)
          then missing_loop c num_clouds norm (append_name accum n) ns (idle t)
          else (ok (missing_from norm (append_name accum n)), idle t))
  unfolding missing_loop query
  missing_loop_step c norm accum n ns h =
      elim (Option-cases (find (is_path (append_name accum n)) t.files)) [
        | inl e ↦ ground arith
        | inr (r, e) ↦ ground arith
      ]

  -- The loop, from any prefix on.
  abbrev Missing : FilePath → List String → Result FilePath × Connection → Type 0
  Missing accum names r =
      (found : List String) × (rest : List String) × (names ≡ found ++ rest)
      × (r ≡ (ok (relative rest), idle t))
      × PrefixesEverywhere accum found
      × StopsBefore (accum.names ++ found) rest

  missing_loop-Missing :
      (c : Codes) (pre names : List String)
      → reads c ≡ true
      → Missing
          (relative pre)
          names
          (missing_loop c num_clouds (relative (pre ++ names)) (relative pre) names (idle t))
  missing_loop-Missing c pre [] h = ([], [], refl, unfold missing_loop in refl, tt, tt)
  missing_loop-Missing c pre (n ∷ ns) h =
      elim (Bool-cases (everywhere (relative (pre ++ (n ∷ []))))) [
        | inl here ↦ extend here (missing_loop-Missing c (pre ++ (n ∷ [])) ns h)
        | inr gap ↦ ([], n ∷ ns, refl, stop gap, tt, rw append-nil gap)
      ]
    where
      stop :
          everywhere (relative (pre ++ (n ∷ []))) ≡ false
          → missing_loop c num_clouds (relative (pre ++ (n ∷ ns))) (relative pre) (n ∷ ns) (idle t)
            ≡ (ok (relative (n ∷ ns)), idle t)
      stop gap = ground (
        arith,
        missing_loop_step c (relative (pre ++ (n ∷ ns))) (relative pre) n ns h,
        missing_from-append pre n ns,
      )

      extend :
          everywhere (relative (pre ++ (n ∷ []))) ≡ true
          → Missing (relative (pre ++ (n ∷ []))) ns (
              missing_loop c num_clouds
                (relative ((pre ++ (n ∷ [])) ++ ns))
                (relative (pre ++ (n ∷ [])))
                ns
                (idle t))
          → Missing (relative pre) (n ∷ ns) (
              missing_loop c num_clouds
                (relative (pre ++ (n ∷ ns)))
                (relative pre)
                (n ∷ ns)
                (idle t))
      extend here (found, rest, split, result, before, stops) = (
        n ∷ found,
        rest,
        ap (◌∷◌ n) split,
        ground (
          arith,
          missing_loop_step c (relative (pre ++ (n ∷ ns))) (relative pre) n ns h,
          append_assoc pre (n ∷ []) ns,
        ),
        (here, before),
        rw (append_assoc pre (n ∷ []) found) at stops,
      )

-- Where the queries run, `getMissingPathPart` splits the normalised path in two. Every path that
-- leads into the first part is a file with as many links as there are clouds; the second part is returned, and
-- its first name, if it has one, leads to a path that is none.
pub get_missing_path_part_split :
    (c : Codes) (path : FilePath) (num_clouds : ℕ) (t : Tables)
    → reads c ≡ true
    → (found : List String) × (rest : List String) × (path.names ≡ found ++ rest)
      × (get_missing_path_part c path num_clouds (idle t) ≡ (ok (relative rest), idle t))
      × PrefixesEverywhere t num_clouds empty_path found
      × StopsBefore t num_clouds found rest
unfolding get_missing_path_part
get_missing_path_part_split c path num_clouds t h =
    rw (normalize_path_lem path) (missing_loop-Missing t num_clouds c [] path.names h)
