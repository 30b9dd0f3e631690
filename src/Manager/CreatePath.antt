-- ===== src/Manager/CreatePath.antt =====
-- `createPath` of src/sync-manager.cpp: the missing directories of a path, here and in every cloud. Every
-- call of SQLite in it returns the same codes.
use sync_harbor.Base.{ℕ, none, some, List, [], ◌∷◌, ◌++◌, map, ◌==◌, nat_eq, if◌then◌else◌}
use sync_harbor.Base.Dict.{Dict, lookup, emplace}
use sync_harbor.Utils.FilePath.{FilePath, path_eq}
use sync_harbor.Utils.Dto.{FileRecordDto}
use sync_harbor.Database.Connection.{Codes, Method, Result, ok, Stateful, return, ◌>>=◌}
use sync_harbor.Database.Read.{get_global_id_by_path}
use sync_harbor.Dispatcher.{sync_db_write_all}
use sync_harbor.Local.State.{FileSystem, LocalStorage, on_db}
use sync_harbor.Local.Paths.{create_path}

-- `path_to_global_id` after the loop over the local entries.
unfoldable pub ids_of_paths : List FileRecordDto → Dict FilePath ℕ → Dict FilePath ℕ
unfolding emplace
ids_of_paths [] ids = ids
ids_of_paths (e ∷ entries) ids = ids_of_paths entries (emplace e.rel_path e.global_id ids)

-- The global id of an entry: of the path just made, or of one that was there before.
unfoldable pub with_global_id : Codes → Dict FilePath ℕ → FileRecordDto → Method FileRecordDto
unfolding lookup
with_global_id c ids e = elim (lookup e.rel_path ids) [
  | some global_id ↦ return (record e { global_id = global_id })
  | none ↦ get_global_id_by_path c e.rel_path >>= λ global_id.
      return (record e { global_id = global_id })
]

-- The loop over the entries that a cloud made.
unfoldable pub with_global_ids :
    Codes → Dict FilePath ℕ → List FileRecordDto → Method (List FileRecordDto)
unfolding with_global_id
with_global_ids c ids [] s = (ok [], s)
with_global_ids c ids (e ∷ entries) s =
    (with_global_id c ids e >>= λ first.
    with_global_ids c ids entries >>= λ others. return (first ∷ others))
      s

-- `BaseStorage::createPath` of the clouds, with what each throws.
abbrev pub CloudDirectories : Type 0
CloudDirectories = ℕ → Result (List FileRecordDto)

-- The loop over `_clouds`.
unfoldable pub in_clouds :
    Codes → Dict FilePath ℕ → CloudDirectories → List ℕ → Method (List FileRecordDto)
unfolding with_global_ids
in_clouds c ids made [] s = (ok [], s)
in_clouds c ids made (cloud ∷ clouds) s =
    let others = in_clouds c ids made clouds in
    if cloud == 0
    then others s
    else ((λ s. (made cloud, s)) >>= λ tmp.
          with_global_ids c ids tmp >>= λ here. others >>= λ there. return (here ++ there))
        s

-- `syncDbWrite` of a vector.
abbrev pub write_entries : Codes → List FileRecordDto → Method (List FileRecordDto)
write_entries c entries = sync_db_write_all (map (λ e. (c, e)) entries)

-- The part of `createPath` that the clouds have in it, with the entries written for the local storage.
unfoldable pub create_in_clouds :
    Codes → CloudDirectories → List ℕ → List FileRecordDto → Method (List FileRecordDto)
unfolding in_clouds ids_of_paths sync_db_write_all
create_in_clouds c made clouds written =
    in_clouds c (ids_of_paths written []) made clouds >>= write_entries c

module _ (fs : FileSystem) (c : Codes) (made : CloudDirectories) (clouds : List ℕ) where
  -- `createPath`
  unfoldable pub create_everywhere :
      FilePath → FilePath → Stateful (LocalStorage fs.Disk) (List FileRecordDto)
  unfolding create_path create_in_clouds sync_db_write_all
  create_everywhere path missing = create_path fs path missing >>= λ entries.
      on_db (write_entries c entries >>= create_in_clouds c made clouds)
