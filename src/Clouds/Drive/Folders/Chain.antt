-- ===== src/Clouds/Drive/Folders/Chain.antt =====
-- The folders that `createPath` returns.
use sync_harbor.Base.{
  ℕ, ◌-◌, ◌≡◌, refl, ◌≢◌, ◌⊎◌, inl, inr, String, arith, string_eq, list_eq, Option, none, some,
  List, [], ◌∷◌, length,
}
use sync_harbor.Utils.Kinds.{EntryType}
use sync_harbor.Utils.FilePath.{FilePath, is_empty, relative, append_name, normalize_path}
use sync_harbor.Utils.Dto.{FileRecordDto, drive_new_record}
use sync_harbor.Database.Connection.{Codes, Connection, ok, return, ◌>>=◌}
use sync_harbor.Database.Read.{get_cloud_file_id_by_path}
use sync_harbor.Local.Paths.{take}
use sync_harbor.Clouds.Json.{JsonValues}
use sync_harbor.Clouds.Json.Gives.{
  Gives, Anything, anything, Gives-bind, given_ok, Gives-map, itself,
}
use sync_harbor.Clouds.Service.{Service, Online, Asking}
use sync_harbor.Clouds.Drive.Requests.{Account}
use sync_harbor.Clouds.Drive.Folders.{
  Folder, folder_record, create_folder, create_folders, find_folder, find_folders, start_parent,
  create_path,
}

-- One directory for each name, each below the one before and with its id as the parent.
pub data IsChain : FilePath → String → List String → List FileRecordDto → Type 0 where
  ends : {accum : FilePath} {parent_id : String} → IsChain accum parent_id [] []
  links :
      {accum : FilePath} {parent_id seg : String} {missing : List String} {dto : FileRecordDto}
      {dtos : List FileRecordDto}
      → dto.rel_path ≡ append_name accum seg
      → dto.cloud_parent_id ≡ parent_id
      → dto.type ≡ EntryType.directory
      → IsChain (append_name accum seg) dto.cloud_file_id missing dtos
      → IsChain accum parent_id (seg ∷ missing) (dto ∷ dtos)

module _ (json : JsonValues) (calendar : String → ℕ) (escape : String → String) (service : Service)
    (drive : Account) where
  abbrev record_of : FilePath → String → String → Folder → FileRecordDto
  record_of accum parent_id seg =
      folder_record json calendar escape service drive (append_name accum seg) parent_id

  chained :
      (accum : FilePath) (parent_id seg : String) (missing : List String) (folder : Folder)
      (others : List FileRecordDto)
      → IsChain (append_name accum seg) folder.id missing others
      → IsChain accum parent_id (seg ∷ missing) (record_of accum parent_id seg folder ∷ others)
  unfolding folder_record drive_new_record
  chained accum parent_id seg missing folder others h = links refl refl refl h

  -- The folders below one that is there, however they are come by.
  below-IsChain :
      (accum : FilePath) (parent_id seg : String) (missing : List String) (folder : Folder)
      (m : Asking service (List FileRecordDto)) (s : Online service.World)
      → Gives (IsChain (append_name accum seg) folder.id missing) (m s).0
      → Gives
          (IsChain accum parent_id (seg ∷ missing))
          ((m >>= λ others. return (record_of accum parent_id seg folder ∷ others)) s).0
  below-IsChain accum parent_id seg missing folder m s h =
      Gives-bind (IsChain (append_name accum seg) folder.id missing)
        (IsChain accum parent_id (seg ∷ missing)) m
        (λ others. return (record_of accum parent_id seg folder ∷ others)) s h
        (λ others s'. chained accum parent_id seg missing folder others)

  create_folders-IsChain :
      (accum : FilePath) (parent_id : String) (missing : List String) (s : Online service.World)
      → Gives
          (IsChain accum parent_id missing)
          (create_folders json calendar escape service drive accum parent_id missing s).0
  unfolding create_folders
  create_folders-IsChain accum parent_id [] s = ends
  create_folders-IsChain accum parent_id (seg ∷ missing) s =
      let here = append_name accum seg in
      Gives-bind Anything (IsChain accum parent_id (seg ∷ missing))
        (create_folder json calendar escape service drive here seg parent_id)
        (λ folder.
          create_folders json calendar escape service drive here folder.id missing >>= λ others.
          return (record_of accum parent_id seg folder ∷ others))
        s (anything _)
        (λ folder s' u.
          below-IsChain accum parent_id seg missing folder
            (create_folders json calendar escape service drive here folder.id missing) s'
            (create_folders-IsChain here folder.id missing s'))

  abbrev after_search :
      FilePath → String → String → List String → Option Folder → Asking service (List FileRecordDto)
  after_search accum parent_id seg missing found = elim found [
    | none ↦ create_folders json calendar escape service drive accum parent_id (seg ∷ missing)
    | some folder ↦
        find_folders json calendar escape service drive (append_name accum seg) folder.id missing
        >>= λ others. return (record_of accum parent_id seg folder ∷ others)
  ]

  find_folders-IsChain :
      (accum : FilePath) (parent_id : String) (missing : List String) (s : Online service.World)
      → Gives
          (IsChain accum parent_id missing)
          (find_folders json calendar escape service drive accum parent_id missing s).0
  unfolding find_folders
  find_folders-IsChain accum parent_id [] s = ends
  find_folders-IsChain accum parent_id (seg ∷ missing) s =
      Gives-bind Anything (IsChain accum parent_id (seg ∷ missing))
        (find_folder json calendar escape service drive seg parent_id)
        (after_search accum parent_id seg missing) s (anything _)
        λ found s' u.
          elim found
            as (λ x.
              Gives (IsChain accum parent_id (seg ∷ missing))
                (after_search accum parent_id seg missing x s').0) [
                  | none ↦ create_folders-IsChain accum parent_id (seg ∷ missing) s'
                  | some folder ↦
                      below-IsChain accum parent_id seg missing folder
                        (find_folders json calendar escape service drive (append_name accum seg)
                          folder.id missing)
                        s' (find_folders-IsChain (append_name accum seg) folder.id missing s')
                ]

  -- The part of the path that is there, as `createPath` finds it.
  abbrev pub there : FilePath → FilePath → FilePath
  there path missing =
      let segs = (normalize_path path).names in
      relative (take (length segs - length missing.names) segs)

  -- The folder that the missing part lies in: the home directory, or what the query for the id in this
  -- cloud of the part that is there returns.
  abbrev pub StartsAt : Codes → FilePath → Connection → String → Type 0
  StartsAt c prefix db parent_id =
      ((prefix.names ≡ []) × (parent_id ≡ drive.home_dir_id))
      ⊎ ((prefix.names ≢ [])
          × ((get_cloud_file_id_by_path c c prefix drive.id db).0 ≡ ok parent_id))

  start_parent-StartsAt :
      (c : Codes) (names : List String) (s : Online service.World) (parent_id : String)
      → (start_parent json calendar escape service drive c (relative names) s).0 ≡ ok parent_id
      → StartsAt c (relative names) s.side.db parent_id
  unfolding start_parent is_empty list_eq
  start_parent-StartsAt c [] s parent_id e = inl (refl, ground (arith, e))
  start_parent-StartsAt c (x ∷ xs) s parent_id e = inr (ground arith, e)

  -- The records are a chain from that folder.
  pub record IsPathFrom (c : Codes) (path missing : FilePath) (s : Online service.World)
      (dtos : List FileRecordDto) : Type 0 where
    pub parent_id : String
    pub starts : StartsAt c (there path missing) s.side.db parent_id
    pub chain : IsChain (there path missing) parent_id missing.names dtos

  create_path-Gives :
      (c : Codes) (path missing : FilePath) (s : Online service.World)
      → Gives
          (IsPathFrom c path missing s)
          (create_path json calendar escape service drive c path missing s).0
  unfolding create_path
  create_path-Gives c path missing s =
      Gives-bind
        (λ id. (start_parent json calendar escape service drive c (there path missing) s).0 ≡ ok id)
        (IsPathFrom c path missing s)
        (start_parent json calendar escape service drive c (there path missing))
        (λ id.
          find_folders json calendar escape service drive (there path missing) id missing.names)
        s (itself _)
        λ id s' e.
          Gives-map (IsChain (there path missing) id missing.names) (IsPathFrom c path missing s) _
            (λ dtos chain. record {
              parent_id = id;
              starts = start_parent-StartsAt c (there path missing).names s id e;
              chain = chain;
            })
            (find_folders-IsChain (there path missing) id missing.names s')

  -- What `createPath` returns is one directory for each name of the missing part, in its order: the first
  -- lies in the folder that is there for the part of the normalised path before as many names, and each
  -- other in the one before; each path is that of the folder it lies in and the name, and each parent id
  -- is the id of that folder. The id of the folder that is there is that of the home directory where that
  -- part has no name, and else the one that the query for the id of this part in this cloud returns.
  pub create_path-IsPath :
      (c : Codes) (path missing : FilePath) (s : Online service.World) (dtos : List FileRecordDto)
      → (create_path json calendar escape service drive c path missing s).0 ≡ ok dtos
      → IsPathFrom c path missing s dtos
  create_path-IsPath c path missing s dtos =
      given_ok (IsPathFrom c path missing s) _ dtos (create_path-Gives c path missing s)
