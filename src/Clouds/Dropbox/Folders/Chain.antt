-- ===== src/Clouds/Dropbox/Folders/Chain.antt =====
-- The folders that `createPath` of Dropbox returns.
use sync_harbor.Base.{ℕ, ◌-◌, ◌≡◌, refl, String, List, [], ◌∷◌, length}
use sync_harbor.Utils.Kinds.{EntryType}
use sync_harbor.Utils.FilePath.{FilePath, relative, join, append_name, normalize_path}
use sync_harbor.Utils.Dto.{FileRecordDto, cloud_new_record, drive_new_record}
use sync_harbor.Database.Connection.{Result, ok, return, ◌>>=◌}
use sync_harbor.Local.Paths.{take}
use sync_harbor.Clouds.Json.{JsonValues}
use sync_harbor.Clouds.Json.Gives.{Gives, Anything, anything, Gives-bind, given_ok, itself}
use sync_harbor.Clouds.Service.{Service, Online, Asking, reading}
use sync_harbor.Clouds.Dropbox.Requests.{Account}
use sync_harbor.Clouds.Dropbox.Folders.{create_folder, create_folders, create_path}

module _ (json : JsonValues) (relative_to : FilePath → Result FilePath) (service : Service) (id : ℕ)
    (box : Account) where
  -- One directory of the cloud for each name, each path that of the folder before and the name, as it
  -- stands to the home directory.
  pub data IsMade : FilePath → List String → List FileRecordDto → Type 0 where
    none_left : {accum : FilePath} → IsMade accum [] []
    one_more :
        {accum : FilePath} {seg : String} {missing : List String} {dto : FileRecordDto}
        {dtos : List FileRecordDto}
        → relative_to (append_name accum seg) ≡ ok dto.rel_path
        → dto.type ≡ EntryType.directory
        → dto.cloud_id ≡ id
        → IsMade (append_name accum seg) missing dtos
        → IsMade accum (seg ∷ missing) (dto ∷ dtos)

  abbrev record_of : FilePath → String → FileRecordDto
  record_of rel_path folder_id = cloud_new_record EntryType.directory rel_path folder_id 0 0 "" id

  made :
      (accum : FilePath) (seg : String) (missing : List String) (rel_path : FilePath)
      (folder_id : String) (others : List FileRecordDto)
      → relative_to (append_name accum seg) ≡ ok rel_path
      → IsMade (append_name accum seg) missing others
      → IsMade accum (seg ∷ missing) (record_of rel_path folder_id ∷ others)
  unfolding cloud_new_record drive_new_record
  made accum seg missing rel_path folder_id others e h = one_more e refl refl h

  abbrev with_others :
      FilePath → List String → FilePath → String → Asking service (List FileRecordDto)
  with_others here missing rel_path folder_id =
      create_folders json relative_to service id box here missing >>= λ others.
      return (record_of rel_path folder_id ∷ others)

  create_folders-IsMade :
      (accum : FilePath) (missing : List String) (s : Online service.World)
      → Gives
          (IsMade accum missing)
          (create_folders json relative_to service id box accum missing s).0
  unfolding create_folders
  create_folders-IsMade accum [] s = none_left
  create_folders-IsMade accum (seg ∷ missing) s =
      let here = append_name accum seg in
      let P : List FileRecordDto → Type 0 = IsMade accum (seg ∷ missing) in
      Gives-bind Anything P (create_folder json relative_to service id box here)
        (λ folder_id. reading service (relative_to here) >>= λ rel_path.
          with_others here missing rel_path folder_id)
        s (anything _)
        λ folder_id s1 u.
          Gives-bind (λ p. relative_to here ≡ ok p) P (reading service (relative_to here))
            (λ rel_path. with_others here missing rel_path folder_id) s1 (itself (relative_to here))
            λ rel_path s2 e.
              Gives-bind (IsMade here missing) P
                (create_folders json relative_to service id box here missing)
                (λ others. return (record_of rel_path folder_id ∷ others)) s2
                (create_folders-IsMade here missing s2)
                (λ others s3. made accum seg missing rel_path folder_id others e)

  -- What Dropbox's `createPath` returns is one directory of this cloud for each name of the missing part,
  -- in its order, whether it was made or there already; each path is, as it stands to the home directory,
  -- the home directory, the part of the normalised path before as many names, and the names so far.
  pub create_path-IsMade :
      (path missing : FilePath) (s : Online service.World) (dtos : List FileRecordDto)
      → (create_path json relative_to service id box path missing s).0 ≡ ok dtos
      → let segs = (normalize_path path).names in
        let prefix = relative (take (length segs - length missing.names) segs) in
        IsMade (join box.home_path prefix) missing.names dtos
  unfolding create_path
  create_path-IsMade path missing s dtos =
      let segs = (normalize_path path).names in
      let start = join box.home_path (relative (take (length segs - length missing.names) segs)) in
      given_ok (IsMade start missing.names) _ dtos (create_folders-IsMade start missing.names s)
