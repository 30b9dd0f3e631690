-- ===== src/Callbacks/Loops.antt =====
-- Each local command gives the cloud commands behind it what their clouds need.
use sync_harbor.Base.{ℕ, String, ◌≡◌, refl, sym, ap, ◌∙◌}
use sync_harbor.Utils.FilePath.{parent_path}
use sync_harbor.Utils.Dto.{FileRecordDto, FileUpdatedDto, FileDeletedDto}
use sync_harbor.Database.Connection.{Connection, Codes, ok, return}
use sync_harbor.Database.Read.{get_cloud_file_id_by_path, get_cloud_file_id_by_cloud_id}
use sync_harbor.Changes.Command.{
  record_dto, updated_dto, deleted_dto, cloud_upload, cloud_update, cloud_delete, Commands, accepts,
}
use sync_harbor.Callbacks.Passing.{for_upload, for_update, for_delete, pass_on}
use sync_harbor.Callbacks.Handed.{
  Reads, Reads-bind, Reads-return, Reads-query, path_query-kept, id_query-kept, AllHanded,
  AllOfKind, pass_on-AllHanded,
}

module _ (c : Codes) (s : Connection) where
  -- The record is for the cloud, with the cloud's id of the directory that it goes into.
  abbrev pub IsForUpload : FileRecordDto → ℕ → FileRecordDto → Type 0
  IsForUpload dto id a =
      (a.cloud_id ≡ id)
      × ((get_cloud_file_id_by_path c c (parent_path dto.rel_path) id s).0 ≡ ok a.cloud_parent_id)

  for_upload-Reads :
      (dto a : FileRecordDto) (id : ℕ)
      → a.rel_path ≡ dto.rel_path
      → Reads (λ b. IsForUpload dto id b × (b.rel_path ≡ dto.rel_path)) s (for_upload c a id s)
  unfolding for_upload
  for_upload-Reads dto a id fits =
      Reads-bind _ _ s (get_cloud_file_id_by_path c c (parent_path a.rel_path) id)
        (λ parent. return (record a { cloud_parent_id = parent; cloud_id = id }))
        (Reads-query (get_cloud_file_id_by_path c c (parent_path a.rel_path) id) s
          (path_query-kept c (parent_path a.rel_path) id s))
        (λ parent e. Reads-return _ s _ (
          (refl, ap (λ p. (get_cloud_file_id_by_path c c (parent_path p) id s).0) (sym fits) ∙ e),
          fits,
        ))

  -- The DTO is for the cloud, with the cloud's id of the file.
  abbrev pub IsForFile : ℕ → ℕ → ℕ → String → Type 0
  IsForFile global_id id cloud_id cloud_file_id =
      (cloud_id ≡ id) × ((get_cloud_file_id_by_cloud_id c id global_id s).0 ≡ ok cloud_file_id)

  for_update-Reads :
      (g id : ℕ) (a : FileUpdatedDto)
      → a.global_id ≡ g
      → Reads
          (λ (b : FileUpdatedDto). IsForFile g id b.cloud_id b.cloud_file_id × (b.global_id ≡ g))
          s
          (for_update c a id s)
  unfolding for_update
  for_update-Reads g id a fits =
      Reads-bind _ _ s (get_cloud_file_id_by_cloud_id c id a.global_id)
        (λ file_id. return (record a { cloud_file_id = file_id; cloud_id = id }))
        (Reads-query (get_cloud_file_id_by_cloud_id c id a.global_id) s
          (id_query-kept c id a.global_id s))
        (λ file_id e.
          Reads-return _ s _
            ((refl, ap (λ g. (get_cloud_file_id_by_cloud_id c id g s).0) (sym fits) ∙ e), fits))

  for_delete-Reads :
      (g id : ℕ) (a : FileDeletedDto)
      → a.global_id ≡ g
      → Reads
          (λ (b : FileDeletedDto). IsForFile g id b.cloud_id b.cloud_file_id × (b.global_id ≡ g))
          s
          (for_delete c a id s)
  unfolding for_delete
  for_delete-Reads g id a fits =
      Reads-bind _ _ s (get_cloud_file_id_by_cloud_id c id a.global_id)
        (λ file_id. return (record a { cloud_file_id = file_id; cloud_id = id }))
        (Reads-query (get_cloud_file_id_by_cloud_id c id a.global_id) s
          (id_query-kept c id a.global_id s))
        (λ file_id e.
          Reads-return _ s _
            ((refl, ap (λ g. (get_cloud_file_id_by_cloud_id c id g s).0) (sym fits) ∙ e), fits))

  -- After `LocalUploadCommand`, `LocalUpdateCommand` and `LocalDeleteCommand` have noted their change,
  -- and where the commands behind them are all of their kind for the clouds: if the loop returns, it
  -- leaves the database alone, and every command behind has a DTO for its own cloud, with the id that
  -- the database has for the directory of an upload, or for the file of an update or a deletion.
  pub loops_hand_on :
      (upload : FileRecordDto) (update : FileUpdatedDto) (delete : FileDeletedDto)
      (uploads updates deletes : Commands)
      → AllOfKind cloud_upload uploads
      → AllOfKind cloud_update updates
      → AllOfKind cloud_delete deletes
      → Reads
          (λ passed. AllHanded (IsForUpload upload) record_dto uploads passed.1)
          s
          (pass_on (for_upload c) record_dto upload uploads s)
        × Reads
            (λ passed.
              AllHanded
                (λ id (a : FileUpdatedDto).
                  IsForFile update.global_id id a.cloud_id a.cloud_file_id)
                updated_dto
                updates
                passed.1)
            s
            (pass_on (for_update c) updated_dto update updates s)
        × Reads
            (λ passed.
              AllHanded
                (λ id (a : FileDeletedDto).
                  IsForFile delete.global_id id a.cloud_id a.cloud_file_id)
                deleted_dto
                deletes
                passed.1)
            s
            (pass_on (for_delete c) deleted_dto delete deletes s)
  unfolding accepts
  loops_hand_on upload update delete uploads updates deletes k l m = (
    pass_on-AllHanded (IsForUpload upload) record_dto cloud_upload s (for_upload c) (λ a. refl)
        (λ a. a.rel_path ≡ upload.rel_path) (λ a id. for_upload-Reads upload a id) upload uploads
        refl k,
    pass_on-AllHanded
        (λ id (a : FileUpdatedDto). IsForFile update.global_id id a.cloud_id a.cloud_file_id)
        updated_dto cloud_update s (for_update c) (λ a. refl)
        (λ (a : FileUpdatedDto). a.global_id ≡ update.global_id)
        (λ a id. for_update-Reads update.global_id id a) update updates refl l,
    pass_on-AllHanded
        (λ id (a : FileDeletedDto). IsForFile delete.global_id id a.cloud_id a.cloud_file_id)
        deleted_dto cloud_delete s (for_delete c) (λ a. refl)
        (λ (a : FileDeletedDto). a.global_id ≡ delete.global_id)
        (λ a id. for_delete-Reads delete.global_id id a) delete deletes refl m,
  )
