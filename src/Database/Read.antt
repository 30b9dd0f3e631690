-- ===== src/Database/Read.antt =====
-- The methods of `Database` that only read.
use sync_harbor.Base.{
  ℕ, String, Bool, true, false, Option, none, some, List, [], ◌∷◌, find, keep, length, ◌==◌, nat_eq,
  string_eq, if◌then◌else◌,
}
use mathlib.Core.Option
use sync_harbor.Base.Dict.{lookup}
use sync_harbor.Utils.Kinds.{EntryType, entry_type_from_string}
use sync_harbor.Utils.FilePath.{
  FilePath, empty_path, append_name, normalize_path, parent_path, is_empty, lexically_relative,
}
use sync_harbor.Utils.Dto.{FileRecordDto, local_stored_record, cloud_stored_record}
use sync_harbor.Database.Tables.{
  ConfigRow, FileRow, LinkRow, is_global, is_path, is_file_id, is_config, is_link, is_link_of,
  is_cloud_file,
}
use sync_harbor.Database.Connection.{
  Connection, Codes, Method, Result, ok, err, parse_failed, return, throw, query, query_or_throw,
  ◌>>=◌,
}

abbrev pub row_id : Option FileRow → Option ℕ
row_id = Option.map (λ (r : FileRow). r.global_id)

-- `Database::getGlobalIdByFileId`
unfoldable pub get_global_id_by_file_id : Codes → ℕ → Method ℕ
unfolding query_or_throw
get_global_id_by_file_id c file_id =
    query_or_throw c (λ t. row_id (find (is_file_id file_id) t.files))

-- `Database::getGlobalIdByPath`
unfoldable pub get_global_id_by_path : Codes → FilePath → Method ℕ
unfolding query_or_throw
get_global_id_by_path c path = query_or_throw c (λ t. row_id (find (is_path path) t.files))

-- The local record of a row, whose key the caller gave.
unfoldable pub stored_file : FileRow → FileRecordDto
unfolding local_stored_record
stored_file r =
    local_stored_record r.global_id (entry_type_from_string r.type) r.path r.size r.local_hash
      r.local_modified_time r.file_id

-- `Database::getFileByFileId`; `none` is the null pointer.
unfoldable pub get_file_by_file_id : Codes → ℕ → Method (Option FileRecordDto)
unfolding query stored_file
get_file_by_file_id c file_id =
    query c (λ t. Option.map stored_file (find (is_file_id file_id) t.files))

-- `Database::getFileByPath`
unfoldable pub get_file_by_path : Codes → FilePath → Method (Option FileRecordDto)
unfolding query stored_file
get_file_by_path c path = query c (λ t. Option.map stored_file (find (is_path path) t.files))

-- `Database::getFileByGlobalId`
unfoldable pub get_file_by_global_id : Codes → ℕ → Method (Option FileRecordDto)
unfolding query stored_file
get_file_by_global_id c global_id =
    query c (λ t. Option.map stored_file (find (is_global global_id) t.files))

-- `Database::quickPathCheck`
unfoldable pub quick_path_check : Codes → FilePath → Method Bool
unfolding query
quick_path_check c path = do
  row ← query c (λ t. find (is_path path) t.files)
  elim row [ none ↦ return false | some r ↦ return true ]

-- `Database::getPathByGlobalId`
unfoldable pub get_path_by_global_id : Codes → ℕ → Method FilePath
unfolding query
get_path_by_global_id c global_id = do
  row ← query c (λ t. find (is_global global_id) t.files)
  elim row [ none ↦ return empty_path | some r ↦ return r.path ]

-- The cloud's record of a link.
unfoldable pub stored_link : EntryType → LinkRow → FileRecordDto
unfolding cloud_stored_record
stored_link type r =
    cloud_stored_record type r.global_id r.cloud_id r.cloud_parent_id r.cloud_file_id r.cloud_size
      r.cloud_hash_check_sum r.cloud_file_modified_time

-- `Database::getFileByCloudIdAndCloudFileId`
unfoldable pub get_file_by_cloud_file_id : Codes → ℕ → String → Method (Option FileRecordDto)
unfolding query stored_link
get_file_by_cloud_file_id c cloud_id cloud_file_id = query c (λ t.
    Option.map (stored_link c.indeterminate)
      (find (is_cloud_file cloud_id cloud_file_id) t.file_links))

-- `Database::getFileByCloudIdAndGlobalId`
unfoldable pub get_file_by_cloud_and_global_id : Codes → ℕ → ℕ → Method (Option FileRecordDto)
unfolding query stored_link
get_file_by_cloud_and_global_id c cloud_id global_id =
    query c (λ t.
      Option.map (stored_link c.indeterminate) (find (is_link global_id cloud_id) t.file_links))

abbrev link_file_id : Option LinkRow → Option String
link_file_id = Option.map (λ (r : LinkRow). r.cloud_file_id)

-- `Database::get_cloud_file_id_by_cloud_id`
unfoldable pub get_cloud_file_id_by_cloud_id : Codes → ℕ → ℕ → Method String
unfolding query_or_throw
get_cloud_file_id_by_cloud_id c cloud_id global_id =
    query_or_throw c (λ t. link_file_id (find (is_link global_id cloud_id) t.file_links))

-- `Database::getCloudFileIdByPath`, with the codes of its two queries.
unfoldable pub get_cloud_file_id_by_path : Codes → Codes → FilePath → ℕ → Method String
unfolding query
get_cloud_file_id_by_path c c' path cloud_id = do
  row ← query c (λ t. find (is_path path) t.files)
  elim row [
    | none ↦ return ""
    | some r ↦ do
      id ← query c' (λ t. link_file_id (find (is_link r.global_id cloud_id) t.file_links))
      elim id [ none ↦ return "" | some i ↦ return i ]
  ]

-- What `getMissingPathPart` returns at the first prefix that is not everywhere.
unfoldable pub missing_from : FilePath → FilePath → FilePath
missing_from norm accum =
    let parent = parent_path accum in
    if is_empty parent then norm else lexically_relative norm parent

-- The rows that the loop over the links counts; a step that fails ends it.
abbrev pub row_count : Option ℕ → ℕ
row_count none = 0
row_count (some n) = n

-- The loop of `getMissingPathPart` over the names still to come.
unfoldable pub missing_loop : Codes → ℕ → FilePath → FilePath → List String → Method FilePath
missing_loop c num_clouds norm accum [] = return empty_path
missing_loop c num_clouds norm accum (name ∷ names) =
    let here = append_name accum name in
    let rest = missing_loop c num_clouds norm here names in
    do
      row ← query c (λ t. find (is_path here) t.files)
      elim row [
        | none ↦ return (missing_from norm here)
        | some r ↦ do
          links ← query c (λ t. some (length (keep (is_link_of r.global_id) t.file_links)))
          elim (row_count links == num_clouds) [
            | true ↦ rest
            | false ↦ return (missing_from norm here)
          ]
      ]

-- `Database::getMissingPathPart`; every query of the loop returns the same codes.
unfoldable pub get_missing_path_part : Codes → FilePath → ℕ → Method FilePath
unfolding query missing_loop missing_from
get_missing_path_part c path num_clouds =
    let norm = normalize_path path in missing_loop c num_clouds norm empty_path norm.names

-- `Database::isInitialSyncDone`, which checks no code but that of the row.
unfoldable pub is_initial_sync_done : Codes → Connection → Bool
is_initial_sync_done c s =
    if c.prepares
    then (if c.steps
        then elim (lookup "initial_sync_done" s.tables.metadata) [
          | none ↦ false
          | some v ↦ v == "1"
        ]
        else false)
    else false

-- `Database::getLocalDir`
unfoldable pub get_local_dir : Codes → Method String
unfolding query_or_throw
get_local_dir c = query_or_throw c (λ t. lookup "local_dir" t.metadata)

-- The JSON library, which is not in the repository: `dump` and `parse`, where `none` is a throw.
pub record JsonLibrary : Type 1 where
  pub Json : Type 0
  pub dump : Json → String
  pub parse : String → Option Json

-- The object that `get_clouds` builds for a row.
pub record CloudEntry (J : Type 0) : Type 0 where
  pub config_id : ℕ
  pub type : String
  pub config_data : J

module _ (json : JsonLibrary) where
  -- `Database::get_cloud_config`
  unfoldable pub get_cloud_config : Codes → ℕ → Method json.Json
  unfolding query_or_throw
  get_cloud_config c cloud_id = do
    row ← query_or_throw c (λ t. find (is_config cloud_id) t.cloud_configs)
    elim (json.parse row.config_data) [ none ↦ throw parse_failed | some j ↦ return j ]

  unfoldable pub read_clouds : List ConfigRow → Result (List (CloudEntry json.Json))
  read_clouds [] = ok []
  read_clouds (r ∷ rs) = elim (json.parse r.config_data) [
    | none ↦ err parse_failed
    | some j ↦ elim (read_clouds rs) [
      | err e ↦ err e
      | ok clouds ↦ ok (record { config_id = r.config_id; type = r.type; config_data = j } ∷ clouds)
    ]
  ]

  -- `Database::get_clouds`
  unfoldable pub get_clouds : Codes → Method (List (CloudEntry json.Json))
  unfolding query read_clouds
  get_clouds c = do
    rows ← query c (λ t. some t.cloud_configs)
    elim rows [ none ↦ return [] | some rs ↦ λ s. (read_clouds rs, s) ]
