-- ===== src/Database/Queries.antt =====
-- The queries by path agree with each other.
use sync_harbor.Base.{ℕ, String, ◌≡◌, true, false, Option, none, some, arith}
use sync_harbor.Utils.FilePath.{FilePath}
use sync_harbor.Utils.Dto.{FileRecordDto}
use sync_harbor.Database.Connection.{Connection, Codes, Result, ok, err, not_found}
use sync_harbor.Database.Read.{
  stored_file, stored_link, get_global_id_by_path, get_file_by_path, quick_path_check,
  get_file_by_cloud_and_global_id, get_cloud_file_id_by_path,
}

-- The id of the record's link, empty where there is none.
abbrev pub link_id : Result (Option FileRecordDto) → Result String
link_id (err e) = err e
link_id (ok none) = ok ""
link_id (ok (some link)) = ok link.cloud_file_id

-- Whatever codes SQLite returns, as long as the same ones to each of them, the queries for a path agree
-- with what `getFileByPath` returns of it: `quickPathCheck` whether it is there, `getGlobalIdByPath` its
-- key, and `getCloudFileIdByPath` the id that `getFileByCloudIdAndGlobalId` finds for this key. Where
-- there is no file they return false, throw, and return the empty text.
pub path_queries_agree :
    (c : Codes) (path : FilePath) (cloud : ℕ) (s : Connection) {file : Option FileRecordDto}
    → (get_file_by_path c path s).0 ≡ ok file
    → ((quick_path_check c path s).0 ≡ ok (elim file [ none ↦ false | some f ↦ true ]))
      × ((get_global_id_by_path c path s).0
          ≡ elim file [ none ↦ err not_found | some f ↦ ok f.global_id ])
      × ((get_cloud_file_id_by_path c c path cloud s).0 ≡ elim file [
        | none ↦ ok ""
        | some f ↦ link_id (get_file_by_cloud_and_global_id c cloud f.global_id s).0
      ])
unfolding get_file_by_path quick_path_check get_global_id_by_path get_cloud_file_id_by_path
    get_file_by_cloud_and_global_id stored_file stored_link
path_queries_agree c path cloud s e = (ground (arith, e), ground (arith, e), ground (arith, e))
