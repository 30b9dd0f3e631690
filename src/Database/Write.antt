-- ===== src/Database/Write.antt =====
-- The methods of `Database` that write: one statement each, in a transaction of its own.
use sync_harbor.Base.{
  ℕ, suc, String, true, false, ◌&&◌, not, none, some, [], ◌∷◌, ◌++◌, any, keep, amend, nat_eq,
  string_eq, if◌then◌else◌,
}
use sync_harbor.Base.Dict.{insert}
use sync_harbor.Utils.Kinds.{CloudProviderType, entry_type_name, cloud_type_name}
use sync_harbor.Utils.Dto.{HashSum, text, word, FileRecordDto, FileUpdatedDto, FileMovedDto}
use sync_harbor.Database.Tables.{
  ConfigRow, FileRow, LinkRow, is_global, is_config, is_named, is_link, is_link_of,
}
use sync_harbor.Database.Connection.{
  Codes, Method, Statement, ok, err, prepare_failed, step_failed, transaction,
}

-- `hash_u` and `hash_str`
unfoldable pub hash_word : HashSum → ℕ
hash_word (word h) = h
hash_word (text s) = 0

unfoldable pub hash_text : HashSum → String
hash_text (text s) = s
hash_text (word h) = ""

abbrev pub file_row : ℕ → FileRecordDto → FileRow
file_row g dto = record {
  global_id = g;
  type = entry_type_name dto.type;
  path = dto.rel_path;
  size = dto.size;
  local_hash = hash_word dto.cloud_hash_check_sum;
  local_modified_time = dto.cloud_file_modified_time;
  file_id = dto.file_id;
}

-- "INSERT OR IGNORE INTO files": no constraint of the table can be violated, so a row is added.
unfoldable pub insert_file : FileRecordDto → Statement ℕ
insert_file dto t = some (
  t.next_global_id,
  record t {
    files = t.files ++ (file_row t.next_global_id dto ∷ []);
    next_global_id = suc t.next_global_id;
  },
)

-- `Database::add_file`, with the value of `sqlite3_last_insert_rowid`.
unfoldable pub add_file : Codes → FileRecordDto → Method ℕ
unfolding transaction insert_file
add_file c dto = transaction c (insert_file dto)

abbrev pub link_row : FileRecordDto → LinkRow
link_row dto = record {
  global_id = dto.global_id;
  cloud_id = dto.cloud_id;
  cloud_file_id = dto.cloud_file_id;
  cloud_parent_id = dto.cloud_parent_id;
  cloud_file_modified_time = dto.cloud_file_modified_time;
  cloud_hash_check_sum = hash_text dto.cloud_hash_check_sum;
  cloud_size = dto.size;
}

-- "INSERT OR IGNORE INTO file_links": a taken primary key is ignored; OR IGNORE does not cover a
-- foreign key, so a link to a missing file or cloud is refused.
unfoldable pub insert_link : FileRecordDto → Statement (Unit {0})
insert_link dto t =
    if any (is_link dto.global_id dto.cloud_id) t.file_links
    then some (tt, t)
    else if any (is_global dto.global_id) t.files && any (is_config dto.cloud_id) t.cloud_configs
    then some (tt, record t { file_links = t.file_links ++ (link_row dto ∷ []) })
    else none

-- `Database::add_file_link`
unfoldable pub add_file_link : Codes → FileRecordDto → Method (Unit {0})
unfolding transaction insert_link
add_file_link c dto = transaction c (insert_link dto)

abbrev pub relink : FileUpdatedDto → LinkRow → LinkRow
relink dto r = record r {
  cloud_hash_check_sum = hash_text dto.cloud_hash_check_sum;
  cloud_file_modified_time = dto.cloud_file_modified_time;
  cloud_size = dto.size;
}

unfoldable pub update_link_rows : FileUpdatedDto → Statement (Unit {0})
update_link_rows dto t = some (
  tt,
  record t { file_links = amend (is_link dto.global_id dto.cloud_id) (relink dto) t.file_links },
)

-- `Database::update_file_link(const FileUpdatedDTO&)`
unfoldable pub update_file_link : Codes → FileUpdatedDto → Method (Unit {0})
unfolding transaction update_link_rows
update_file_link c dto = transaction c (update_link_rows dto)

abbrev pub refile : FileUpdatedDto → FileRow → FileRow
refile dto r = record r {
  size = dto.size;
  local_hash = hash_word dto.cloud_hash_check_sum;
  local_modified_time = dto.cloud_file_modified_time;
  file_id = dto.file_id;
}

unfoldable pub update_file_rows : FileUpdatedDto → Statement (Unit {0})
update_file_rows dto t =
    some (tt, record t { files = amend (is_global dto.global_id) (refile dto) t.files })

-- `Database::update_file(const FileUpdatedDTO&)`
unfoldable pub update_file : Codes → FileUpdatedDto → Method (Unit {0})
unfolding transaction update_file_rows
update_file c dto = transaction c (update_file_rows dto)

abbrev pub move_link : FileMovedDto → LinkRow → LinkRow
move_link dto r = record r {
  cloud_file_id = dto.cloud_file_id;
  cloud_file_modified_time = dto.cloud_file_modified_time;
  cloud_parent_id = dto.new_cloud_parent_id;
}

unfoldable pub move_link_rows : FileMovedDto → Statement (Unit {0})
move_link_rows dto t = some (
  tt,
  record t { file_links = amend (is_link dto.global_id dto.cloud_id) (move_link dto) t.file_links },
)

-- `Database::update_file_link(const FileMovedDTO&)`
unfoldable pub update_moved_link : Codes → FileMovedDto → Method (Unit {0})
unfolding transaction move_link_rows
update_moved_link c dto = transaction c (move_link_rows dto)

abbrev pub move_file : FileMovedDto → FileRow → FileRow
move_file dto r = record r {
  path = dto.new_rel_path;
  local_modified_time = dto.cloud_file_modified_time;
}

unfoldable pub move_file_rows : FileMovedDto → Statement (Unit {0})
move_file_rows dto t =
    some (tt, record t { files = amend (is_global dto.global_id) (move_file dto) t.files })

-- `Database::update_file(const FileMovedDTO&)`
unfoldable pub update_moved_file : Codes → FileMovedDto → Method (Unit {0})
unfolding transaction move_file_rows
update_moved_file c dto = transaction c (move_file_rows dto)

-- "DELETE FROM files", which cascades to the links of the file.
unfoldable pub delete_rows : ℕ → Statement (Unit {0})
delete_rows g t = some (
  tt,
  record t {
    files = keep (λ r. not (is_global g r)) t.files;
    file_links = keep (λ r. not (is_link_of g r)) t.file_links;
  },
)

-- `Database::delete_file_and_links`
unfoldable pub delete_file_and_links : Codes → ℕ → Method (Unit {0})
unfolding transaction delete_rows
delete_file_and_links c g = transaction c (delete_rows g)

-- "INSERT OR REPLACE INTO metadata"
unfoldable pub put_metadata : String → String → Statement (Unit {0})
put_metadata name value t = some (tt, record t { metadata = insert name value t.metadata })

-- `Database::markInitialSyncDone`
unfoldable pub mark_initial_sync_done : Codes → Method (Unit {0})
unfolding transaction put_metadata
mark_initial_sync_done c = transaction c (put_metadata "initial_sync_done" "1")

-- `Database::addLocalDir`
unfoldable pub add_local_dir : Codes → String → Method (Unit {0})
unfolding transaction put_metadata
add_local_dir c dir = transaction c (put_metadata "local_dir" dir)

abbrev pub set_config : String → ConfigRow → ConfigRow
set_config dump r = record r { config_data = dump }

-- The statement of `update_cloud_data`, with the text that `data.dump()` returns.
unfoldable pub update_config_rows : ℕ → String → Statement (Unit {0})
update_config_rows cloud dump t =
    some
      (tt, record t { cloud_configs = amend (is_config cloud) (set_config dump) t.cloud_configs })

-- `Database::update_cloud_data`
unfoldable pub update_cloud_data : Codes → ℕ → String → Method (Unit {0})
unfolding transaction update_config_rows
update_cloud_data c cloud dump = transaction c (update_config_rows cloud dump)

abbrev pub config_row : ℕ → String → CloudProviderType → String → ConfigRow
config_row id name type dump = record {
  config_id = id;
  name = name;
  type = cloud_type_name type;
  config_data = dump;
}

-- "INSERT INTO cloud_configs": a taken name violates its UNIQUE constraint.
unfoldable pub insert_config : String → CloudProviderType → String → Statement ℕ
insert_config name type dump t =
    if any (is_named name) t.cloud_configs
    then none
    else some (
      t.next_config_id,
      record t {
        cloud_configs = t.cloud_configs ++ (config_row t.next_config_id name type dump ∷ []);
        next_config_id = suc t.next_config_id;
      },
    )

-- `Database::add_cloud`: one statement with no transaction of its own, and no rollback.
unfoldable pub add_cloud : Codes → String → CloudProviderType → String → Method ℕ
add_cloud c name type dump s = elim c.prepares [
  | true ↦ elim (if c.steps then insert_config name type dump s.tables else none) [
    | none ↦ (err step_failed, s)
    | some (g, t) ↦ (ok g, record s { tables = t })
  ]
  | false ↦ (err prepare_failed, s)
]
