-- ===== src/Database/Tables.antt =====
-- The four tables of `Database::create_tables`. Rows stand in the order of their insertion, which is
-- that of their keys and the order in which a query visits them.
use sync_harbor.Base.{
  ℕ, suc, ◌≤◌, String, ◌≡◌, Bool, true, false, ◌&&◌, List, [], ◌∷◌, All, any, ◌==◌, nat_eq,
  string_eq,
}
use sync_harbor.Base.Dict.{Dict}
use sync_harbor.Utils.FilePath.{FilePath, path_eq}

pub record ConfigRow : Type 0 where
  pub config_id : ℕ
  pub name : String
  pub type : String
  pub config_data : String

pub record FileRow : Type 0 where
  pub global_id : ℕ
  pub type : String
  pub path : FilePath
  pub size : ℕ
  pub local_hash : ℕ
  pub local_modified_time : ℕ
  pub file_id : ℕ

pub record LinkRow : Type 0 where
  pub global_id : ℕ
  pub cloud_id : ℕ
  pub cloud_file_id : String
  pub cloud_parent_id : String
  pub cloud_file_modified_time : ℕ
  pub cloud_hash_check_sum : String
  pub cloud_size : ℕ

-- The counters are those of AUTOINCREMENT.
pub record Tables : Type 0 where
  pub metadata : Dict String String
  pub cloud_configs : List ConfigRow
  pub files : List FileRow
  pub file_links : List LinkRow
  pub next_config_id : ℕ
  pub next_global_id : ℕ

-- `create_tables` on an empty database file.
abbrev pub fresh_tables : Tables
fresh_tables = record {
  metadata = [];
  cloud_configs = [];
  files = [];
  file_links = [];
  next_config_id = 1;
  next_global_id = 1;
}

-- The conditions of the WHERE clauses.
abbrev pub is_global : ℕ → FileRow → Bool
is_global g r = r.global_id == g

abbrev pub is_path : FilePath → FileRow → Bool
is_path p r = r.path == p

abbrev pub is_file_id : ℕ → FileRow → Bool
is_file_id f r = r.file_id == f

abbrev pub is_config : ℕ → ConfigRow → Bool
is_config c r = r.config_id == c

abbrev pub is_named : String → ConfigRow → Bool
is_named n r = r.name == n

abbrev pub is_link : ℕ → ℕ → LinkRow → Bool
is_link g c r = r.global_id == g && r.cloud_id == c

abbrev pub is_link_of : ℕ → LinkRow → Bool
is_link_of g r = r.global_id == g

abbrev pub is_cloud_file : ℕ → String → LinkRow → Bool
is_cloud_file c f r = r.cloud_id == c && r.cloud_file_id == f

-- Keys ascend from the first number and stay below the second.
abbrev pub Ascending {ℓ} : {A : Type ℓ} → (A → ℕ) → ℕ → List A → ℕ → Type 0
Ascending key lo [] hi = lo ≤ hi
Ascending key lo (x ∷ xs) hi = (lo ≤ key x) × Ascending key (suc (key x)) xs hi

-- No two rows share the primary key of `file_links`.
abbrev pub DistinctLinks : List LinkRow → Type 0
DistinctLinks [] = Unit
DistinctLinks (r ∷ rs) = (any (is_link r.global_id r.cloud_id) rs ≡ false) × DistinctLinks rs

abbrev pub DistinctNames : List ConfigRow → Type 0
DistinctNames [] = Unit
DistinctNames (r ∷ rs) = (any (is_named r.name) rs ≡ false) × DistinctNames rs

-- The two foreign keys of a link.
abbrev pub Refers : List FileRow → List ConfigRow → LinkRow → Type 0
Refers fs cs r = (any (is_global r.global_id) fs ≡ true) × (any (is_config r.cloud_id) cs ≡ true)

-- What the schema promises of the rows.
pub record IsIntact (t : Tables) : Type 0 where
  pub files_ascend : Ascending (λ (r : FileRow). r.global_id) 1 t.files t.next_global_id
  pub configs_ascend : Ascending (λ (r : ConfigRow). r.config_id) 1 t.cloud_configs t.next_config_id
  pub names_distinct : DistinctNames t.cloud_configs
  pub links_distinct : DistinctLinks t.file_links
  pub links_refer : All (Refers t.files t.cloud_configs) t.file_links
