-- ===== src/Utils/Dto.antt =====
-- The data transfer objects of include/utils.h. A `time_t` and a 64-bit word are plain numbers; a
-- member that a constructor leaves uninitialised is an argument of its function.
use sync_harbor.Base.{ℕ, String, Option, none}
use sync_harbor.Utils.Kinds.{EntryType, ChangeType}
use sync_harbor.Utils.FilePath.{FilePath, empty_path}

-- `std::variant<std::string, uint64_t>`
pub data HashSum : Type 0 where
  text : String → HashSum
  word : ℕ → HashSum

pub record FileRecordDto : Type 0 where
  pub rel_path : FilePath
  pub cloud_parent_id : String
  pub cloud_file_id : String
  pub cloud_hash_check_sum : HashSum
  pub size : ℕ
  pub file_id : ℕ
  pub cloud_file_modified_time : ℕ
  pub global_id : ℕ
  pub cloud_id : ℕ
  pub type : EntryType

-- LocalStorage NEW
unfoldable pub local_new_record : EntryType → FilePath → ℕ → ℕ → ℕ → ℕ → FileRecordDto
local_new_record t rp s cfmt hash fid = record {
  rel_path = rp;
  cloud_parent_id = "";
  cloud_file_id = "";
  cloud_hash_check_sum = word hash;
  size = s;
  file_id = fid;
  cloud_file_modified_time = cfmt;
  global_id = 0;
  cloud_id = 0;
  type = t;
}

-- Cloud info from db; `type` is the uninitialised member.
unfoldable pub cloud_stored_record :
    EntryType → ℕ → ℕ → String → String → ℕ → String → ℕ → FileRecordDto
cloud_stored_record type g_id c_id parent cf_id s hash cfmt = record {
  rel_path = empty_path;
  cloud_parent_id = parent;
  cloud_file_id = cf_id;
  cloud_hash_check_sum = text hash;
  size = s;
  file_id = 0;
  cloud_file_modified_time = cfmt;
  global_id = g_id;
  cloud_id = c_id;
  type = type;
}

-- LocalStorage info from db
unfoldable pub local_stored_record : ℕ → EntryType → FilePath → ℕ → ℕ → ℕ → ℕ → FileRecordDto
local_stored_record g_id t rp s hash cfmt fid = record {
  rel_path = rp;
  cloud_parent_id = "";
  cloud_file_id = "";
  cloud_hash_check_sum = word hash;
  size = s;
  file_id = fid;
  cloud_file_modified_time = cfmt;
  global_id = g_id;
  cloud_id = 0;
  type = t;
}

-- GoogleDrive Cloud NEW info
unfoldable pub drive_new_record :
    EntryType → String → FilePath → String → ℕ → ℕ → String → ℕ → FileRecordDto
drive_new_record t parent rp cf_id s cfmt hash cid = record {
  rel_path = rp;
  cloud_parent_id = parent;
  cloud_file_id = cf_id;
  cloud_hash_check_sum = text hash;
  size = s;
  file_id = 0;
  cloud_file_modified_time = cfmt;
  global_id = 0;
  cloud_id = cid;
  type = t;
}

-- NOT GoogleDrive Cloud NEW info
unfoldable pub cloud_new_record : EntryType → FilePath → String → ℕ → ℕ → String → ℕ → FileRecordDto
unfolding drive_new_record
cloud_new_record t rp cf_id s cfmt hash cid = drive_new_record t "" rp cf_id s cfmt hash cid

pub record FileUpdatedDto : Type 0 where
  pub rel_path : FilePath
  pub cloud_file_id : String
  pub cloud_hash_check_sum : HashSum
  pub cloud_parent_id : String
  pub size : ℕ
  pub cloud_file_modified_time : ℕ
  pub file_id : ℕ
  pub global_id : ℕ
  pub cloud_id : ℕ
  pub type : EntryType

-- LocalStorage Modify
unfoldable pub local_updated : EntryType → ℕ → ℕ → ℕ → FilePath → ℕ → ℕ → FileUpdatedDto
local_updated t gid chcs cfmt rp s fid = record {
  rel_path = rp;
  cloud_file_id = "";
  cloud_hash_check_sum = word chcs;
  cloud_parent_id = "";
  size = s;
  cloud_file_modified_time = cfmt;
  file_id = fid;
  global_id = gid;
  cloud_id = 0;
  type = t;
}

-- Cloud Modify
unfoldable pub cloud_updated :
    EntryType → ℕ → ℕ → String → String → ℕ → FilePath → String → ℕ → FileUpdatedDto
cloud_updated t gid cid cfid chcs cfmt rp cpid s = record {
  rel_path = rp;
  cloud_file_id = cfid;
  cloud_hash_check_sum = text chcs;
  cloud_parent_id = cpid;
  size = s;
  cloud_file_modified_time = cfmt;
  file_id = 0;
  global_id = gid;
  cloud_id = cid;
  type = t;
}

pub record FileMovedDto : Type 0 where
  pub old_rel_path : FilePath
  pub new_rel_path : FilePath
  pub cloud_file_id : String
  pub old_cloud_parent_id : String
  pub new_cloud_parent_id : String
  pub cloud_file_modified_time : ℕ
  pub global_id : ℕ
  pub cloud_id : ℕ
  pub type : EntryType

-- The first constructor of `FileMovedDTO`.
unfoldable pub local_moved : EntryType → ℕ → ℕ → FilePath → FilePath → FileMovedDto
local_moved t gid cfmt orp nrp = record {
  old_rel_path = orp;
  new_rel_path = nrp;
  cloud_file_id = "";
  old_cloud_parent_id = "";
  new_cloud_parent_id = "";
  cloud_file_modified_time = cfmt;
  global_id = gid;
  cloud_id = 0;
  type = t;
}

-- Cloud Modify of `FileMovedDTO`
unfoldable pub cloud_moved :
    EntryType → ℕ → ℕ → String → ℕ → FilePath → FilePath → String → String → FileMovedDto
cloud_moved t gid cid cfid cfmt orp nrp old_cpid new_cpid = record {
  old_rel_path = orp;
  new_rel_path = nrp;
  cloud_file_id = cfid;
  old_cloud_parent_id = old_cpid;
  new_cloud_parent_id = new_cpid;
  cloud_file_modified_time = cfmt;
  global_id = gid;
  cloud_id = cid;
  type = t;
}

pub record FileDeletedDto : Type 0 where
  pub rel_path : FilePath
  pub cloud_file_id : String
  pub when : ℕ
  pub global_id : ℕ
  pub cloud_id : ℕ

-- LocalStorage Delete
unfoldable pub local_deleted : FilePath → ℕ → ℕ → FileDeletedDto
local_deleted rp gid t = record {
  rel_path = rp;
  cloud_file_id = "";
  when = t;
  global_id = gid;
  cloud_id = 0;
}

-- Cloud Delete
unfoldable pub cloud_deleted : FilePath → ℕ → ℕ → String → ℕ → FileDeletedDto
cloud_deleted rp gid cid cfid t = record {
  rel_path = rp;
  cloud_file_id = cfid;
  when = t;
  global_id = gid;
  cloud_id = cid;
}

-- The event that `FileEvent::associated` points to; its own pointer is null.
pub record AssociatedEvent : Type 0 where
  pub path : FilePath
  pub file_id : ℕ
  pub when : ℕ
  pub type : ChangeType

pub record FileEvent : Type 0 where
  pub path : FilePath
  pub associated : Option AssociatedEvent
  pub file_id : ℕ
  pub when : ℕ
  pub type : ChangeType

-- The constructor without an associated event.
unfoldable pub file_event : FilePath → ℕ → ChangeType → FileEvent
file_event p tm tp = record { path = p; associated = none; file_id = 0; when = tm; type = tp }

-- `*evt.associated` as an event of its own.
unfoldable pub associated_event : AssociatedEvent → FileEvent
associated_event a = record {
  path = a.path;
  associated = none;
  file_id = a.file_id;
  when = a.when;
  type = a.type;
}
