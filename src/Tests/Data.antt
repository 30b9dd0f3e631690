-- ===== src/Tests/Data.antt =====
-- The values that the tests share.
use sync_harbor.Base.{String, some, true, false, [], ◌∷◌}
use sync_harbor.Utils.Kinds.{EntryType}
use sync_harbor.Utils.FilePath.{FilePath, relative}
use sync_harbor.Utils.Dto.{FileRecordDto, FileUpdatedDto, FileMovedDto, word, text}
use sync_harbor.Database.Tables.{ConfigRow, FileRow, LinkRow, Tables}
use sync_harbor.Database.Connection.{Codes}
use sync_harbor.Database.Read.{JsonLibrary}

-- Every call of SQLite succeeds.
abbrev pub fine : Codes
fine = record {
  begins = true;
  prepares = true;
  steps = true;
  commits = true;
  indeterminate = EntryType.null;
}

abbrev pub full_disk : Codes
full_disk = record fine { commits = false }

abbrev pub notes : FilePath
notes = relative ("work" ∷ "notes.txt" ∷ [])

abbrev pub notes_row : FileRow
notes_row = record {
  global_id = 1;
  type = "File";
  path = notes;
  size = 10;
  local_hash = 77;
  local_modified_time = 1000;
  file_id = 42;
}

abbrev pub drive_row : ConfigRow
drive_row = record { config_id = 1; name = "drive"; type = "GoogleDrive"; config_data = "{}" }

abbrev pub notes_link : LinkRow
notes_link = record {
  global_id = 1;
  cloud_id = 1;
  cloud_file_id = "g-1";
  cloud_parent_id = "g-0";
  cloud_file_modified_time = 1001;
  cloud_hash_check_sum = "c0ffee";
  cloud_size = 10;
}

-- A database with one file, one cloud, and the file's link to it.
abbrev pub stored : Tables
stored = record {
  metadata = [];
  cloud_configs = drive_row ∷ [];
  files = notes_row ∷ [];
  file_links = notes_link ∷ [];
  next_config_id = 2;
  next_global_id = 2;
}

-- The same without the link.
abbrev pub unlinked : Tables
unlinked = record stored { file_links = [] }

abbrev pub photo : FileRecordDto
photo = record {
  rel_path = relative ("photo.png" ∷ []);
  cloud_parent_id = "";
  cloud_file_id = "";
  cloud_hash_check_sum = word 5;
  size = 300;
  file_id = 43;
  cloud_file_modified_time = 2000;
  global_id = 0;
  cloud_id = 0;
  type = EntryType.file;
}

abbrev pub notes_again : FileRecordDto
notes_again = record photo { rel_path = notes }

abbrev pub notes_on_drive : FileRecordDto
notes_on_drive = record photo {
  rel_path = notes;
  cloud_file_id = "g-1";
  cloud_parent_id = "g-0";
  cloud_hash_check_sum = text "c0ffee";
  global_id = 1;
  cloud_id = 1;
}

abbrev pub notes_update : FileUpdatedDto
notes_update = record {
  rel_path = notes;
  cloud_file_id = "g-1";
  cloud_hash_check_sum = text "beef";
  cloud_parent_id = "g-0";
  size = 12;
  cloud_file_modified_time = 3000;
  file_id = 44;
  global_id = 1;
  cloud_id = 1;
  type = EntryType.file;
}

abbrev pub notes_move : FileMovedDto
notes_move = record {
  old_rel_path = notes;
  new_rel_path = relative ("notes.txt" ∷ []);
  cloud_file_id = "g-1";
  old_cloud_parent_id = "g-0";
  new_cloud_parent_id = "g-9";
  cloud_file_modified_time = 4000;
  global_id = 1;
  cloud_id = 1;
  type = EntryType.file;
}

-- A library whose values are the texts themselves.
abbrev pub plain_json : JsonLibrary
plain_json = record { Json = String; dump = λ s. s; parse = λ s. some s }
