-- ===== src/Clouds/Dropbox/Entry.antt =====
-- The fields that `Dropbox::proccessChanges` reads of one entry.
use sync_harbor.Base.{ℕ, String, Bool, true, ◌||◌, ◌==◌, string_eq, if◌then◌else◌}
use sync_harbor.Utils.Kinds.{EntryType}
use sync_harbor.Utils.FilePath.{FilePath}
use sync_harbor.Utils.Texts.{path_of_text, convert_cloud_time}
use sync_harbor.Database.Connection.{Result, ok}
use sync_harbor.Clouds.Json.{
  JsonValues, ◌then_read◌, get_text, index, value_text, value_flag, value_number,
}

-- What is read of a file that is there.
pub record Content : Type 0 where
  pub mtime : ℕ
  pub size : ℕ
  pub hash : String

-- `content` is read behind the first query, and may throw.
pub record Entry : Type 0 where
  pub deleted : Bool
  pub type : EntryType
  pub cloud_file_id : String
  pub path : FilePath
  pub content : Result Content

-- A folder, a document or a file.
unfoldable pub type_of_tag : String → Bool → EntryType
type_of_tag tag is_downloadable =
    if tag == "folder"
    then EntryType.directory
    else if is_downloadable
    then EntryType.file
    else EntryType.document

module _ (json : JsonValues) (calendar : String → ℕ) where
  unfoldable pub read_content : String → json.Json → Result Content
  unfolding value_text value_number convert_cloud_time
  read_content tag entry =
      if tag == "deleted" || tag == "folder"
      then ok (record { mtime = 0; size = 0; hash = "" })
      else (value_text json entry "server_modified" "" then_read λ modified.
          value_number json entry "size" 0 then_read λ size.
          value_text json entry "content_hash" "" then_read λ hash.
          ok (record { mtime = convert_cloud_time calendar modified; size = size; hash = hash }))

  unfoldable pub read_entry : json.Json → Result Entry
  unfolding index get_text value_flag value_text read_content type_of_tag path_of_text
  read_entry entry = index json entry ".tag" then_read get_text json then_read λ tag.
      value_flag json entry "is_downloadable" true then_read λ is_downloadable.
      value_text json entry "id" "" then_read λ cloud_file_id.
      value_text json entry "path_display" "" then_read λ path_str. ok (record {
        deleted = tag == "deleted";
        type = type_of_tag tag is_downloadable;
        cloud_file_id = cloud_file_id;
        path = path_of_text path_str;
        content = read_content tag entry;
      })
