-- ===== src/Clouds/Drive/Entry.antt =====
-- The fields that `GoogleDrive::proccessChanges` reads of one change, in its order; the hash, which it
-- reads behind the first query, stands last.
use sync_harbor.Base.{ℕ, String, Bool, ◌==◌, string_eq, if◌then◌else◌}
use text.Mathlib.Text.{starts_with}
use sync_harbor.Utils.Kinds.{EntryType}
use sync_harbor.Utils.Texts.{convert_cloud_time}
use sync_harbor.Database.Connection.{Result, ok}
use sync_harbor.Clouds.Json.{
  JsonValues, ◌then_read◌, get_text, has_member, const_index, const_first, value_text, value_flag,
  value_number,
}

abbrev pub folder_mime : String
folder_mime = "application/vnd.google-apps.folder"

-- A folder, a document or a file, by its `mimeType`.
unfoldable pub type_of_mime : String → EntryType
type_of_mime mime =
    if mime == folder_mime
    then EntryType.directory
    else if starts_with mime "application/vnd.google-apps."
    then EntryType.document
    else EntryType.file

pub record Entry : Type 0 where
  pub trashed : Bool
  pub type : EntryType
  pub cloud_file_id : String
  pub mod_time : ℕ
  pub size : ℕ
  pub name : String
  pub parent_id : String
  pub hash : String

module _ (json : JsonValues) (calendar : String → ℕ) where
  -- `file["parents"][0]`, empty where there are none.
  unfoldable pub read_parent : json.Json → Result String
  unfolding has_member const_index const_first get_text
  read_parent file =
      if has_member json file "parents"
      then (const_index json file "parents" then_read λ parents.
          const_first json parents then_read get_text json)
      else ok ""

  unfoldable pub read_entry : json.Json → Result Entry
  unfolding read_parent value_text value_flag value_number const_index get_text type_of_mime
      convert_cloud_time
  read_entry file = value_flag json file "trashed" Bool.false then_read λ trashed.
      const_index json file "mimeType" then_read get_text json then_read λ mime.
      const_index json file "id" then_read get_text json then_read λ cloud_file_id.
      const_index json file "modifiedTime" then_read get_text json then_read λ modified.
      value_number json file "size" 0 then_read λ size.
      value_text json file "name" "" then_read λ name. read_parent file then_read λ parent_id.
      value_text json file "md5Checksum" "" then_read λ hash. ok (record {
        trashed = trashed;
        type = type_of_mime mime;
        cloud_file_id = cloud_file_id;
        mod_time = convert_cloud_time calendar modified;
        size = size;
        name = name;
        parent_id = parent_id;
        hash = hash;
      })
