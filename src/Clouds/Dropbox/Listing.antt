-- ===== src/Clouds/Dropbox/Listing.antt =====
-- `Dropbox::initialFiles`. `relative_to` is `std::filesystem::relative` to the home directory. A loop over
-- pages that does not end is cut after a number of them.
use sync_harbor.Base.{
  ℕ, zero, suc, String, Bool, true, false, ◌||◌, none, some, List, [], ◌∷◌, ◌++◌, ◌==◌, string_eq,
  if◌then◌else◌,
}
use sync_harbor.Utils.Kinds.{EntryType}
use sync_harbor.Utils.FilePath.{FilePath, path_eq, relative, is_empty}
use sync_harbor.Utils.Texts.{path_text, path_of_text, convert_cloud_time}
use sync_harbor.Utils.Dto.{FileRecordDto, cloud_new_record}
use sync_harbor.Database.Connection.{Result, ok, ◌>>=◌}
use sync_harbor.Clouds.Json.{
  JsonValues, ◌then_read◌, parsed, get_text, index, const_index, value_text, value_flag,
  value_number,
}
use sync_harbor.Clouds.Request.{Request}
use sync_harbor.Clouds.Service.{Service, Asking, sync_request, reading}
use sync_harbor.Clouds.Dropbox.Entry.{Content}
use sync_harbor.Clouds.Dropbox.Requests.{Account}
use sync_harbor.Clouds.Dropbox.Folders.{json_request}

-- The records found so far, and whether the listing came to its end.
pub record Scan : Type 0 where
  pub complete : Bool
  pub result : List FileRecordDto

-- What one page says of the next.
pub record Page : Type 0 where
  pub records : List FileRecordDto
  pub has_more : Bool
  pub cursor : String

module _ (json : JsonValues) (calendar : String → ℕ) (relative_to : FilePath → Result FilePath)
    (id : ℕ) where
  -- `e[".tag"] == "folder"`, which a value that is no text is not.
  unfoldable pub says_folder : json.Json → Result Bool
  unfolding const_index
  says_folder e = const_index json e ".tag" then_read λ tag.
      ok (elim (json.text tag) [ none ↦ false | some t ↦ t == "folder" ])

  -- The time, the hash and the size of an entry; those of a folder are not read.
  unfoldable pub listed_content : Bool → json.Json → Result Content
  unfolding const_index get_text value_number convert_cloud_time
  listed_content true e = ok (record { mtime = 0; size = 0; hash = "" })
  listed_content false e =
      const_index json e "server_modified" then_read get_text json then_read λ modified.
      const_index json e "content_hash" then_read get_text json then_read λ hash.
      value_number json e "size" 0 then_read λ size.
      ok (record { mtime = convert_cloud_time calendar modified; size = size; hash = hash })

  -- The record of an entry, if it lies below the home directory.
  unfoldable pub list_file :
      json.Json → Bool → Bool → String → FilePath → Result (List FileRecordDto)
  unfolding listed_content cloud_new_record is_empty path_eq
  list_file e is_folder is_downloadable file_id rel_path =
      if is_empty rel_path || rel_path == relative ("." ∷ [])
      then ok []
      else (listed_content is_folder e then_read λ content. ok (
          cloud_new_record
            (if is_folder
              then EntryType.directory
              else if is_downloadable
              then EntryType.file
              else EntryType.document)
            rel_path file_id content.size content.mtime content.hash id
          ∷ []))

  -- `proccess_entries`
  unfoldable pub list_files : List json.Json → Result (List FileRecordDto)
  unfolding says_folder value_flag const_index get_text path_of_text list_file
  list_files [] = ok []
  list_files (e ∷ entries) =
      let rest = list_files entries in
      says_folder e then_read λ is_folder.
      value_flag json e "is_downloadable" true then_read λ is_downloadable.
      const_index json e "id" then_read get_text json then_read λ file_id.
      const_index json e "path_display" then_read get_text json then_read λ path_str.
      relative_to (path_of_text path_str) then_read λ rel_path.
      list_file e is_folder is_downloadable file_id rel_path then_read λ here.
      rest then_read λ others. ok (here ++ others)

  unfoldable pub read_page : String → Result Page
  unfolding parsed index list_files value_flag value_text
  read_page response = parsed json response then_read λ rsp.
      index json rsp "entries" then_read λ entries.
      list_files (json.elements entries) then_read λ records.
      value_flag json rsp "has_more" false then_read λ has_more.
      value_text json rsp "cursor" "" then_read λ cursor.
      ok (record { records = records; has_more = has_more; cursor = cursor })

  module _ (service : Service) (box : Account) where
    unfoldable pub list_request : Request
    unfolding path_text
    list_request =
        json_request json relative_to service id box
          "https://api.dropboxapi.com/2/files/list_folder"
          (("path", json.string (path_text box.home_path))
            ∷ ("recursive", json.boolean true)
            ∷ ("include_media_info", json.boolean false)
            ∷ ("include_deleted", json.boolean false)
            ∷ ("include_non_downloadable_files", json.boolean true)
            ∷ [])

    unfoldable pub next_request : String → Request
    next_request cursor =
        json_request json relative_to service id box
          "https://api.dropboxapi.com/2/files/list_folder/continue"
          (("cursor", json.string cursor) ∷ [])

    -- The loop while there is more.
    unfoldable pub more_files : ℕ → Bool → String → List FileRecordDto → Asking service Scan
    unfolding next_request sync_request read_page
    more_files pages false cursor result s = (ok (record { complete = true; result = result }), s)
    more_files zero true cursor result s = (ok (record { complete = false; result = result }), s)
    more_files (suc pages) true cursor result s =
        (do
          response ← sync_request service (next_request cursor)
          page ← reading service (read_page response)
          more_files pages page.has_more page.cursor (result ++ page.records))
          s

    -- `initialFiles`
    unfoldable pub initial_files : ℕ → Asking service Scan
    unfolding list_request sync_request read_page more_files
    initial_files pages = do
      response ← sync_request service list_request
      page ← reading service (read_page response)
      more_files pages page.has_more page.cursor page.records
