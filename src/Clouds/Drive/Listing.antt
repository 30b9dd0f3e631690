-- ===== src/Clouds/Drive/Listing.antt =====
-- `GoogleDrive::initialFiles`: the folders are read breadth first, each page by page. The loops end when
-- the service has no more folders and pages, so a scan is given a number of pages.
pub mod Tree
use sync_harbor.Base.{
  ℕ, zero, suc, ◌+◌, ◌*◌, ◌-◌, ◌<◌, ◌^◌, String, ◌<>◌, Bool, true, false, Option, none, some, List,
  [], ◌∷◌, ◌++◌, ◌==◌, nat_eq, leb, ltb, string_eq, if◌then◌else◌, ◌&&◌, not,
}
use sync_harbor.Utils.Kinds.{EntryType, entry_type_eq}
use sync_harbor.Utils.FilePath.{FilePath, empty_path, join}
use sync_harbor.Utils.Texts.{path_of_text, convert_cloud_time}
use sync_harbor.Utils.Dto.{FileRecordDto, drive_new_record}
use sync_harbor.Database.Connection.{Result, ok, err, Stateful, return, ◌>>=◌}
use sync_harbor.Clouds.Json.{
  JsonValues, ◌then_read◌, parsed, get_text, has_member, index, value_text,
}
use sync_harbor.Clouds.Request.{get, no_body, Request, bearer}
use sync_harbor.Clouds.Service.{Service, Online, Asking, sync_request, reading}
use sync_harbor.Clouds.Drive.Entry.{type_of_mime}
use sync_harbor.Clouds.Drive.Requests.{Account}
use sync_harbor.Clouds.Drive.Changes.{under}

-- A folder that waits in `dir_queue`.
pub record Waiting : Type 0 where
  pub id : String
  pub rel_path : FilePath

-- What one page adds: its records, and the folders among them.
pub record Page : Type 0 where
  pub records : List FileRecordDto
  pub folders : List Waiting
  pub next_token : String

-- The records found so far, and whether the scan came to its end.
pub record Scan : Type 0 where
  pub complete : Bool
  pub result : List FileRecordDto

module _ (json : JsonValues) (calendar : String → ℕ) (stoull : String → Result ℕ)
    (drive : Account) where
  -- The size that a file has.
  unfoldable pub read_size : EntryType → json.Json → Result ℕ
  unfolding has_member index get_text
  read_size type f =
      if not (type == EntryType.directory) && has_member json f "size"
      then (index json f "size" then_read get_text json then_read stoull)
      else ok 0

  -- The record of one entry of a folder.
  unfoldable pub read_file : Waiting → json.Json → Result FileRecordDto
  unfolding index get_text type_of_mime read_size value_text convert_cloud_time drive_new_record
  read_file dir f = index json f "mimeType" then_read get_text json then_read λ mime.
      index json f "id" then_read get_text json then_read λ id.
      index json f "name" then_read get_text json then_read λ name.
      read_size (type_of_mime mime) f then_read λ size.
      index json f "modifiedTime" then_read get_text json then_read λ modified.
      value_text json f "md5Checksum" "" then_read λ hash. ok (
        drive_new_record (type_of_mime mime) dir.id (under dir.rel_path name) id size
          (convert_cloud_time calendar modified) hash drive.id)

  -- The loop over the files of a page.
  unfoldable pub read_files : Waiting → List json.Json → Result (List FileRecordDto)
  unfolding read_file
  read_files dir [] = ok []
  read_files dir (f ∷ files) =
      read_file dir f then_read λ dto. read_files dir files then_read λ others. ok (dto ∷ others)

  -- What is queued of the records of a page.
  unfoldable pub folders_of : List FileRecordDto → List Waiting
  folders_of [] = []
  folders_of (dto ∷ dtos) =
      let rest = folders_of dtos in
      if dto.type == EntryType.directory
      then (record { id = dto.cloud_file_id; rel_path = dto.rel_path }) ∷ rest
      else rest

  unfoldable pub read_page : Waiting → String → Result Page
  unfolding parsed index read_files folders_of value_text
  read_page dir response = parsed json response then_read λ rsp.
      index json rsp "files" then_read λ files.
      read_files dir (json.elements files) then_read λ records.
      value_text json rsp "nextPageToken" "" then_read λ token.
      ok (record { records = records; folders = folders_of records; next_token = token })

  -- The request for a page of a folder.
  unfoldable pub page_request : String → String → Request
  page_request parent_id page_token = record {
    url =
        drive.api_base_url
        <> ("/drive/v3/files?q=%27"
            <> (parent_id
                <> ("%27%20in%20parents%20and%20trashed%3Dfalse&fields=nextPageToken,files(id,name,mimeType,modifiedTime,size,md5Checksum,parents)&pageSize=1000"
                    <> (if page_token == "" then "" else "&pageToken=" <> page_token))));
    verb = get;
    headers = bearer drive.access_token ∷ "Accept: application/json" ∷ [];
    body = no_body;
    saved_to = none;
  }

  module _ (service : Service) where
    -- The two loops: the first folder of the queue is read from `page_token` on.
    unfoldable pub scan : ℕ → List Waiting → String → List FileRecordDto → Asking service Scan
    unfolding read_page page_request sync_request
    scan pages [] page_token result s = (ok (record { complete = true; result = result }), s)
    scan zero (dir ∷ queue) page_token result s =
        (ok (record { complete = false; result = result }), s)
    scan (suc pages) (dir ∷ queue) page_token result s =
        (do
          response ← sync_request service (page_request dir.id page_token)
          page ← reading service (read_page dir response)
          let folders = queue ++ page.folders
          scan pages (if page.next_token == "" then folders else dir ∷ folders) page.next_token
              (result ++ page.records))
          s

    -- `initialFiles`
    unfoldable pub initial_files : ℕ → Asking service Scan
    unfolding scan
    initial_files pages =
        scan pages ((record { id = drive.home_dir_id; rel_path = empty_path }) ∷ []) "" []
