-- ===== src/Clouds/Drive/Folders.antt =====
-- `GoogleDrive::createPath` and `ensureRootExists`.
pub mod Chain
use sync_harbor.Base.{
  ℕ, ◌-◌, String, ◌<>◌, Bool, true, false, Option, none, some, List, [], ◌∷◌, length, if◌then◌else◌,
  string_eq,
}
use sync_harbor.Utils.Kinds.{EntryType, ChangeType}
use sync_harbor.Utils.FilePath.{FilePath, relative, is_empty, append_name, normalize_path}
use sync_harbor.Utils.Texts.{path_text, convert_cloud_time}
use sync_harbor.Utils.Dto.{FileRecordDto, drive_new_record}
use sync_harbor.Database.Connection.{Codes, Result, ok, err, Stateful, return, ◌>>=◌, ◌>>◌}
use sync_harbor.Database.Read.{get_cloud_file_id_by_path}
use sync_harbor.Local.Paths.{take}
use sync_harbor.Clouds.Json.{JsonValues, ◌then_read◌, parsed, get_text, has_member, index, first}
use sync_harbor.Clouds.Request.{get, post, no_body, post_fields, Request, expect, bearer}
use sync_harbor.Clouds.Service.{Service, Online, Asking, sync_request, offline, on_db, reading}
use sync_harbor.Clouds.Drive.Entry.{folder_mime}
use sync_harbor.Clouds.Drive.Requests.{Account}

abbrev accepts_json : List String
accepts_json = "Accept: application/json" ∷ []

-- What is read of a folder: its id and its time.
pub record Folder : Type 0 where
  pub id : String
  pub modified : ℕ

module _ (json : JsonValues) (calendar : String → ℕ) where
  -- The folder that a JSON describes.
  unfoldable pub read_folder : json.Json → Result Folder
  unfolding index get_text convert_cloud_time
  read_folder info = index json info "id" then_read get_text json then_read λ id.
      index json info "modifiedTime" then_read get_text json then_read λ modified.
      ok (record { id = id; modified = convert_cloud_time calendar modified })

  -- What the answer to a search says of the first file, if there is any, as `read` reads it.
  unfoldable pub first_found : {A : Type 0} → (json.Json → Result A) → json.Json → Result (Option A)
  unfolding has_member index first
  first_found read j =
      if has_member json j "files"
      then (index json j "files" then_read λ files.
          if json.is_empty files
          then ok none
          else (first json files then_read read then_read λ a. ok (some a)))
      else ok none

  -- The id of a folder alone.
  unfoldable pub read_id : json.Json → Result String
  unfolding index get_text
  read_id j = index json j "id" then_read get_text json

module _ (json : JsonValues) (calendar : String → ℕ) (escape : String → String) (service : Service)
    (drive : Account) where
  -- The search for a folder by its name and its parent, with the fields that are asked for.
  unfoldable pub search_request : String → List String → String → String → Request
  search_request fields accepts seg parent_id = record {
    url =
        drive.api_base_url
        <> ("/drive/v3/files?q="
            <> (escape (
                  "name='"
                  <> (seg
                      <> ("' and mimeType='application/vnd.google-apps.folder' and '"
                          <> (parent_id <> "' in parents and trashed=false"))))
                <> fields));
    verb = get;
    headers = bearer drive.access_token ∷ accepts;
    body = no_body;
    saved_to = none;
  }

  -- The creation of a folder.
  unfoldable pub folder_request : String → List String → String → String → Request
  folder_request query accepts seg parent_id = record {
    url = drive.api_base_url <> ("/drive/v3/files" <> query);
    verb = post;
    headers = bearer drive.access_token ∷ "Content-Type: application/json; charset=UTF-8" ∷ accepts;
    body = post_fields (
        json.dump (
          json.object (
            ("name", json.string seg)
            ∷ ("mimeType", json.string folder_mime)
            ∷ ("parents", json.array (json.string parent_id ∷ []))
            ∷ [])));
    saved_to = none;
  }

  folder_record : FilePath → String → Folder → FileRecordDto
  unfolding drive_new_record
  folder_record accum parent_id folder =
      drive_new_record EntryType.directory parent_id accum folder.id 0 folder.modified "" drive.id

  -- A folder that is made, which the next report may mention.
  unfoldable pub create_folder : FilePath → String → String → Asking service Folder
  unfolding folder_request sync_request parsed read_folder
  create_folder accum seg parent_id = do
    offline service (expect (path_text accum) ChangeType.created)
    response ←
        sync_request service (folder_request "?fields=id,modifiedTime" accepts_json seg parent_id)
    reading service (parsed json response then_read read_folder json calendar)

  -- The loop of `createPath` once a folder was missing.
  unfoldable pub create_folders :
      FilePath → String → List String → Asking service (List FileRecordDto)
  unfolding create_folder folder_record
  create_folders accum parent_id [] s = (ok [], s)
  create_folders accum parent_id (seg ∷ missing) s =
      let here = append_name accum seg in
      (create_folder here seg parent_id >>= λ folder.
      create_folders here folder.id missing >>= λ others.
      return (folder_record here parent_id folder ∷ others))
        s

  -- What is found of a folder.
  unfoldable pub find_folder : String → String → Asking service (Option Folder)
  unfolding search_request sync_request parsed first_found read_folder
  find_folder seg parent_id = do
    response ←
        sync_request service
          (search_request "&fields=files(id,name,mimeType,modifiedTime)" accepts_json seg parent_id)
    reading service
        (parsed json response then_read first_found json calendar (read_folder json calendar))

  -- The loop of `createPath`.
  unfoldable pub find_folders :
      FilePath → String → List String → Asking service (List FileRecordDto)
  unfolding find_folder folder_record create_folders
  find_folders accum parent_id [] s = (ok [], s)
  find_folders accum parent_id (seg ∷ missing) s =
      let here = append_name accum seg in
      (find_folder seg parent_id >>= λ found. elim found [
        | none ↦ create_folders accum parent_id (seg ∷ missing)
        | some folder ↦ find_folders here folder.id missing >>= λ others.
            return (folder_record here parent_id folder ∷ others)
      ])
        s

  -- The id that the missing part begins at.
  unfoldable pub start_parent : Codes → FilePath → Asking service String
  unfolding is_empty get_cloud_file_id_by_path
  start_parent c prefix =
      if is_empty prefix
      then return drive.home_dir_id
      else on_db service (get_cloud_file_id_by_path c c prefix drive.id)

  -- `createPath`
  unfoldable pub create_path : Codes → FilePath → FilePath → Asking service (List FileRecordDto)
  unfolding start_parent find_folders take normalize_path
  create_path c path missing =
      let segs = (normalize_path path).names in
      let prefix = relative (take (length segs - length missing.names) segs) in
      start_parent c prefix >>= λ parent_id. find_folders prefix parent_id missing.names

  -- The loop of `ensureRootExists` once a folder was missing.
  unfoldable pub create_root : String → List String → Asking service String
  unfolding folder_request sync_request parsed read_id
  create_root parent_id [] s = (ok parent_id, s)
  create_root parent_id (seg ∷ path) s =
      (do
        response ← sync_request service (folder_request "" [] seg parent_id)
        id ← reading service (parsed json response then_read read_id json calendar)
        create_root id path)
        s

  -- The loop of `ensureRootExists`.
  unfoldable pub find_root : String → List String → Asking service String
  unfolding search_request sync_request parsed first_found read_id create_root
  find_root parent_id [] s = (ok parent_id, s)
  find_root parent_id (seg ∷ path) s =
      (do
        response ← sync_request service (search_request "&fields=files(id)" [] seg parent_id)
        found ←
            reading service
              (parsed json response then_read first_found json calendar (read_id json calendar))
        elim found [ none ↦ create_root parent_id (seg ∷ path) | some id ↦ find_root id path ])
        s

  -- `ensureRootExists`, which returns `_home_dir_id`.
  unfoldable pub ensure_root_exists : FilePath → Asking service String
  unfolding find_root normalize_path
  ensure_root_exists home_path = find_root "root" (normalize_path home_path).names
