-- ===== src/Clouds/Drive/Requests.antt =====
-- The set-ups of `GoogleDrive`. `escape` is `curl_easy_escape`, and `opens` says which files open.
use sync_harbor.Base.{
  ℕ, String, ◌<>◌, Bool, true, not, ◌&&◌, Option, none, some, List, [], ◌∷◌, any, ◌==◌, nat_eq,
  string_eq, if◌then◌else◌,
}
use sync_harbor.Utils.Kinds.{EntryType, entry_type_eq, ChangeType}
use sync_harbor.Utils.FilePath.{FilePath, is_empty, join, parent_path, filename}
use sync_harbor.Utils.Texts.{path_text}
use sync_harbor.Utils.Dto.{FileRecordDto, FileUpdatedDto, FileMovedDto, FileDeletedDto}
use sync_harbor.Database.Connection.{Codes, Method, return, ◌>>=◌, ◌>>◌}
use sync_harbor.Database.Read.{get_cloud_file_id_by_path}
use sync_harbor.Local.Names.{extension_of, tmp_path}
use sync_harbor.Clouds.Json.{JsonValues}
use sync_harbor.Clouds.Request.{
  get, post, patch, no_body, post_fields, file_stream, mime_post, SetUp, Task, uploads,
  downloads_new, updates, downloads_update, moves, deletes, expect, open_stream, bearer,
}

-- `GoogleDocMimeInfo`
pub record GoogleDocMimeInfo : Type 0 where
  pub cloud_mime_type : String
  pub export_mime_type : String

one_of : String → List String → Bool
one_of ext = any (λ e. ext == e)

abbrev word_processing : String
word_processing = "application/vnd.openxmlformats-officedocument.wordprocessingml.document"

-- `getGoogleDocMimeByExtension`
unfoldable pub mime_by_extension : FilePath → Option GoogleDocMimeInfo
unfolding one_of extension_of filename
mime_by_extension path =
    let ext = extension_of (filename path) in
    if one_of ext (".docx" ∷ ".doc" ∷ ".odt" ∷ ".rtf" ∷ ".txt" ∷ [])
    then some (record {
      cloud_mime_type = "application/vnd.google-apps.document";
      export_mime_type = word_processing;
    })
    else if one_of ext (".xlsx" ∷ ".xls" ∷ ".ods" ∷ ".csv" ∷ ".tsv" ∷ [])
    then some (record {
      cloud_mime_type = "application/vnd.google-apps.spreadsheet";
      export_mime_type = "application/vnd.openxmlformats-officedocument.spreadsheetml.sheet";
    })
    else if one_of ext (".pptx" ∷ ".ppt" ∷ ".odp" ∷ [])
    then some (record {
      cloud_mime_type = "application/vnd.google-apps.presentation";
      export_mime_type =
          "application/vnd.openxmlformats-officedocument.presentationml.presentation";
    })
    else none

-- The members of `GoogleDrive` that the set-ups read.
pub record Account : Type 0 where
  pub id : ℕ
  pub api_base_url : String
  pub access_token : String
  pub home_dir_id : String
  pub local_home_path : FilePath

module _ (json : JsonValues) (escape : String → String) (opens : FilePath → Bool) (c : Codes)
    (drive : Account) where
  files_url : String → String
  files_url rest = drive.api_base_url <> ("/drive/v3/files/" <> rest)

  -- `parent_id` of `setupUploadHandle`.
  unfoldable pub upload_parent : FileRecordDto → Method String
  unfolding is_empty parent_path get_cloud_file_id_by_path
  upload_parent dto =
      if dto.cloud_parent_id == ""
      then (if is_empty (parent_path dto.rel_path)
          then return drive.home_dir_id
          else get_cloud_file_id_by_path c c (parent_path dto.rel_path) drive.id)
      else return dto.cloud_parent_id

  -- The types of the upload: the one for the drive, if any, and the one of the content.
  unfoldable pub upload_mime : FileRecordDto → Option GoogleDocMimeInfo
  unfolding mime_by_extension
  upload_mime dto = if dto.type == EntryType.document then mime_by_extension dto.rel_path else none

  metadata : FileRecordDto → String → Option GoogleDocMimeInfo → String
  unfolding filename
  metadata dto parent_id mime = json.dump (
      json.object (
        ("name", json.string (filename dto.rel_path))
        ∷ ("parents", json.array (json.string parent_id ∷ []))
        ∷ elim mime [ none ↦ [] | some m ↦ ("mimeType", json.string m.cloud_mime_type) ∷ [] ]))

  content_mime : Option GoogleDocMimeInfo → String
  content_mime none = "application/octet-stream"
  content_mime (some m) = m.export_mime_type

  -- `setupUploadHandle`
  unfoldable pub setup_upload : FileRecordDto → SetUp
  unfolding upload_parent upload_mime metadata content_mime join
  setup_upload dto = do
    parent_id ← λ s. (let (r, db) = upload_parent dto s.db in (r, record s { db = db }))
    expect (path_text dto.rel_path) ChangeType.created
    return (record {
      url =
          drive.api_base_url
          <> "/upload/drive/v3/files?uploadType=multipart&fields=id,modifiedTime,md5Checksum,parents";
      verb = post;
      headers = bearer drive.access_token ∷ [];
      body =
          mime_post (metadata dto parent_id (upload_mime dto))
            (join drive.local_home_path dto.rel_path) (content_mime (upload_mime dto));
      saved_to = none;
    })

  -- `setupUpdateHandle`
  unfoldable pub setup_update : FileUpdatedDto → SetUp
  unfolding join
  setup_update dto = do
    open_stream opens (join drive.local_home_path dto.rel_path)
    expect dto.cloud_file_id ChangeType.updated
    return (record {
      url =
          drive.api_base_url
          <> ("/upload/drive/v3/files/"
              <> (dto.cloud_file_id
                  <> "?uploadType=media&fields=id,modifiedTime,md5Checksum,parents,size"));
      verb = patch;
      headers = bearer drive.access_token ∷ "Content-Type: application/octet-stream" ∷ [];
      body = file_stream (join drive.local_home_path dto.rel_path);
      saved_to = none;
    })

  -- `parent_changed` of `setupMoveHandle`.
  unfoldable pub parent_changed : FileMovedDto → Bool
  parent_changed dto =
      not (dto.new_cloud_parent_id == "")
      && not (dto.new_cloud_parent_id == dto.old_cloud_parent_id)

  move_query : FileMovedDto → String
  unfolding parent_changed
  move_query dto =
      if parent_changed dto
      then "?addParents="
        <> (dto.new_cloud_parent_id <> ("&removeParents=" <> (dto.old_cloud_parent_id <> "&")))
      else "?"

  -- `setupMoveHandle`: a body only where the name changes.
  unfoldable pub setup_move : FileMovedDto → SetUp
  unfolding move_query files_url filename
  setup_move dto = do
    expect dto.cloud_file_id ChangeType.moved
    let new_name = filename dto.new_rel_path
    let renamed = not (filename dto.old_rel_path == new_name)
    return (record {
      url = files_url (
          dto.cloud_file_id
          <> (move_query dto <> "fields=id,name,parents,modifiedTime,md5Checksum,size"));
      verb = patch;
      headers =
          (if renamed
            then "Content-Type: application/json" ∷ bearer drive.access_token ∷ []
            else bearer drive.access_token ∷ []);
      body =
          (if renamed
            then post_fields (json.dump (json.object (("name", json.string new_name) ∷ [])))
            else no_body);
      saved_to = none;
    })

  -- `setupDeleteHandle`
  unfoldable pub setup_delete : FileDeletedDto → SetUp
  unfolding files_url
  setup_delete dto = do
    expect dto.cloud_file_id ChangeType.deleted
    return (record {
      url = files_url dto.cloud_file_id;
      verb = patch;
      headers = "Content-Type: application/json" ∷ bearer drive.access_token ∷ [];
      body = post_fields (json.dump (json.object (("trashed", json.boolean true) ∷ [])));
      saved_to = none;
    })

  -- The address that the content of a file is read from.
  unfoldable pub download_url : EntryType → FilePath → String → String
  unfolding mime_by_extension files_url
  download_url type rel_path cloud_file_id =
      if type == EntryType.document
      then files_url (
          cloud_file_id
          <> ("/export?mimeType="
              <> escape (elim (mime_by_extension rel_path) [
                | none ↦ word_processing
                | some m ↦ m.export_mime_type
              ])))
      else files_url (cloud_file_id <> "?alt=media")

  -- Both `setupDownloadHandle`.
  unfoldable pub setup_download : EntryType → FilePath → String → SetUp
  unfolding download_url tmp_path
  setup_download type rel_path cloud_file_id = do
    open_stream opens (tmp_path drive.local_home_path rel_path)
    return (record {
      url = download_url type rel_path cloud_file_id;
      verb = get;
      headers = bearer drive.access_token ∷ [];
      body = no_body;
      saved_to = some (tmp_path drive.local_home_path rel_path);
    })

  -- The set-up that `execute` of a command calls.
  unfoldable pub set_up : Task → SetUp
  unfolding setup_upload setup_update setup_move setup_delete setup_download
  set_up (uploads dto) = setup_upload dto
  set_up (downloads_new dto) = setup_download dto.type dto.rel_path dto.cloud_file_id
  set_up (updates dto) = setup_update dto
  set_up (downloads_update dto) = setup_download dto.type dto.rel_path dto.cloud_file_id
  set_up (moves dto) = setup_move dto
  set_up (deletes dto) = setup_delete dto
