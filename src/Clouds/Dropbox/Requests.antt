-- ===== src/Clouds/Dropbox/Requests.antt =====
-- The set-ups of `Dropbox`. The paths of DTOs are relative; `opens` says which files open.
use Prim.Native.Char.{code}
use Prim.Native.String.{String}
use sync_harbor.Base.{
  ◌<>◌, Bool, true, false, ◌&&◌, none, some, [], ◌∷◌, any, ◌==◌, nat_eq, string_eq, if◌then◌else◌,
}
use sync_harbor.Utils.Kinds.{EntryType, entry_type_eq, ChangeType}
use sync_harbor.Utils.FilePath.{FilePath, join, filename}
use sync_harbor.Utils.Texts.{path_text}
use sync_harbor.Utils.Dto.{FileRecordDto, FileUpdatedDto, FileMovedDto, FileDeletedDto}
use sync_harbor.Database.Connection.{return, ◌>>◌}
use sync_harbor.Local.Names.{extension_of, tmp_path}
use sync_harbor.Clouds.Json.{JsonValues}
use sync_harbor.Clouds.Request.{
  get, post, no_body, post_fields, file_stream, SetUp, Task, uploads, downloads_new, updates,
  downloads_update, moves, deletes, expect, open_stream, bearer,
}

-- `isDropboxShortcutJsonFile`
unfoldable pub is_shortcut : FilePath → Bool
unfolding extension_of filename
is_shortcut path =
    any (λ ext. extension_of (filename path) == ext)
      (".gdoc" ∷ ".gsheet" ∷ ".gslide" ∷ ".gdraw" ∷ ".gform" ∷ ".gsite" ∷ ".jam" ∷ ".paper" ∷ [])

-- The members of `Dropbox` that the set-ups read.
pub record Account : Type 0 where
  pub access_token : String
  pub home_path : FilePath
  pub local_home_path : FilePath

-- A slash in front, unless there is one.
unfoldable pub with_slash : String → String
with_slash String.[] = "/"
with_slash (String.◌∷◌ c s) = if code c == b'/' then String.◌∷◌ c s else "/" <> String.◌∷◌ c s

module _ (json : JsonValues) (opens : FilePath → Bool) (box : Account) where
  -- Whether the entry is exported or sent as JSON.
  unfoldable pub is_json_document : EntryType → FilePath → Bool
  unfolding is_shortcut
  is_json_document type rel_path = type == EntryType.document && is_shortcut rel_path

  content_type : EntryType → FilePath → String
  unfolding is_json_document
  content_type type rel_path =
      if is_json_document type rel_path
      then "Content-Type: application/json"
      else "Content-Type: application/octet-stream"

  -- The file that `setupUploadHandle` writes in the cloud.
  unfoldable pub upload_target : FilePath → String
  unfolding path_text
  upload_target rel_path = path_text box.home_path <> ("/" <> path_text rel_path)

  -- The file that `setupUpdateHandle` writes in the cloud.
  unfoldable pub update_target : FilePath → String
  unfolding path_text
  update_target rel_path = "/" <> path_text rel_path

  overwrite : String → String
  overwrite target = json.dump (
      json.object (
        ("path", json.string target)
        ∷ ("mode", json.string "overwrite")
        ∷ ("mute", json.boolean true)
        ∷ ("strict_conflict", json.boolean false)
        ∷ []))

  -- `setupUploadHandle`
  unfoldable pub setup_upload : FileRecordDto → SetUp
  unfolding upload_target overwrite content_type join
  setup_upload dto = do
    open_stream opens (join box.local_home_path dto.rel_path)
    expect (path_text dto.rel_path) ChangeType.created
    return (record {
      url = "https://content.dropboxapi.com/2/files/upload";
      verb = post;
      headers =
          bearer box.access_token
          ∷ ("Dropbox-API-Arg: " <> overwrite (upload_target dto.rel_path))
          ∷ content_type dto.type dto.rel_path
          ∷ [];
      body = file_stream (join box.local_home_path dto.rel_path);
      saved_to = none;
    })

  -- `setupUpdateHandle`
  unfoldable pub setup_update : FileUpdatedDto → SetUp
  unfolding update_target overwrite content_type join
  setup_update dto = do
    open_stream opens (join box.local_home_path dto.rel_path)
    expect dto.cloud_file_id ChangeType.updated
    return (record {
      url = "https://content.dropboxapi.com/2/files/upload";
      verb = post;
      headers =
          content_type dto.type dto.rel_path
          ∷ bearer box.access_token
          ∷ ("Dropbox-API-Arg: " <> overwrite (update_target dto.rel_path))
          ∷ [];
      body = file_stream (join box.local_home_path dto.rel_path);
      saved_to = none;
    })

  -- Both `setupDownloadHandle`.
  unfoldable pub setup_download : EntryType → FilePath → SetUp
  unfolding is_json_document tmp_path path_text join
  setup_download type rel_path = do
    open_stream opens (tmp_path box.local_home_path rel_path)
    return (record {
      url =
          (if is_json_document type rel_path
            then "https://content.dropboxapi.com/2/files/export"
            else "https://content.dropboxapi.com/2/files/download");
      verb = get;
      headers =
          bearer box.access_token
          ∷ ("Dropbox-API-Arg: {\"path\": \"" <> (path_text (join box.home_path rel_path) <> "\"}"))
          ∷ [];
      body = no_body;
      saved_to = some (tmp_path box.local_home_path rel_path);
    })

  -- `makeRemote`
  unfoldable pub remote_path : FilePath → String
  unfolding with_slash path_text join
  remote_path rel_path = with_slash (path_text (join box.home_path rel_path))

  -- `setupMoveHandle`, which expects two events.
  unfoldable pub setup_move : FileMovedDto → SetUp
  unfolding remote_path
  setup_move dto = do
    expect (path_text dto.old_rel_path) ChangeType.deleted
    expect dto.cloud_file_id ChangeType.moved
    return (record {
      url = "https://api.dropboxapi.com/2/files/move_v2";
      verb = post;
      headers = bearer box.access_token ∷ "Content-Type: application/json" ∷ [];
      body = post_fields (
          json.dump (
            json.object (
              ("from_path", json.string (remote_path dto.old_rel_path))
              ∷ ("to_path", json.string (remote_path dto.new_rel_path))
              ∷ ("allow_shared_folder", json.boolean true)
              ∷ ("autorename", json.boolean false)
              ∷ ("allow_ownership_transfer", json.boolean false)
              ∷ [])));
      saved_to = none;
    })

  -- `setupDeleteHandle`
  unfoldable pub setup_delete : FileDeletedDto → SetUp
  unfolding remote_path
  setup_delete dto = do
    expect (path_text dto.rel_path) ChangeType.deleted
    return (record {
      url = "https://api.dropboxapi.com/2/files/delete_v2";
      verb = post;
      headers = bearer box.access_token ∷ "Content-Type: application/json" ∷ [];
      body =
          post_fields
            (json.dump (json.object (("path", json.string (remote_path dto.rel_path)) ∷ [])));
      saved_to = none;
    })

  -- The set-up that `execute` of a command calls.
  unfoldable pub set_up : Task → SetUp
  unfolding setup_upload setup_update setup_move setup_delete setup_download
  set_up (uploads dto) = setup_upload dto
  set_up (downloads_new dto) = setup_download dto.type dto.rel_path
  set_up (updates dto) = setup_update dto
  set_up (downloads_update dto) = setup_download dto.type dto.rel_path
  set_up (moves dto) = setup_move dto
  set_up (deletes dto) = setup_delete dto
