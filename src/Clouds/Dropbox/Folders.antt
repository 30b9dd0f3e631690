-- ===== src/Clouds/Dropbox/Folders.antt =====
-- `Dropbox::createPath` and `ensureRootExists`. `relative_to` is `std::filesystem::relative` to the home
-- directory, which reads the local file system and may throw.
pub mod Chain
use text.Mathlib.Text.{starts_with}
use sync_harbor.Base.{
  ℕ, ◌-◌, String, string_eq, Bool, true, false, none, List, [], ◌∷◌, length, if◌then◌else◌,
}
use sync_harbor.Utils.Kinds.{EntryType, ChangeType, change_type_eq}
use sync_harbor.Utils.FilePath.{FilePath, relative, join, append_name, normalize_path}
use sync_harbor.Utils.Texts.{path_text}
use sync_harbor.Utils.Dto.{FileRecordDto, cloud_new_record}
use sync_harbor.Database.Connection.{
  Result, ok, err, folder_refused, Stateful, return, throw, ◌>>=◌, ◌>>◌,
}
use sync_harbor.Registry.{check}
use sync_harbor.Local.Paths.{take}
use sync_harbor.Clouds.Json.{JsonValues, ◌then_read◌, parsed, has_member, index}
use sync_harbor.Clouds.Request.{post, post_fields, Request, Side, expect, bearer}
use sync_harbor.Clouds.Service.{Service, Online, Asking, sync_request, offline, reading}
use sync_harbor.Clouds.Drive.Replies.{text_at}
use sync_harbor.Clouds.Dropbox.Requests.{Account}

-- `_expected_events.check(key, New)`, whose answer is not read.
abbrev forget_created : String → Stateful Side (Unit {0})
forget_created key s =
    (ok tt, record s { expected_events = (check key ChangeType.created s.expected_events).1 })

module _ (json : JsonValues) (relative_to : FilePath → Result FilePath) (service : Service) (id : ℕ)
    (box : Account) where
  -- A request with a JSON text.
  abbrev pub json_request : String → List (String × json.Json) → Request
  json_request url members = record {
    url = url;
    verb = post;
    headers = bearer box.access_token ∷ "Content-Type: application/json" ∷ [];
    body = post_fields (json.dump (json.object members));
    saved_to = none;
  }

  unfoldable pub folder_request : FilePath → Request
  unfolding path_text
  folder_request accum =
      json_request "https://api.dropboxapi.com/2/files/create_folder_v2"
        (("path", json.string (path_text accum)) ∷ ("autorename", json.boolean false) ∷ [])

  -- `ensureRootExists`, which does not read the answer.
  unfoldable pub ensure_root_exists : Asking service (Unit {0})
  unfolding folder_request sync_request
  ensure_root_exists = sync_request service (folder_request box.home_path) >>= λ response. return tt

  unfoldable pub metadata_request : FilePath → Request
  unfolding path_text
  metadata_request accum =
      json_request "https://api.dropboxapi.com/2/files/get_metadata"
        (("path", json.string (path_text accum)) ∷ [])

  -- A folder that is there already: its id is asked for, and the event is not expected any more.
  unfoldable pub existing_folder : FilePath → String → Asking service String
  unfolding metadata_request sync_request parsed text_at path_text
  existing_folder accum summary =
      (if starts_with summary "path/conflict/folder"
        then (sync_request service (metadata_request accum) >>= λ response.
            reading service (parsed json response then_read λ md. text_at json md "id"))
        else throw folder_refused)
      >>= λ folder_id. reading service (relative_to accum) >>= λ rel_path.
          offline service (forget_created (path_text rel_path)) >> return folder_id

  -- The id of a folder that is made, or that is there.
  unfoldable pub create_folder : FilePath → Asking service String
  unfolding folder_request sync_request parsed has_member index text_at existing_folder path_text
  create_folder accum = do
    expected ← reading service (relative_to accum)
    offline service (expect (path_text expected) ChangeType.created)
    response ← sync_request service (folder_request accum)
    j ← reading service (parsed json response)
    (if has_member json j "error_summary"
        then (reading service (text_at json j "error_summary") >>= existing_folder accum)
        else reading service (index json j "metadata" then_read λ meta. text_at json meta "id"))

  -- The loop of `createPath`.
  unfoldable pub create_folders : FilePath → List String → Asking service (List FileRecordDto)
  unfolding create_folder cloud_new_record
  create_folders accum [] s = (ok [], s)
  create_folders accum (seg ∷ missing) s =
      let here = append_name accum seg in
      (create_folder here >>= λ folder_id. reading service (relative_to here) >>= λ rel_path.
      create_folders here missing >>= λ others.
      return (cloud_new_record EntryType.directory rel_path folder_id 0 0 "" id ∷ others))
        s

  -- `createPath`
  unfoldable pub create_path : FilePath → FilePath → Asking service (List FileRecordDto)
  unfolding create_folders take normalize_path join
  create_path path missing =
      let segs = (normalize_path path).names in
      let prefix = relative (take (length segs - length missing.names) segs) in
      create_folders (join box.home_path prefix) missing.names
