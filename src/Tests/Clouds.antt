-- ===== src/Tests/Clouds.antt =====
-- Runs of the two cloud drives on JSON values in memory and a service that follows a script.
use sync_harbor.Base.{◌≡◌, refl, true, false, none, [], ◌∷◌, nat_eq, string_eq, list_eq, find}
use sync_harbor.Base.Dict.{lookup, insert, emplace}
use sync_harbor.Utils.Kinds.{EntryType, entry_type_eq, ChangeType, change_type_eq}
use sync_harbor.Utils.FilePath.{path_eq, relative, empty_path, is_empty, join, filename}
use sync_harbor.Utils.Texts.{path_text, path_of_text}
use sync_harbor.Utils.Dto.{FileRecordDto, FileDeletedDto}
use sync_harbor.Database.Connection.{ok, query, ◌>>◌}
use sync_harbor.Database.Read.{get_file_by_cloud_file_id}
use sync_harbor.Database.Write.{delete_file_and_links}
use sync_harbor.Database.Calls.{idle}
use sync_harbor.Changes.Factory.{make_cloud_new}
use sync_harbor.Registry.{add}
use sync_harbor.Clouds.Request.{Request, Side, patch, post, post_fields, mime_post, deletes}
use sync_harbor.Clouds.Sweep.{Sweep, alone}
use sync_harbor.Clouds.Sweep.Laws.{IsPassedOver}
use sync_harbor.Clouds.Authorized.{
  google_drive, carries, token_of, cloud_set_up, requests_are_authorised,
}
use sync_harbor.Clouds.Drive.Entry.{Entry}
use sync_harbor.Clouds.Drive.Requests.{
  Account, setup_delete, setup_upload, upload_parent, upload_mime, set_up,
}
use sync_harbor.Clouds.Drive.Changes.{
  Folders, Home, new_rel_path, path_in_batch, new_dto, process_entry,
}
use sync_harbor.Clouds.Drive.Courses.{appeared}
use sync_harbor.Clouds.Drive.Echo.{drive_upload_echo, drive_deletion_echo}
use sync_harbor.Clouds.Drive.Orphans.{orphan_is_misplaced}
use sync_harbor.Tests.Data.{fine, stored, photo, notes}
use sync_harbor.Tests.Web.{trees}

abbrev pub account : Account
account = record {
  id = 1;
  api_base_url = "https://www.googleapis.com";
  access_token = "token";
  home_dir_id = "root-1";
  local_home_path = relative ("home" ∷ []);
}

abbrev drive_home : Home
drive_home = record { id = 1; home_dir_id = "root-1" }

abbrev pub side : Side
side = record { db = idle stored; expected_events = [] }

abbrev notes_delete : FileDeletedDto
notes_delete = record {
  rel_path = notes;
  cloud_file_id = "g-1";
  when = 5000;
  global_id = 1;
  cloud_id = 1;
}

abbrev delete_request : Request
delete_request = record {
  url = "https://www.googleapis.com/drive/v3/files/g-1";
  verb = patch;
  headers = "Content-Type: application/json" ∷ "Authorization: Bearer token" ∷ [];
  body = post_fields "{}";
  saved_to = none;
}

requests_are_authorised_example :
    carries "Authorization: Bearer token" delete_request.headers ≡ true
unfolding cloud_set_up set_up setup_delete token_of
requests_are_authorised_example =
    requests_are_authorised (trees []) (λ s. s) (λ p. true) fine (google_drive account)
      (deletes notes_delete) side delete_request refl

abbrev trashed_notes : Entry
trashed_notes = record {
  trashed = true;
  type = EntryType.file;
  cloud_file_id = "g-1";
  mod_time = 5000;
  size = 0;
  name = "notes.txt";
  parent_id = "g-0";
  hash = "c0ffee";
}

abbrev sweep : Sweep Folders
sweep = record {
  db = idle stored;
  old_expected = add "g-1" ChangeType.deleted [];
  memory = [];
  changes = [];
}

-- The notes are deleted here, and the drive is asked to delete them.
abbrev after_deletion : Sweep Folders
after_deletion = record sweep { db = (delete_file_and_links fine 1 (idle stored)).1 }

drive_deletion_echo_example :
    process_entry fine drive_home (1 ∷ 2 ∷ []) trashed_notes after_deletion
    ≡ (ok tt, after_deletion)
unfolding string_eq nat_eq
drive_deletion_echo_example =
    drive_deletion_echo fine fine drive_home (1 ∷ 2 ∷ []) 1 stored trashed_notes after_deletion refl
      refl (refl, tt) refl refl

-- A new folder in a folder that is not in the batch, and a file in it.
abbrev album : Entry
album = record trashed_notes {
  trashed = false;
  type = EntryType.directory;
  cloud_file_id = "g-20";
  name = "album";
  parent_id = "g-19";
}

abbrev picture : Entry
picture = record trashed_notes {
  trashed = false;
  cloud_file_id = "g-21";
  name = "picture.png";
  parent_id = "g-20";
}

orphan_is_misplaced_example :
    (process_entry fine drive_home (1 ∷ 2 ∷ []) album
        >> process_entry fine drive_home (1 ∷ 2 ∷ []) picture)
      sweep
    ≡ (
      ok tt,
      record sweep {
        memory = ("g-20", empty_path) ∷ [];
        changes =
            alone (
              make_cloud_new
                (1 ∷ 2 ∷ [])
                (new_dto fine drive_home picture (appeared (relative ("picture.png" ∷ [])))))
            ∷ [];
      },
    )
unfolding get_file_by_cloud_file_id query find nat_eq string_eq list_eq path_eq is_empty lookup
    insert add emplace join path_of_text path_text entry_type_eq
orphan_is_misplaced_example =
    orphan_is_misplaced fine drive_home (1 ∷ 2 ∷ []) album picture sweep
      (record { there = refl; unknown = refl; fatherless = refl; below = refl }) refl refl
      (record { there = refl; unknown = refl; fatherless = refl; below = refl }) refl refl refl refl

abbrev upload_dto : FileRecordDto
upload_dto = record photo { cloud_parent_id = "root-1" }

abbrev uploaded : Entry
uploaded = record trashed_notes {
  trashed = false;
  cloud_file_id = "g-7";
  name = "photo.png";
  parent_id = "root-1";
}

abbrev upload_request : Request
upload_request = record {
  url =
      "https://www.googleapis.com/upload/drive/v3/files?uploadType=multipart&fields=id,modifiedTime,md5Checksum,parents";
  verb = post;
  headers = "Authorization: Bearer token" ∷ [];
  body = mime_post "{}" (relative ("home" ∷ "photo.png" ∷ [])) "application/octet-stream";
  saved_to = none;
}

abbrev upload_sweep : Sweep Folders
upload_sweep = record sweep { old_expected = ("photo.png", ChangeType.created) ∷ [] }

drive_upload_echo_example :
    IsPassedOver [] upload_sweep (process_entry fine drive_home (1 ∷ 2 ∷ []) uploaded upload_sweep)
unfolding set_up setup_upload upload_parent upload_mime add emplace path_text path_of_text
    get_file_by_cloud_file_id query find nat_eq string_eq list_eq path_eq is_empty lookup
    entry_type_eq new_rel_path path_in_batch join filename
drive_upload_echo_example =
    drive_upload_echo (trees []) (λ s. s) (λ p. true) fine account drive_home (1 ∷ 2 ∷ [])
      upload_dto side upload_request uploaded none upload_sweep refl refl refl refl refl refl refl
      refl refl
