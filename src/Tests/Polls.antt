-- ===== src/Tests/Polls.antt =====
-- Polls and listings of the two cloud drives, on JSON values in memory and a service with a script.
use sync_harbor.Base.{
  String, ◌≡◌, refl, true, false, List, [], ◌∷◌, nat_eq, string_eq, list_eq, find,
}
use sync_harbor.Base.Dict.{Dict, lookup}
use sync_harbor.Utils.Kinds.{EntryType, entry_type_eq}
use sync_harbor.Utils.FilePath.{
  path_eq, lexically_relative, FilePath, relative, normalize_path, is_empty, join,
}
use sync_harbor.Utils.Texts.{convert_cloud_time, without_zone, before_dot, path_of_text}
use sync_harbor.Utils.Dto.{FileRecordDto, drive_new_record, cloud_new_record, cloud_deleted}
use sync_harbor.Local.Paths.{take}
use sync_harbor.Database.Connection.{Result, ok, err, type_failed, parse_failed}
use sync_harbor.Database.Read.{get_file_by_cloud_file_id}
use sync_harbor.Database.Calls.{idle}
use sync_harbor.Changes.Factory.{make_cloud_new, make_delete}
use sync_harbor.Queue.{empty_queue, try_pop}
use sync_harbor.Clouds.Json.{
  JsonValues, parsed, has_member, index, first, get_text, value_flag, value_text,
}
use sync_harbor.Clouds.Service.{Online, sync_request}
use sync_harbor.Clouds.Drive.Entry.{type_of_mime}
use sync_harbor.Clouds.Drive.Folders.{
  read_folder, first_found, search_request, folder_request, create_folder, create_folders,
  find_folder, find_folders, start_parent, create_path,
}
use sync_harbor.Clouds.Drive.Folders.Chain.{IsPathFrom, create_path-IsPath}
use sync_harbor.Clouds.Drive.Listing.{
  read_size, read_file, read_files, folders_of, read_page, scan, initial_files,
}
use sync_harbor.Clouds.Drive.Listing.Tree.{IsTree, initial_files-IsTree}
use sync_harbor.Clouds.Drive.Feed as DriveFeed
use sync_harbor.Clouds.Drive.Feed.Paged.{second_page_is_never_asked}
use sync_harbor.Clouds.Dropbox.Requests as BoxRequests
use sync_harbor.Clouds.Sweep.{Report, alone}
use sync_harbor.Clouds.Dropbox.Entry.{read_entry, read_content}
use sync_harbor.Clouds.Dropbox.Changes as BoxChanges
use sync_harbor.Clouds.Dropbox.Ordering.Batch.{HasDeletionsLast, deletions_stand_last}
use sync_harbor.Clouds.Dropbox.Folders as BoxFolders
use sync_harbor.Clouds.Dropbox.Folders.Chain.{IsMade, create_path-IsMade}
use sync_harbor.Clouds.Dropbox.Feed as BoxFeed
use sync_harbor.Clouds.Dropbox.Feed.Paged.{second_page_is_not_parsed}
use sync_harbor.Tests.Data.{fine, stored, notes, notes_row, notes_link}
use sync_harbor.Database.Tables.{Tables}
use sync_harbor.Database.Read.{get_cloud_file_id_by_path}
use sync_harbor.Tests.Clouds.{account, side}
use sync_harbor.Tests.Web.{
  Tree, words, truth, named, named_of, several, no_trees, tree, trees, at_once, scripted,
}

-- A page with a token for the next one.
abbrev full_page : Tree
full_page = named (named_of (("nextPageToken", words "t-2") ∷ ("changes", several no_trees) ∷ []))

abbrev drive_texts : Dict String Tree
drive_texts = ("full", full_page) ∷ []

abbrev drive_feed : List String → DriveFeed.Feed (List String) Tree
drive_feed replies = record {
  online = record { world = replies; side = side };
  page_token = "t-1";
  events_buff = empty_queue;
  calls = 0;
}

second_page_is_never_asked_example :
    DriveFeed.get_changes (trees drive_texts) scripted account 2 (drive_feed ("full" ∷ "last" ∷ []))
    ≡ (err type_failed, drive_feed ("last" ∷ []))
unfolding string_eq lookup
second_page_is_never_asked_example =
    second_page_is_never_asked (trees drive_texts) scripted account 1
      (drive_feed ("full" ∷ "last" ∷ [])) (at_once "full") ("last" ∷ []) full_page refl refl refl
      (record {
        is_object = refl;
        next_page = words "t-2";
        next = refl;
        no_start = refl;
        no_other = refl;
      })
      refl

abbrev box_account : BoxRequests.Account
box_account = record {
  access_token = "token";
  home_path = record { rooted = true; names = "Sync" ∷ [] };
  local_home_path = relative ("home" ∷ []);
}

abbrev first_page : Tree
first_page = named (named_of (("has_more", truth true) ∷ ("cursor", words "c-2") ∷ []))

abbrev box_feed : List String → BoxFeed.Feed (List String)
box_feed replies = record {
  online = record { world = replies; side = side };
  page_token = "c-1";
  events_buff = empty_queue;
  calls = 0;
}

second_page_is_not_parsed_example :
    BoxFeed.get_changes
      (trees (("first", first_page) ∷ []))
      scripted
      box_account
      2
      (box_feed ("first" ∷ "second" ∷ []))
    ≡ (err parse_failed, box_feed [])
unfolding string_eq lookup value_flag value_text
second_page_is_not_parsed_example =
    second_page_is_not_parsed (trees (("first", first_page) ∷ [])) scripted box_account 0
      (box_feed ("first" ∷ "second" ∷ [])) (at_once "first") (at_once "second") "c-2"
      ("second" ∷ []) [] refl refl
      (record { page = first_page; parses = refl; has_more = refl; goes_on = refl }) refl refl refl

-- The album is not found and is made.
abbrev made_page : Tree
made_page =
    named (named_of (("id", words "g-20") ∷ ("modifiedTime", words "2024-05-01T10:00:00Z") ∷ []))

abbrev album : FilePath
album = relative ("album" ∷ [])

abbrev chain_json : JsonValues
chain_json =
    trees
      (("found", named (named_of (("files", several no_trees) ∷ []))) ∷ ("made", made_page) ∷ [])

abbrev online : List String → Online (List String)
online replies = record { world = replies; side = side }

-- The database has the directory of the notes, with its id in the cloud.
abbrev with_work : Tables
with_work = record stored {
  files =
      record notes_row { global_id = 2; type = "Directory"; path = relative ("work" ∷ []) }
      ∷ stored.files;
  file_links = record notes_link { global_id = 2; cloud_file_id = "g-0" } ∷ stored.file_links;
}

abbrev at_work : List String → Online (List String)
at_work replies = record { world = replies; side = record side { db = idle with_work } }

abbrev work_album : FilePath
work_album = relative ("work" ∷ "album" ∷ [])

abbrev work_album_record : FileRecordDto
work_album_record = drive_new_record EntryType.directory "g-0" work_album "g-20" 0 7 "" 1

create_path-IsPath_example :
    IsPathFrom chain_json
      (λ s. 7)
      (λ s. s)
      scripted
      account
      fine
      work_album
      album
      (at_work ("found" ∷ "made" ∷ []))
      (work_album_record ∷ [])
unfolding create_path start_parent find_folders find_folder create_folders create_folder
    search_request folder_request sync_request parsed first_found read_folder has_member index
    get_text convert_cloud_time without_zone before_dot drive_new_record normalize_path take
    is_empty list_eq lookup string_eq first get_cloud_file_id_by_path find path_eq nat_eq
create_path-IsPath_example =
    create_path-IsPath chain_json (λ s. 7) (λ s. s) scripted account fine work_album album
      (at_work ("found" ∷ "made" ∷ [])) (work_album_record ∷ []) refl

abbrev album_record : FileRecordDto
album_record = drive_new_record EntryType.directory "root-1" album "g-20" 0 7 "" 1

-- The home directory has an album, which is empty.
abbrev listed_album : Tree
listed_album = named (
    named_of (
      ("mimeType", words "application/vnd.google-apps.folder")
      ∷ ("id", words "g-20")
      ∷ ("name", words "album")
      ∷ ("modifiedTime", words "2024-05-01T10:00:00Z")
      ∷ []))

abbrev listing_json : JsonValues
listing_json = trees (
    ("home", named (named_of (("files", several (tree listed_album no_trees)) ∷ [])))
    ∷ ("album", named (named_of (("files", several no_trees) ∷ [])))
    ∷ [])

initial_files-IsTree_example : IsTree "root-1" (album_record ∷ [])
unfolding initial_files scan read_page read_files read_file read_size folders_of type_of_mime
    sync_request parsed has_member index get_text value_text convert_cloud_time without_zone
    before_dot drive_new_record list_eq lookup string_eq entry_type_eq path_of_text join nat_eq
initial_files-IsTree_example =
    initial_files-IsTree listing_json (λ s. 7) (λ s. ok 0) account scripted 2
      (online ("home" ∷ "album" ∷ [])) (record { complete = true; result = album_record ∷ [] }) refl

-- The notes are gone, and a list is new.
abbrev gone_notes : Tree
gone_notes =
    named
      (named_of ((".tag", words "deleted") ∷ ("path_display", words "/Sync/work/notes.txt") ∷ []))

abbrev new_list : Tree
new_list = named (
    named_of (
      (".tag", words "file")
      ∷ ("id", words "id:5")
      ∷ ("path_display", words "/Sync/list.txt")
      ∷ []))

abbrev box_json : JsonValues
box_json = trees (
    (
      "page",
      named (named_of (("entries", several (tree gone_notes (tree new_list no_trees))) ∷ [])),
    )
    ∷ [])

abbrev box : BoxChanges.Dropbox
box = record {
  home = record { id = 1; home_path = record { rooted = true; names = "Sync" ∷ [] } };
  events_buff = record { items = ("page" ∷ []) ∷ []; closed = false };
  expected_events = [];
  db = idle stored;
}

abbrev box_reports : List Report
box_reports =
    alone (
      make_cloud_new (1 ∷ 2 ∷ [])
        (cloud_new_record EntryType.file (relative ("list.txt" ∷ [])) "id:5" 0 7 "" 1))
    ∷ alone (make_delete (1 ∷ 2 ∷ []) (cloud_deleted notes 1 1 "g-1" 0))
    ∷ []

deletions_stand_last_example : HasDeletionsLast box_reports
unfolding BoxChanges.process_changes BoxChanges.take_batch BoxChanges.process_batch try_pop
    BoxChanges.swept BoxChanges.process_pages BoxChanges.read_page BoxChanges.entries_of
    BoxChanges.process_entries BoxChanges.process_entry BoxChanges.locate BoxChanges.consider
    BoxChanges.consider_link BoxChanges.report_link BoxChanges.is_updated BoxChanges.known_id
    BoxChanges.link_path BoxChanges.pending_reports BoxChanges.new_dto BoxChanges.deleted_entry
    BoxChanges.note_deletion read_entry read_content lookup string_eq nat_eq find
    get_file_by_cloud_file_id entry_type_eq
deletions_stand_last_example =
    deletions_stand_last box_json (λ s. 7) fine (1 ∷ 2 ∷ []) box box_reports refl

-- The cloud has the album already.
abbrev conflict : Tree
conflict = named (named_of (("error_summary", words "path/conflict/folder/..") ∷ []))

abbrev album_there : JsonValues
album_there =
    trees (("conflict", conflict) ∷ ("there", named (named_of (("id", words "id:9") ∷ []))) ∷ [])

abbrev to_home : FilePath → Result FilePath
to_home p = ok (lexically_relative p box_account.home_path)

abbrev box_album : FileRecordDto
box_album = cloud_new_record EntryType.directory album "id:9" 0 0 "" 2

create_path-IsMade_example :
    IsMade album_there to_home scripted 2 box_account
      (record { rooted = true; names = "Sync" ∷ [] })
      ("album" ∷ [])
      (box_album ∷ [])
unfolding BoxFolders.create_path BoxFolders.create_folders lookup string_eq lexically_relative
    nat_eq list_eq
create_path-IsMade_example =
    create_path-IsMade album_there to_home scripted 2 box_account album album
      (online ("conflict" ∷ "there" ∷ [])) (box_album ∷ []) refl
