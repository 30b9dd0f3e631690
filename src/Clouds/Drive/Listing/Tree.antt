-- ===== src/Clouds/Drive/Listing/Tree.antt =====
-- Where the files that `initialFiles` lists lie.
use mathlib.Core.List.{Memᴰ}
use mathlib.Core.List.Memᴰ
use sync_harbor.Base.{
  ℕ, zero, suc, ◌≡◌, refl, true, Bool-cases, inl, inr, String, List, [], ◌∷◌, ◌++◌, All, All-append,
  All-mono, ◌==◌, string_eq, if◌then◌else◌,
}
use sync_harbor.Utils.Kinds.{EntryType, entry_type_eq}
use sync_harbor.Utils.FilePath.{empty_path}
use sync_harbor.Utils.Dto.{FileRecordDto, drive_new_record}
use sync_harbor.Database.Connection.{Result, ok, ◌>>=◌}
use sync_harbor.Clouds.Json.{JsonValues, ◌then_read◌, parsed, index, get_text, value_text}
use sync_harbor.Clouds.Json.Gives.{
  Gives, Anything, anything, Gives-then, reads_then, Gives-bind, given_ok,
}
use sync_harbor.Clouds.Service.{Service, Online, Asking, sync_request, reading}
use sync_harbor.Clouds.Drive.Entry.{type_of_mime}
use sync_harbor.Clouds.Drive.Requests.{Account}
use sync_harbor.Clouds.Drive.Changes.{under}
use sync_harbor.Clouds.Drive.Listing.{
  Waiting, Page, Scan, read_size, read_file, read_files, folders_of, read_page, page_request, scan,
  initial_files,
}

-- The record lies directly in the folder.
pub record LiesIn (dir : Waiting) (dto : FileRecordDto) : Type 0 where
  pub parent : dto.cloud_parent_id ≡ dir.id
  pub name : String
  pub path : dto.rel_path ≡ under dir.rel_path name

module _ (home_id : String) where
  -- The home directory, or a directory among those found.
  pub data IsFolder (found : List FileRecordDto) : Waiting → Type 0 where
    is_home : IsFolder found (record { id = home_id; rel_path = empty_path })
    is_found :
        {dto : FileRecordDto}
        → Memᴰ dto found
        → (dto.type == EntryType.directory) ≡ true
        → IsFolder found (record { id = dto.cloud_file_id; rel_path = dto.rel_path })

  -- Page by page, each of the records of one lies directly in the home directory, or in a directory
  -- that a page before has.
  pub data IsTree : List FileRecordDto → Type 0 where
    nothing : IsTree []
    lists :
        {found : List FileRecordDto} {dir : Waiting} (records : List FileRecordDto)
        → IsTree found
        → IsFolder found dir
        → All (LiesIn dir) records
        → IsTree (found ++ records)

  IsFolder-more :
      (found records : List FileRecordDto) (dir : Waiting)
      → IsFolder found dir
      → IsFolder (found ++ records) dir
  IsFolder-more found records _ is_home = is_home
  IsFolder-more found records _ (is_found m d) = is_found (Memᴰ.append_left records m) d

module _ (json : JsonValues) (calendar : String → ℕ) (stoull : String → Result ℕ)
    (drive : Account) where
  folders_of-IsFolder :
      (found records : List FileRecordDto)
      → ((dto : FileRecordDto) → Memᴰ dto records → Memᴰ dto found)
      → All (IsFolder drive.home_dir_id found) (folders_of json calendar stoull drive records)
  unfolding folders_of
  folders_of-IsFolder found [] h = tt
  folders_of-IsFolder found (dto ∷ dtos) h =
      let rest = folders_of-IsFolder found dtos (λ d m. h d (Memᴰ.tail m)) in
      elim (Bool-cases (dto.type == EntryType.directory)) [
        | inl e ↦ rw e (is_found (h dto (Memᴰ.head refl)) e, rest)
        | inr e ↦ rw e rest
      ]

  read_file-LiesIn :
      (dir : Waiting) (f : json.Json)
      → Gives (LiesIn dir) (read_file json calendar stoull drive dir f)
  unfolding read_file drive_new_record
  read_file-LiesIn dir f =
      reads_then (LiesIn dir) (index json f "mimeType" then_read get_text json) _ λ mime.
        reads_then (LiesIn dir) (index json f "id" then_read get_text json) _ λ id.
          reads_then (LiesIn dir) (index json f "name" then_read get_text json) _ λ name.
            reads_then (LiesIn dir) (read_size json calendar stoull drive (type_of_mime mime) f) _
              λ size.
                reads_then (LiesIn dir) (index json f "modifiedTime" then_read get_text json) _
                  λ modified.
                    reads_then (LiesIn dir) (value_text json f "md5Checksum" "") _
                      λ hash. record { parent = refl; name = name; path = refl }

  read_files-LiesIn :
      (dir : Waiting) (fs : List json.Json)
      → Gives (All (LiesIn dir)) (read_files json calendar stoull drive dir fs)
  unfolding read_files
  read_files-LiesIn dir [] = tt
  read_files-LiesIn dir (f ∷ fs) =
      Gives-then (LiesIn dir) (All (LiesIn dir)) _ _ (read_file-LiesIn dir f) λ dto h.
        Gives-then (All (LiesIn dir)) (All (LiesIn dir)) _ _ (read_files-LiesIn dir fs)
          λ others k. (h, k)

  -- The records of a page lie in the folder, and what is queued are the folders among them.
  pub record IsPageOf (dir : Waiting) (page : Page) : Type 0 where
    pub records_lie : All (LiesIn dir) page.records
    pub folders_queued : page.folders ≡ folders_of json calendar stoull drive page.records

  read_page-IsPageOf :
      (dir : Waiting) (response : String)
      → Gives (IsPageOf dir) (read_page json calendar stoull drive dir response)
  unfolding read_page
  read_page-IsPageOf dir response = reads_then (IsPageOf dir) (parsed json response) _ λ rsp.
      reads_then (IsPageOf dir) (index json rsp "files") _ λ files.
        Gives-then (All (LiesIn dir)) (IsPageOf dir) _ _
          (read_files-LiesIn dir (json.elements files))
          λ records h.
            reads_then (IsPageOf dir) (value_text json rsp "nextPageToken" "") _
              λ token. record { records_lie = h; folders_queued = refl }

  module _ (service : Service) where
    -- The records found so far are a tree.
    abbrev IsTreeScan : Scan → Type 0
    IsTreeScan found = IsTree drive.home_dir_id found.result

    next_folders :
        (token : String) (found : List FileRecordDto) (dir : Waiting) (queue folders : List Waiting)
        → IsFolder drive.home_dir_id found dir
        → All (IsFolder drive.home_dir_id found) (queue ++ folders)
        → All
            (IsFolder drive.home_dir_id found)
            (if token == "" then queue ++ folders else dir ∷ queue ++ folders)
    next_folders token found dir queue folders d h = elim (Bool-cases (token == "")) [
      | inl e ↦ rw e h
      | inr e ↦ rw e (d, h)
    ]

    page-IsFolder :
        (found : List FileRecordDto) (dir : Waiting) (queue : List Waiting) (page : Page)
        → All (IsFolder drive.home_dir_id found) queue
        → IsPageOf dir page
        → All (IsFolder drive.home_dir_id (found ++ page.records)) (queue ++ page.folders)
    page-IsFolder found dir queue page h p =
        All-append (IsFolder drive.home_dir_id (found ++ page.records)) queue page.folders
          (All-mono _ _ queue (IsFolder-more drive.home_dir_id found page.records) h)
          (rw p.folders_queued (
            folders_of-IsFolder (found ++ page.records) page.records
              (λ d m. Memᴰ.append_right found m)))

    abbrev scan_behind :
        ℕ → Waiting → List Waiting → List FileRecordDto → Page → Asking service Scan
    scan_behind n dir queue found page =
        scan json calendar stoull drive service n
          (if page.next_token == "" then queue ++ page.folders else dir ∷ queue ++ page.folders)
          page.next_token (found ++ page.records)

    scan-IsTree :
        (n : ℕ) (queue : List Waiting) (token : String) (found : List FileRecordDto)
        (s : Online service.World)
        → IsTree drive.home_dir_id found
        → All (IsFolder drive.home_dir_id found) queue
        → Gives IsTreeScan (scan json calendar stoull drive service n queue token found s).0
    unfolding scan
    scan-IsTree n [] token found s t h = t
    scan-IsTree zero (dir ∷ queue) token found s t h = t
    scan-IsTree (suc n) (dir ∷ queue) token found s t h =
        Gives-bind Anything IsTreeScan
          (sync_request service (page_request json calendar stoull drive dir.id token))
          (λ response.
            reading service (read_page json calendar stoull drive dir response)
            >>= scan_behind n dir queue found)
          s (anything _)
          λ response s1 u.
            Gives-bind (IsPageOf dir) IsTreeScan
              (reading service (read_page json calendar stoull drive dir response))
              (scan_behind n dir queue found) s1 (read_page-IsPageOf dir response)
              λ page s2 p.
                scan-IsTree n _ page.next_token (found ++ page.records) s2
                  (lists page.records t h.0 p.records_lie)
                  (next_folders page.next_token (found ++ page.records) dir queue page.folders
                    (IsFolder-more drive.home_dir_id found page.records dir h.0)
                    (page-IsFolder found dir queue page h.1 p))

    -- What `initialFiles` returns, the scan complete or cut, is a tree: page by page, each record lies
    -- directly in the home directory or in a directory that a page before has, with the id of that as its
    -- parent and the path of that before its name.
    pub initial_files-IsTree :
        (n : ℕ) (s : Online service.World) (found : Scan)
        → (initial_files json calendar stoull drive service n s).0 ≡ ok found
        → IsTree drive.home_dir_id found.result
    unfolding initial_files
    initial_files-IsTree n s found = given_ok IsTreeScan _ found (
        scan-IsTree n (record { id = drive.home_dir_id; rel_path = empty_path } ∷ []) "" [] s
          nothing (is_home, tt))
