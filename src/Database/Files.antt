-- ===== src/Database/Files.antt =====
-- What the queries for files return after each method that changes the table `files`.
use mathlib.Core.Option
use sync_harbor.Base.{
  ℕ, suc, ◌≡◌, ◌≢◌, refl, ap, Bool, true, false, not, ◌&&◌, Option, none, some, List, [], ◌∷◌, ◌++◌,
  find, keep, amend, arith, ◌==◌, nat_eq, string_eq, if◌then◌else◌,
}
use sync_harbor.Utils.Names.{entry_type_from_string-entry_type_name}
use sync_harbor.Utils.FilePath.{path_eq}
use sync_harbor.Utils.Dto.{FileRecordDto, FileUpdatedDto, FileMovedDto, word, local_stored_record}
use sync_harbor.Database.Tables.{
  FileRow, LinkRow, Tables, IsIntact, is_global, is_path, is_link, is_link_of,
}
use sync_harbor.Database.Rows.{find-append, find-none, find-amend_key, find-below, any_above}
use sync_harbor.Database.Connection.{Codes, ok}
use sync_harbor.Database.Write.{
  hash_word, file_row, insert_file, add_file, update_file_rows, update_file, refile, move_file_rows,
  move_file, update_moved_file, delete_rows, delete_file_and_links,
}
use sync_harbor.Database.Read.{
  stored_file, get_file_by_global_id, get_global_id_by_path, get_file_by_cloud_and_global_id,
}
use sync_harbor.Database.Calls.{idle, all_ok, transaction_succeeds}

-- The codes of a query that runs.
abbrev pub reads : Codes → Bool
reads c = c.prepares && c.steps

-- What `add_file` is to store.
abbrev pub recorded : ℕ → FileRecordDto → FileRecordDto
recorded g dto =
    local_stored_record g dto.type dto.rel_path dto.size (hash_word dto.cloud_hash_check_sum)
      dto.cloud_file_modified_time dto.file_id

pub get_file_by_global_id-reads :
    (c : Codes) (k : ℕ) (t : Tables)
    → reads c ≡ true
    → get_file_by_global_id c k (idle t)
      ≡ (ok (Option.map stored_file (find (is_global k) t.files)), idle t)
unfolding get_file_by_global_id
get_file_by_global_id-reads c k t h = ground arith

pub find-add_file :
    (dto : FileRecordDto) (t : Tables) (k : ℕ)
    → IsIntact t
    → Option.map stored_file (find (is_global k) (t.files ++ (file_row t.next_global_id dto ∷ [])))
      ≡ (if k == t.next_global_id
          then some (recorded t.next_global_id dto)
          else Option.map stored_file (find (is_global k) t.files))
unfolding stored_file find
find-add_file dto t k v = ground (
  arith,
  find-append (is_global k) t.files (file_row t.next_global_id dto ∷ []),
  find-none (is_global k) t.files,
  any_above (λ (r : FileRow). r.global_id) 1 t.next_global_id k t.files v.files_ascend,
  entry_type_from_string-entry_type_name dto.type,
)

pub add_file_lem :
    (c : Codes) (dto : FileRecordDto) (t : Tables)
    → all_ok c ≡ true
    → add_file c dto (idle t) ≡ (
      ok t.next_global_id,
      idle (record t {
        files = t.files ++ (file_row t.next_global_id dto ∷ []);
        next_global_id = suc t.next_global_id;
      }),
    )
unfolding add_file
add_file_lem c dto t h = transaction_succeeds c (insert_file dto) t _ t.next_global_id h refl

-- On intact tables and where SQLite reports no error, `add_file` returns the next key, under which
-- `getFileByGlobalId` then finds the file that was given; every other key finds what it did before.
pub get_file_by_global_id-add_file :
    (c c' : Codes) (dto : FileRecordDto) (t : Tables) (k : ℕ)
    → all_ok c ≡ true
    → reads c' ≡ true
    → IsIntact t
    → let (r, s) = add_file c dto (idle t) in
      (r ≡ ok t.next_global_id)
      × ((get_file_by_global_id c' k s).0 ≡ (
          if k == t.next_global_id
          then ok (some (recorded t.next_global_id dto))
          else (get_file_by_global_id c' k (idle t)).0))
get_file_by_global_id-add_file c c' dto t k h r v = rw (add_file_lem c dto t h) (
  refl,
  rw (get_file_by_global_id-reads c' k _ r, get_file_by_global_id-reads c' k t r)
      (rw (find-add_file dto t k v) (ground arith)),
)

pub find-amend_file :
    (k g : ℕ) (f : FileRow → FileRow) (fs : List FileRow)
    → ((r : FileRow) → (f r).global_id ≡ r.global_id)
    → find (is_global k) (amend (is_global g) f fs)
      ≡ Option.map (λ r. if k == g then f r else r) (find (is_global k) fs)
find-amend_file k g f fs h = find-amend_key (λ (r : FileRow). r.global_id) k g f fs h

-- Changing a row and reading it is reading it and changing what was read.
pub map-change :
    (f : FileRow → FileRow) (g : FileRecordDto → FileRecordDto)
    → ((r : FileRow) → stored_file (f r) ≡ g (stored_file r))
    → (b : Bool) (o : Option FileRow)
    → Option.map stored_file (Option.map (λ r. if b then f r else r) o)
      ≡ Option.map (λ r. if b then g r else r) (Option.map stored_file o)
map-change f g h b none = refl
map-change f g h true (some r) = ap some (h r)
map-change f g h false (some r) = refl

update_file_lem :
    (c : Codes) (dto : FileUpdatedDto) (t : Tables)
    → all_ok c ≡ true
    → update_file c dto (idle t)
      ≡ (ok tt, idle (record t { files = amend (is_global dto.global_id) (refile dto) t.files }))
unfolding update_file
update_file_lem c dto t h = transaction_succeeds c (update_file_rows dto) t _ tt h refl

-- The record that a query returns, with what an update of its file puts in.
abbrev pub with_update : FileUpdatedDto → FileRecordDto → FileRecordDto
with_update dto r = record r {
  size = dto.size;
  cloud_hash_check_sum = word (hash_word dto.cloud_hash_check_sum);
  cloud_file_modified_time = dto.cloud_file_modified_time;
  file_id = dto.file_id;
}

-- Where SQLite reports no error, `update_file` changes the size, hash, time and file id of the file
-- with the key that it names, as `getFileByGlobalId` returns it, and of no other file.
pub get_file_by_global_id-update_file :
    (c c' : Codes) (dto : FileUpdatedDto) (t : Tables) (k : ℕ)
    → all_ok c ≡ true
    → reads c' ≡ true
    → {before : Option FileRecordDto} → (get_file_by_global_id c' k (idle t)).0 ≡ ok before
    → (get_file_by_global_id c' k (update_file c dto (idle t)).1).0
      ≡ ok (Option.map (λ r. if k == dto.global_id then with_update dto r else r) before)
unfolding stored_file
get_file_by_global_id-update_file c c' dto t k h r e =
    rw (update_file_lem c dto t h, get_file_by_global_id-reads c' k _ r)
      (rw (find-amend_file k dto.global_id (refile dto) t.files (λ a. refl)) (
        cc (
          e,
          get_file_by_global_id-reads c' k t r,
          map-change (refile dto) (with_update dto) (λ a. refl) (k == dto.global_id)
              (find (is_global k) t.files),
        )))

update_moved_file_lem :
    (c : Codes) (dto : FileMovedDto) (t : Tables)
    → all_ok c ≡ true
    → update_moved_file c dto (idle t)
      ≡ (ok tt, idle (record t { files = amend (is_global dto.global_id) (move_file dto) t.files }))
unfolding update_moved_file
update_moved_file_lem c dto t h = transaction_succeeds c (move_file_rows dto) t _ tt h refl

-- The record that a query returns, with what a move of its file puts in.
abbrev pub with_move : FileMovedDto → FileRecordDto → FileRecordDto
with_move dto r = record r {
  rel_path = dto.new_rel_path;
  cloud_file_modified_time = dto.cloud_file_modified_time;
}

-- Where SQLite reports no error, `update_file` for a move changes the path and time of the file
-- with the key that it names, as `getFileByGlobalId` returns it, and of no other file.
pub get_file_by_global_id-update_moved_file :
    (c c' : Codes) (dto : FileMovedDto) (t : Tables) (k : ℕ)
    → all_ok c ≡ true
    → reads c' ≡ true
    → {before : Option FileRecordDto} → (get_file_by_global_id c' k (idle t)).0 ≡ ok before
    → (get_file_by_global_id c' k (update_moved_file c dto (idle t)).1).0
      ≡ ok (Option.map (λ r. if k == dto.global_id then with_move dto r else r) before)
unfolding stored_file
get_file_by_global_id-update_moved_file c c' dto t k h r e =
    rw (update_moved_file_lem c dto t h, get_file_by_global_id-reads c' k _ r)
      (rw (find-amend_file k dto.global_id (move_file dto) t.files (λ a. refl)) (
        cc (
          e,
          get_file_by_global_id-reads c' k t r,
          map-change (move_file dto) (with_move dto) (λ a. refl) (k == dto.global_id)
              (find (is_global k) t.files),
        )))

pub delete_file_and_links_lem :
    (c : Codes) (g : ℕ) (t : Tables)
    → all_ok c ≡ true
    → delete_file_and_links c g (idle t) ≡ (
      ok tt,
      idle (record t {
        files = keep (λ r. not (is_global g r)) t.files;
        file_links = keep (λ l. not (is_link_of g l)) t.file_links;
      }),
    )
unfolding delete_file_and_links
delete_file_and_links_lem c g t h = transaction_succeeds c (delete_rows g) t _ tt h refl

pub find-delete :
    (g k : ℕ) (fs : List FileRow)
    → find (is_global k) (keep (λ r. not (is_global g r)) fs)
      ≡ (if k == g then none else find (is_global k) fs)
unfolding find keep
find-delete g k [] = ground arith
find-delete g k (r ∷ fs) = ground (arith, find-delete g k fs)

find_link-delete :
    (g k cloud : ℕ) (ls : List LinkRow)
    → find (is_link k cloud) (keep (λ l. not (is_link_of g l)) ls)
      ≡ (if k == g then none else find (is_link k cloud) ls)
unfolding find keep
find_link-delete g k cloud [] = ground arith
find_link-delete g k cloud (l ∷ ls) = ground (arith, find_link-delete g k cloud ls)

-- Where SQLite reports no error, after `delete_file_and_links` neither the file nor a link of it in
-- any cloud is found, and every other file and link is found as before.
pub get_file_by_global_id-delete_file_and_links :
    (c c' : Codes) (g : ℕ) (t : Tables) (k cloud : ℕ)
    → all_ok c ≡ true
    → reads c' ≡ true
    → let s = (delete_file_and_links c g (idle t)).1 in
      ((get_file_by_global_id c' k s).0
        ≡ (if k == g then ok none else (get_file_by_global_id c' k (idle t)).0))
      × ((get_file_by_cloud_and_global_id c' cloud k s).0
          ≡ (if k == g then ok none else (get_file_by_cloud_and_global_id c' cloud k (idle t)).0))
unfolding get_file_by_global_id get_file_by_cloud_and_global_id
get_file_by_global_id-delete_file_and_links c c' g t k cloud h r =
    rw (delete_file_and_links_lem c g t h) (
      ground (arith, find-delete g k t.files),
      ground (arith, find_link-delete g k cloud t.file_links),
    )

-- `add_file` of a path that a file has already makes a second row, which no query by path reaches:
-- "INSERT OR IGNORE" ignores nothing, since the schema has no UNIQUE constraint on the path.
pub get_global_id_by_path-add_file_again :
    (c c' : Codes) (dto : FileRecordDto) (t : Tables) (old : FileRow)
    → all_ok c ≡ true
    → reads c' ≡ true
    → IsIntact t
    → find (is_path dto.rel_path) t.files ≡ some old
    → let (r, s) = add_file c dto (idle t) in
      (r ≡ ok t.next_global_id)
      × ((get_global_id_by_path c' dto.rel_path s).0 ≡ ok old.global_id)
      × (old.global_id ≢ t.next_global_id)
unfolding get_global_id_by_path
get_global_id_by_path-add_file_again c c' dto t old h r v e = rw (add_file_lem c dto t h) (
  refl,
  ground (arith, find-append (is_path dto.rel_path) t.files (file_row t.next_global_id dto ∷ [])),
  λ same. absurd (
      omega (
        arith,
        find-below (λ (r : FileRow). r.global_id) 1 t.next_global_id _ t.files old v.files_ascend e,
      )),
)
