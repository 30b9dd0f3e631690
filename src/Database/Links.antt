-- ===== src/Database/Links.antt =====
-- What the queries for links return after the methods that change the table `file_links`.
use mathlib.Core.Option
use sync_harbor.Base.{
  ℕ, ◌≡◌, refl, ap, Bool, true, false, ◌&&◌, Bool-cases, inl, inr, Option, none, some, List, [],
  ◌∷◌, ◌++◌, find, any, amend, arith, ◌==◌, nat_eq, string_eq, if◌then◌else◌,
}
use sync_harbor.Utils.Kinds.{EntryType}
use sync_harbor.Utils.Dto.{FileRecordDto, FileUpdatedDto, FileMovedDto, text, cloud_stored_record}
use sync_harbor.Database.Tables.{LinkRow, Tables, is_global, is_config, is_link}
use sync_harbor.Database.Connection.{Codes, ok, err, step_failed}
use sync_harbor.Database.Write.{
  hash_text, link_row, insert_link, add_file_link, update_link_rows, relink, update_file_link,
  move_link_rows, move_link, update_moved_link,
}
use sync_harbor.Database.Read.{stored_link, get_file_by_cloud_and_global_id}
use sync_harbor.Database.Calls.{idle, all_ok, transaction_succeeds}
use sync_harbor.Database.Files.{reads}

-- Both ends of the link are in their tables.
abbrev pub ends_exist : FileRecordDto → Tables → Bool
ends_exist dto t =
    any (is_global dto.global_id) t.files && any (is_config dto.cloud_id) t.cloud_configs

-- What `add_file_link` is to store; `type` is the member that the query leaves uninitialised.
abbrev pub linked : Codes → FileRecordDto → FileRecordDto
linked c dto =
    cloud_stored_record c.indeterminate dto.global_id dto.cloud_id dto.cloud_parent_id
      dto.cloud_file_id dto.size (hash_text dto.cloud_hash_check_sum) dto.cloud_file_modified_time

pub get_link-reads :
    (c : Codes) (cloud k : ℕ) (t : Tables)
    → reads c ≡ true
    → get_file_by_cloud_and_global_id c cloud k (idle t) ≡ (
      ok (Option.map (stored_link c.indeterminate) (find (is_link k cloud) t.file_links)),
      idle t,
    )
unfolding get_file_by_cloud_and_global_id
get_link-reads c cloud k t h = ground arith

pub find-append_link :
    (k cloud : ℕ) (row : LinkRow) (ls : List LinkRow)
    → find (is_link k cloud) (ls ++ (row ∷ [])) ≡ elim (find (is_link k cloud) ls) [
      | some old ↦ some old
      | none ↦ if k == row.global_id && cloud == row.cloud_id then some row else none
    ]
unfolding find
find-append_link k cloud row [] = ground arith
find-append_link k cloud row (l ∷ ls) = ground (arith, find-append_link k cloud row ls)

find_taken :
    (g c k cloud : ℕ) (ls : List LinkRow)
    → any (is_link g c) ls ≡ true
    → find (is_link k cloud) ls ≡ none
    → (k == g && cloud == c) ≡ false
unfolding find any
find_taken g c k cloud [] h e = ground arith
find_taken g c k cloud (l ∷ ls) h e = ground (arith, find_taken g c k cloud ls)

add_file_link-taken :
    (c : Codes) (dto : FileRecordDto) (t : Tables)
    → all_ok c ≡ true
    → any (is_link dto.global_id dto.cloud_id) t.file_links ≡ true
    → add_file_link c dto (idle t) ≡ (ok tt, idle t)
unfolding add_file_link
add_file_link-taken c dto t h taken =
    transaction_succeeds c (insert_link dto) t t tt h (ground arith)

pub add_file_link-free :
    (c : Codes) (dto : FileRecordDto) (t : Tables)
    → all_ok c ≡ true
    → any (is_link dto.global_id dto.cloud_id) t.file_links ≡ false
    → ends_exist dto t ≡ true
    → add_file_link c dto (idle t)
      ≡ (ok tt, idle (record t { file_links = t.file_links ++ (link_row dto ∷ []) }))
unfolding add_file_link
add_file_link-free c dto t h free ends =
    transaction_succeeds c (insert_link dto) t _ tt h (ground arith)

-- Where SQLite reports no error and both ends exist, `add_file_link` stores the link if the file has
-- none in that cloud and keeps the old one otherwise; every other link is found as before.
pub get_file_by_cloud_and_global_id-add_file_link :
    (c c' : Codes) (dto : FileRecordDto) (t : Tables) (k cloud : ℕ)
    → all_ok c ≡ true
    → reads c' ≡ true
    → ends_exist dto t ≡ true
    → {before : Option FileRecordDto}
    → (get_file_by_cloud_and_global_id c' cloud k (idle t)).0 ≡ ok before
    → (get_file_by_cloud_and_global_id c' cloud k (add_file_link c dto (idle t)).1).0
      ≡ ok (elim before [
        | some old ↦ some old
        | none ↦ if k == dto.global_id && cloud == dto.cloud_id then some (linked c' dto) else none
      ])
unfolding stored_link
get_file_by_cloud_and_global_id-add_file_link c c' dto t k cloud h r ends e =
    elim (Bool-cases (any (is_link dto.global_id dto.cloud_id) t.file_links)) [
      | inl taken ↦ rw (add_file_link-taken c dto t h taken) (
          ground (
            arith,
            get_link-reads c' cloud k t r,
            find_taken dto.global_id dto.cloud_id k cloud t.file_links taken,
          ))
      | inr free ↦ rw (add_file_link-free c dto t h free ends) (
          ground (
            arith,
            get_link-reads c' cloud k t r,
            get_link-reads c' cloud k
                (record t { file_links = t.file_links ++ (link_row dto ∷ []) }) r,
            find-append_link k cloud (link_row dto) t.file_links,
          ))
    ]

-- Where SQLite reports no error, `add_file_link` of a new link with a missing end throws and changes
-- nothing: OR IGNORE does not cover foreign keys.
pub add_file_link_dangling :
    (c : Codes) (dto : FileRecordDto) (t : Tables)
    → all_ok c ≡ true
    → any (is_link dto.global_id dto.cloud_id) t.file_links ≡ false
    → ends_exist dto t ≡ false
    → add_file_link c dto (idle t) ≡ (err step_failed, idle t)
unfolding add_file_link
add_file_link_dangling c dto t h free ends = ground arith

update_file_link_lem :
    (c : Codes) (dto : FileUpdatedDto) (t : Tables)
    → all_ok c ≡ true
    → update_file_link c dto (idle t) ≡ (
      ok tt,
      idle (record t {
        file_links = amend (is_link dto.global_id dto.cloud_id) (relink dto) t.file_links;
      }),
    )
unfolding update_file_link
update_file_link_lem c dto t h = transaction_succeeds c (update_link_rows dto) t _ tt h refl

update_moved_link_lem :
    (c : Codes) (dto : FileMovedDto) (t : Tables)
    → all_ok c ≡ true
    → update_moved_link c dto (idle t) ≡ (
      ok tt,
      idle (record t {
        file_links = amend (is_link dto.global_id dto.cloud_id) (move_link dto) t.file_links;
      }),
    )
unfolding update_moved_link
update_moved_link_lem c dto t h = transaction_succeeds c (move_link_rows dto) t _ tt h refl

find-amend_link :
    (k cloud g c : ℕ) (f : LinkRow → LinkRow) (ls : List LinkRow)
    → ((l : LinkRow) → ((f l).global_id ≡ l.global_id) × ((f l).cloud_id ≡ l.cloud_id))
    → find (is_link k cloud) (amend (is_link g c) f ls)
      ≡ Option.map (λ l. if k == g && cloud == c then f l else l) (find (is_link k cloud) ls)
unfolding find amend
find-amend_link k cloud g c f [] h = refl
find-amend_link k cloud g c f (l ∷ ls) h = ground (arith, h l, find-amend_link k cloud g c f ls h)

map-change_link :
    (type : EntryType) (f : LinkRow → LinkRow) (g : FileRecordDto → FileRecordDto)
    → ((l : LinkRow) → stored_link type (f l) ≡ g (stored_link type l))
    → (b : Bool) (o : Option LinkRow)
    → Option.map (stored_link type) (Option.map (λ l. if b then f l else l) o)
      ≡ Option.map (λ r. if b then g r else r) (Option.map (stored_link type) o)
map-change_link type f g h b none = refl
map-change_link type f g h true (some l) = ap some (h l)
map-change_link type f g h false (some l) = refl

abbrev pub with_link_update : FileUpdatedDto → FileRecordDto → FileRecordDto
with_link_update dto r = record r {
  cloud_hash_check_sum = text (hash_text dto.cloud_hash_check_sum);
  cloud_file_modified_time = dto.cloud_file_modified_time;
  size = dto.size;
}

abbrev pub with_link_move : FileMovedDto → FileRecordDto → FileRecordDto
with_link_move dto r = record r {
  cloud_file_id = dto.cloud_file_id;
  cloud_file_modified_time = dto.cloud_file_modified_time;
  cloud_parent_id = dto.new_cloud_parent_id;
}

-- Where SQLite reports no error, the two `update_file_link` change the link of the file and the
-- cloud that they name (the first its hash, time and size, the second its cloud file, its time and
-- its parent), and no other link.
pub get_file_by_cloud_and_global_id-update_file_link :
    (c c' : Codes) (update : FileUpdatedDto) (move : FileMovedDto) (t : Tables) (k cloud : ℕ)
    → all_ok c ≡ true
    → reads c' ≡ true
    → {before : Option FileRecordDto}
    → (get_file_by_cloud_and_global_id c' cloud k (idle t)).0 ≡ ok before
    → ((get_file_by_cloud_and_global_id c' cloud k (update_file_link c update (idle t)).1).0
        ≡ ok (
            Option.map
              (λ r.
                if k == update.global_id && cloud == update.cloud_id
                then with_link_update update r
                else r)
              before))
      × ((get_file_by_cloud_and_global_id c' cloud k (update_moved_link c move (idle t)).1).0
          ≡ ok (
              Option.map
                (λ r.
                  if k == move.global_id && cloud == move.cloud_id
                  then with_link_move move r
                  else r)
                before))
unfolding stored_link
get_file_by_cloud_and_global_id-update_file_link c c' update move t k cloud h r e = (
  rw (update_file_link_lem c update t h, get_link-reads c' cloud k _ r)
      (rw
        (find-amend_link k cloud update.global_id update.cloud_id (relink update) t.file_links
          (λ l. (refl, refl)))
        (cc (
          e,
          get_link-reads c' cloud k t r,
          map-change_link c'.indeterminate (relink update) (with_link_update update) (λ l. refl)
              (k == update.global_id && cloud == update.cloud_id)
              (find (is_link k cloud) t.file_links),
        ))),
  rw (update_moved_link_lem c move t h, get_link-reads c' cloud k _ r)
      (rw
        (find-amend_link k cloud move.global_id move.cloud_id (move_link move) t.file_links
          (λ l. (refl, refl)))
        (cc (
          e,
          get_link-reads c' cloud k t r,
          map-change_link c'.indeterminate (move_link move) (with_link_move move) (λ l. refl)
              (k == move.global_id && cloud == move.cloud_id) (find (is_link k cloud) t.file_links),
        ))),
)
