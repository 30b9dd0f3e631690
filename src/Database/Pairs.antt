-- ===== src/Database/Pairs.antt =====
-- A new file with its first link: what `add_file` and then `add_file_link` under its key leave.
use sync_harbor.Base.{
  ℕ, suc, ◌≡◌, refl, ap, ◌∙◌, true, false, none, some, List, [], ◌∷◌, ◌++◌, All, find, any, arith,
  ==_refl, nat_eq,
}
use sync_harbor.Utils.Names.{entry_type_from_string-entry_type_name}
use sync_harbor.Utils.Dto.{FileRecordDto}
use sync_harbor.Database.Tables.{
  FileRow, ConfigRow, LinkRow, Tables, IsIntact, Refers, is_global, is_config, is_link, is_file_id,
}
use sync_harbor.Database.Rows.{any_above, find-append, find-none}
use sync_harbor.Database.Connection.{Codes, ok}
use sync_harbor.Database.Write.{file_row, link_row, add_file, add_file_link}
use sync_harbor.Database.Read.{
  stored_file, stored_link, get_file_by_global_id, get_file_by_file_id,
  get_file_by_cloud_and_global_id,
}
use sync_harbor.Database.Calls.{idle, all_ok}
use sync_harbor.Database.Files.{reads, recorded, add_file_lem}
use sync_harbor.Database.Links.{linked, add_file_link-free, get_link-reads, find-append_link}

no_link_of_unknown :
    (g cloud : ℕ) (fs : List FileRow) (cs : List ConfigRow) (ls : List LinkRow)
    → All (Refers fs cs) ls
    → any (is_global g) fs ≡ false
    → any (is_link g cloud) ls ≡ false
unfolding any
no_link_of_unknown g cloud fs cs [] h k = refl
no_link_of_unknown g cloud fs cs (l ∷ ls) h k =
    ground (arith, h.0, k, no_link_of_unknown g cloud fs cs ls h.1 k)

any_global-append :
    (g : ℕ) (fs : List FileRow) (r : FileRow)
    → r.global_id ≡ g
    → any (is_global g) (fs ++ (r ∷ [])) ≡ true
unfolding any
any_global-append g [] r e = ground arith
any_global-append g (x ∷ fs) r e = ground (arith, any_global-append g fs r e)

-- The tables with the file and its link.
abbrev pub with_pair : FileRecordDto → FileRecordDto → Tables → Tables
with_pair file link t = record t {
  files = t.files ++ (file_row t.next_global_id file ∷ []);
  file_links = t.file_links ++ (link_row (record link { global_id = t.next_global_id }) ∷ []);
  next_global_id = suc t.next_global_id;
}

module _ (c : Codes) (file link : FileRecordDto) (t : Tables) where
  pub add_file_link-add_file :
      all_ok c ≡ true
      → IsIntact t
      → any (is_config link.cloud_id) t.cloud_configs ≡ true
      → add_file_link c (record link { global_id = t.next_global_id }) (add_file c file (idle t)).1
        ≡ (ok tt, idle (with_pair file link t))
  add_file_link-add_file h v k =
      let g = t.next_global_id in
      let added = ap (λ o. o.1) (add_file_lem c file t h) in
      ap (add_file_link c (record link { global_id = g })) added
      ∙ add_file_link-free c (record link { global_id = g }) _ h
          (no_link_of_unknown g link.cloud_id t.files t.cloud_configs t.file_links v.links_refer
            (any_above (λ (r : FileRow). r.global_id) 1 g g t.files v.files_ascend (omega arith)))
          (ground (arith, any_global-append g t.files (file_row g file) refl))

  pub get_file_by_global_id-with_pair :
      (c' : Codes)
      → reads c' ≡ true
      → IsIntact t
      → (get_file_by_global_id c' t.next_global_id (idle (with_pair file link t))).0
        ≡ ok (some (recorded t.next_global_id file))
  unfolding get_file_by_global_id stored_file find
  get_file_by_global_id-with_pair c' r v =
      let g = t.next_global_id in
      ground (
        arith,
        find-append (is_global g) t.files (file_row g file ∷ []),
        find-none (is_global g) t.files,
        any_above (λ (r : FileRow). r.global_id) 1 g g t.files v.files_ascend,
        ==_refl g,
        entry_type_from_string-entry_type_name file.type,
      )

  pub get_link-with_pair :
      (c' : Codes)
      → reads c' ≡ true
      → IsIntact t
      → (get_file_by_cloud_and_global_id c' link.cloud_id t.next_global_id
          (idle (with_pair file link t))).0
        ≡ ok (some (linked c' (record link { global_id = t.next_global_id })))
  unfolding stored_link
  get_link-with_pair c' r v =
      let g = t.next_global_id in
      ground (
        arith,
        get_link-reads c' link.cloud_id g (with_pair file link t) r,
        find-append_link g link.cloud_id (link_row (record link { global_id = g })) t.file_links,
        find-none (is_link g link.cloud_id) t.file_links,
        no_link_of_unknown g link.cloud_id t.files t.cloud_configs t.file_links v.links_refer
            (any_above (λ (r : FileRow). r.global_id) 1 g g t.files v.files_ascend (omega arith)),
        ==_refl g,
        ==_refl link.cloud_id,
      )

  pub get_file_by_file_id-with_pair :
      (c' : Codes)
      → reads c' ≡ true
      → find (is_file_id file.file_id) t.files ≡ none
      → get_file_by_file_id c' file.file_id (idle (with_pair file link t))
        ≡ (ok (some (recorded t.next_global_id file)), idle (with_pair file link t))
  unfolding get_file_by_file_id stored_file find
  get_file_by_file_id-with_pair c' r free = ground (
    arith,
    find-append (is_file_id file.file_id) t.files (file_row t.next_global_id file ∷ []),
    ==_refl file.file_id,
    entry_type_from_string-entry_type_name file.type,
  )
