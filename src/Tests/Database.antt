-- ===== src/Tests/Database.antt =====
-- The database: its tables, and the methods on files and links.
use sync_harbor.Base.{
  true, ◌≡◌, refl, String, some, List, [], ◌∷◌, ◌++◌, find, any, nat_eq, string_eq, list_eq, arith,
}
use sync_harbor.Utils.Kinds.{entry_type_from_string}
use sync_harbor.Utils.FilePath.{relative, path_eq, normalize_path, is_empty, parent_path}
use sync_harbor.Utils.Dto.{word}
use sync_harbor.Database.Tables.{IsIntact, fresh_tables}
use sync_harbor.Database.Connection.{Codes, ok}
use sync_harbor.Database.Write.{add_file, update_file, delete_file_and_links, hash_word}
use sync_harbor.Database.Read.{
  get_file_by_global_id, get_global_id_by_path, get_file_by_cloud_and_global_id,
  get_missing_path_part, quick_path_check, get_file_by_path, get_cloud_file_id_by_path,
}
use sync_harbor.Database.Catalogue.{catalogue, specified, get_file_by_global_id-run}
use sync_harbor.Database.Calls.{Call, adds_file, updates_file, deletes_file, perform, run, idle}
use sync_harbor.Database.Atomicity.{IsAtomic, effect, perform-IsAtomic}
use sync_harbor.Database.Integrity.{IsSound, run-IsSound}
use sync_harbor.Database.Files.{recorded, with_update}
use sync_harbor.Database.Links.{}
use sync_harbor.Database.Queries.{link_id, path_queries_agree}
use sync_harbor.Database.MissingPath.{PrefixesEverywhere, StopsBefore, get_missing_path_part_split}
use sync_harbor.Tests.Data.{fine, full_disk, stored, notes, photo, notes_again, notes_update}

pub stored-IsIntact : IsIntact stored
unfolding nat_eq string_eq any
stored-IsIntact = record {
  files_ascend = (omega arith, omega arith);
  configs_ascend = (omega arith, omega arith);
  names_distinct = (refl, tt);
  links_distinct = (refl, tt);
  links_refer = ((refl, refl), tt);
}

-- A commit that fails takes the new row back.
commit_fails : (perform full_disk (adds_file photo) (idle stored)).1 ≡ idle stored
unfolding perform add_file
commit_fails = refl

perform-IsAtomic_example :
    IsAtomic stored
      (effect (adds_file photo) stored)
      (perform full_disk (adds_file photo) (idle stored))
perform-IsAtomic_example = perform-IsAtomic full_disk (adds_file photo) stored

run-IsSound_example :
    IsSound (run ((fine, adds_file photo) ∷ (full_disk, deletes_file 1) ∷ []) (idle fresh_tables))
run-IsSound_example = run-IsSound ((fine, adds_file photo) ∷ (full_disk, deletes_file 1) ∷ [])

-- "work" is not in the table, so the whole path is missing.
missing_all : get_missing_path_part fine notes 1 (idle stored) ≡ (ok notes, idle stored)
unfolding get_missing_path_part find normalize_path is_empty parent_path path_eq list_eq string_eq
missing_all = refl

get_missing_path_part_split_example :
    (found : List String) × (rest : List String) × (notes.names ≡ found ++ rest)
    × (get_missing_path_part fine notes 1 (idle stored) ≡ (ok (relative rest), idle stored))
    × PrefixesEverywhere stored 1 (relative []) found
    × StopsBefore stored 1 found rest
get_missing_path_part_split_example = get_missing_path_part_split fine notes 1 stored refl

path_queries_agree_example :
    ((quick_path_check fine notes (idle stored)).0 ≡ ok true)
    × ((get_global_id_by_path fine notes (idle stored)).0 ≡ ok 1)
    × ((get_cloud_file_id_by_path fine fine notes 1 (idle stored)).0
        ≡ link_id (get_file_by_cloud_and_global_id fine 1 1 (idle stored)).0)
unfolding get_file_by_path find path_eq list_eq string_eq entry_type_from_string hash_word
path_queries_agree_example =
    path_queries_agree fine notes 1 (idle stored)
      {file = some (
        recorded 1 (record notes_again {
          size = 10;
          cloud_hash_check_sum = word 77;
          cloud_file_modified_time = 1000;
          file_id = 42;
        }))}
      refl

-- A file that is stored, updated, and then deleted by a call whose commit fails.
abbrev disturbed_history : List (Codes × Call)
disturbed_history =
    (fine, adds_file photo) ∷ (fine, updates_file notes_update) ∷ (full_disk, deletes_file 1) ∷ []

get_file_by_global_id-run_example :
    (get_file_by_global_id fine 1 (run disturbed_history (idle fresh_tables))).0
    ≡ ok (some (with_update notes_update (recorded 1 photo)))
unfolding catalogue specified perform add_file update_file delete_file_and_links nat_eq
get_file_by_global_id-run_example = get_file_by_global_id-run disturbed_history fine 1 refl
