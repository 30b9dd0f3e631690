-- ===== src/Dispatcher/Writes.antt =====
-- What `syncDbWrite` leaves in the database.

use sync_harbor.Base.{◌≡◌, refl, ap, ◌∙◌, true, some, ◌==◌, ==_refl, nat_eq, arith, if◌then◌else◌}
use sync_harbor.Utils.Dto.{FileRecordDto}
use sync_harbor.Database.Tables.{Tables, IsIntact}
use sync_harbor.Database.Connection.{Connection, Codes, Result, ok, err}
use sync_harbor.Database.Write.{add_file}
use sync_harbor.Database.Read.{get_file_by_global_id}
use sync_harbor.Database.Calls.{idle, all_ok}
use sync_harbor.Database.Files.{reads, recorded, get_file_by_global_id-add_file}
use sync_harbor.Dispatcher.{write_file, write_link, sync_db_write}

-- A call whose result is only changed leaves what the call leaves.
result_changed :
    {A B : Type 0} (r : Result A × Connection) (f : A → B)
    → (elim r.0 as (λ _. Result B × Connection) [ ok a ↦ (ok (f a), r.1) | err e ↦ (err e, r.1) ]).1
      ≡ r.1
result_changed (ok a, s) f = refl
result_changed (err e, s) f = refl

result_changed_ok :
    {A B : Type 0} (r : Result A × Connection) (f : A → B) {a : A}
    → r.0 ≡ ok a
    → (elim r.0 as (λ _. Result B × Connection) [ ok a ↦ (ok (f a), r.1) | err e ↦ (err e, r.1) ]).0
      ≡ ok (f a)
result_changed_ok r f e = rw e

-- Where SQLite reports no error and the tables are intact, `syncDbWrite` of a local record puts the
-- key of the new file into it, and `getFileByGlobalId` finds the file under this key.
pub get_file_by_global_id-sync_db_write :
    (c c' : Codes) (dto : FileRecordDto) (t : Tables)
    → all_ok c ≡ true
    → reads c' ≡ true
    → IsIntact t
    → dto.cloud_id ≡ 0
    → let (written, s) = sync_db_write c dto (idle t) in
      (written ≡ ok (record dto { global_id = t.next_global_id }))
      × ((get_file_by_global_id c' t.next_global_id s).0
          ≡ ok (some (recorded t.next_global_id dto)))
unfolding sync_db_write
get_file_by_global_id-sync_db_write c c' dto t h r v is_local =
    let local_write : (dto.cloud_id == 0) ≡ true = ground (arith, is_local) in
    let taken =
      ap (λ b. if b then write_file c dto (idle t) else write_link c dto (idle t)) local_write in
    let (key, found) = get_file_by_global_id-add_file c c' dto t t.next_global_id h r v in
    (
      ap (λ o. o.0) taken
          ∙ result_changed_ok (add_file c dto (idle t)) (λ g. record dto { global_id = g }) key,
      ap (λ o. (get_file_by_global_id c' t.next_global_id o.1).0) taken
          ∙ ap (λ s. (get_file_by_global_id c' t.next_global_id s).0)
              (result_changed (add_file c dto (idle t)) (λ g. record dto { global_id = g }))
          ∙ found
          ∙ ap
              (λ b.
                if b
                then ok (some (recorded t.next_global_id dto))
                else (get_file_by_global_id c' t.next_global_id (idle t)).0)
              (==_refl t.next_global_id),
    )
