-- ===== src/Tests/Dispatcher.antt =====
-- Writes of the dispatcher, one of which fails on the way.
use sync_harbor.Base.{◌≡◌, refl, some}
use sync_harbor.Database.Connection.{ok}
use sync_harbor.Database.Read.{get_file_by_global_id}
use sync_harbor.Database.Calls.{idle}
use sync_harbor.Database.Files.{recorded}
use sync_harbor.Dispatcher.{sync_db_write}
use sync_harbor.Dispatcher.Writes.{get_file_by_global_id-sync_db_write}
use sync_harbor.Tests.Data.{fine, stored, photo}
use sync_harbor.Tests.Database.{stored-IsIntact}

get_file_by_global_id-sync_db_write_example :
    let (written, s) = sync_db_write fine photo (idle stored) in
    (written ≡ ok (record photo { global_id = 2 }))
    × ((get_file_by_global_id fine 2 s).0 ≡ ok (some (recorded 2 photo)))
get_file_by_global_id-sync_db_write_example =
    get_file_by_global_id-sync_db_write fine fine photo stored refl refl stored-IsIntact refl
