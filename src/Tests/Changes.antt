-- ===== src/Tests/Changes.antt =====
-- The chains that the factory makes, and a run of their commands.
use sync_harbor.Base.{ℕ, ◌≡◌, refl, List, [], ◌∷◌, arith, nat_eq, keep}
use sync_harbor.Base.Int.{pos}
use sync_harbor.Utils.Kinds.{ChangeType}
use sync_harbor.Utils.Dto.{FileDeletedDto}
use sync_harbor.Changes.Command.{
  local_upload, cloud_upload, cloud_update, local_update, cloud_download_new, cloud_download_update,
  record_dto, unset, size, Command, command, end, next,
}
use sync_harbor.Changes.Change.{Change}
use sync_harbor.Changes.Factory.{
  targets, make, make_cloud_new, make_local_new, make_cloud_update, make_local_update,
}
use sync_harbor.Changes.Factory.Coverage.{
  chain_size, chain_occurs, count, new_propagates, update_propagates,
}
use sync_harbor.Changes.Flight.{Flight, Run, begins, finishes, dispatched, finish, on_complete_once}
use sync_harbor.Tests.Data.{photo, notes, notes_update}

abbrev two_clouds : List ℕ
two_clouds = 0 ∷ 1 ∷ 2 ∷ []

-- A local file goes up to both clouds.
abbrev new_photo : Change
new_photo =
    make two_clouds local_upload (cloud_upload ∷ []) ChangeType.created 2000 notes
      (record_dto photo) 0

abbrev root : Command
root =
    command local_upload 0 (record_dto photo)
      (next (command cloud_upload 1 unset end) (next (command cloud_upload 2 unset end) end))

new_photo_chain : new_photo.cmd_chain ≡ root ∷ []
unfolding make targets keep nat_eq
new_photo_chain = refl

abbrev up : ℕ → Command
up cloud = command cloud_upload cloud unset end

-- The file is stored, the second upload finishes, then the first.
abbrev after_root : Flight
after_root = finish (dispatched (new_photo)) [] root []

abbrev after_second : Flight
after_second = finish after_root (up 1 ∷ []) (up 2) []

stored_and_uploaded : Run (dispatched new_photo) 3 0 (finish after_second [] (up 1) [])
unfolding make targets keep nat_eq finish dispatched
stored_and_uploaded =
    finishes [] [] (up 1) (finishes (up 1 ∷ []) [] (up 2) (finishes [] [] root begins refl) refl)
      refl

on_complete_once_example :
    (3 ≡ chain_size new_photo.cmd_chain)
    × ((finish after_second [] (up 1) []).change.pending_cmds ≡ pos 0)
    × ((finish after_second [] (up 1) []).completions ≡ 1)
unfolding make targets keep nat_eq finish dispatched chain_size size
on_complete_once_example = on_complete_once new_photo refl (omega arith) stored_and_uploaded

new_propagates_example :
    let remote = (make_cloud_new two_clouds (record photo { cloud_id = 1 })).cmd_chain in
    let local = (make_local_new two_clouds (record photo { cloud_id = 1 })).cmd_chain in
    (chain_occurs cloud_upload 2 remote ≡ 1)
    × (chain_occurs local_upload 0 remote ≡ 1)
    × (chain_occurs cloud_download_new 1 remote ≡ 1)
    × (chain_occurs cloud_upload 2 local ≡ 1)
    × (chain_occurs local_upload 0 local ≡ 1)
unfolding nat_eq count
new_propagates_example = new_propagates two_clouds 2 (record photo { cloud_id = 1 })

update_propagates_example :
    let remote = (make_cloud_update two_clouds notes_update).cmd_chain in
    let local = (make_local_update two_clouds notes_update).cmd_chain in
    (chain_occurs cloud_update 2 remote ≡ 1)
    × (chain_occurs local_update 0 remote ≡ 1)
    × (chain_occurs cloud_download_update 1 remote ≡ 1)
    × (chain_occurs cloud_update 2 local ≡ 1)
    × (chain_occurs local_update 0 local ≡ 1)
unfolding nat_eq count
update_propagates_example = update_propagates two_clouds 2 notes_update

abbrev notes_deleted : FileDeletedDto
notes_deleted = record {
  rel_path = notes;
  cloud_file_id = "g-1";
  when = 5000;
  global_id = 1;
  cloud_id = 1;
}
