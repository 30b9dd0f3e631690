-- ===== src/Tests/Callbacks.antt =====
-- Local commands with the commands of two clouds behind them.
use sync_harbor.Base.{refl}
use sync_harbor.Utils.Dto.{FileUpdatedDto, FileDeletedDto, local_deleted}
use sync_harbor.Database.Calls.{idle}
use sync_harbor.Changes.Command.{
  CommandKind, cloud_upload, cloud_update, cloud_move, cloud_delete, kind_of, unset, record_dto,
  updated_dto, moved_dto, deleted_dto, Commands, command, end, next,
}
use sync_harbor.Callbacks.Passing.{for_upload, for_update, for_move, for_delete, pass_on}
use sync_harbor.Callbacks.Handed.{Reads, AllHanded}
use sync_harbor.Callbacks.Loops.{IsForUpload, IsForFile, loops_hand_on}
use sync_harbor.Callbacks.Moves.{IsForMove, move_hands_on}
use sync_harbor.Tests.Data.{fine, stored, notes, photo, notes_update, notes_move}

-- The commands of a kind for the clouds 1 and 2.
abbrev both : CommandKind → Commands
both kind = next (command kind 1 unset end) (next (command kind 2 unset end) end)

abbrev notes_deletion : FileDeletedDto
notes_deletion = local_deleted notes 1 9

loops_hand_on_example :
    let s = idle stored in
    Reads
      (λ passed. AllHanded (IsForUpload fine s photo) record_dto (both cloud_upload) passed.1)
      s
      (pass_on (for_upload fine) record_dto photo (both cloud_upload) s)
    × Reads
        (λ passed.
          AllHanded
            (λ id (a : FileUpdatedDto). IsForFile fine s 1 id a.cloud_id a.cloud_file_id)
            updated_dto
            (both cloud_update)
            passed.1)
        s
        (pass_on (for_update fine) updated_dto notes_update (both cloud_update) s)
    × Reads
        (λ passed.
          AllHanded
            (λ id (a : FileDeletedDto). IsForFile fine s 1 id a.cloud_id a.cloud_file_id)
            deleted_dto
            (both cloud_delete)
            passed.1)
        s
        (pass_on (for_delete fine) deleted_dto notes_deletion (both cloud_delete) s)
unfolding kind_of local_deleted
loops_hand_on_example =
    loops_hand_on fine (idle stored) photo notes_update notes_deletion (both cloud_upload)
      (both cloud_update) (both cloud_delete) (refl, (refl, tt)) (refl, (refl, tt))
      (refl, (refl, tt))

move_hands_on_example :
    let s = idle stored in
    Reads
      (λ passed. AllHanded (IsForMove fine s notes_move) moved_dto (both cloud_move) passed.1)
      s
      (pass_on (for_move fine) moved_dto notes_move (both cloud_move) s)
unfolding kind_of
move_hands_on_example =
    move_hands_on fine (idle stored) notes_move (both cloud_move) (refl, (refl, tt))
