-- ===== src/Local/Process.antt =====
-- What the local storage does for a command: `proccesUpload`, `proccesUpdate`, `proccesMove` and
-- `proccesDelete` of src/LocalStorage.cpp. The calls of the database in one of them return the same
-- codes.
pub mod Echo
pub mod Upload
use sync_harbor.Base.{
  ℕ, Bool, true, false, Option, none, some, List, [], ◌∷◌, ◌==◌, nat_eq, if◌then◌else◌,
}
use sync_harbor.Utils.Kinds.{ChangeType}
use sync_harbor.Utils.FilePath.{FilePath, join, lexically_relative}
use sync_harbor.Utils.Dto.{
  HashSum, word, FileRecordDto, FileUpdatedDto, FileMovedDto, FileDeletedDto, local_moved,
}
use sync_harbor.Database.Connection.{
  Codes, Connection, Method, Result, ok, err, file_system_failed, Stateful, return, throw, ◌>>=◌,
  ◌>>◌,
}
use sync_harbor.Database.Write.{
  add_file, add_file_link, update_file, update_file_link, update_moved_file, update_moved_link,
}
use sync_harbor.Database.Read.{get_file_by_file_id}
use sync_harbor.Local.Names.{tmp_path}
use sync_harbor.Local.State.{
  FileSystem, LocalStorage, Step, on_db, require, expect, get_file_id, compute_file_hash,
}

module _ (fs : FileSystem) where
  -- A change of the file system, or its exception.
  abbrev pub on_disk : (fs.Disk → Option fs.Disk) → Step fs.Disk
  on_disk change s = elim (change s.disk) [
    | none ↦ (err file_system_failed, s)
    | some disk ↦ (ok tt, record s { disk = disk })
  ]

  -- The file of a relative path.
  abbrev pub full : LocalStorage fs.Disk → FilePath → FilePath
  full s rel = join s.local_home_dir rel

  -- The download takes the place of the file.
  unfoldable pub install : FilePath → Step fs.Disk
  unfolding tmp_path
  install rel s = on_disk (fs.rename (tmp_path s.local_home_dir rel) (full s rel)) s

  -- What the storage reads of an installed upload.
  unfoldable pub refreshed : FileRecordDto → Stateful (LocalStorage fs.Disk) FileRecordDto
  unfolding get_file_id compute_file_hash
  refreshed dto s =
      (do
        size ← require (fs.file_size s.disk (full s dto.rel_path))
        time ← require (fs.last_write_time s.disk (full s dto.rel_path))
        return (record dto {
          file_id = get_file_id fs s.disk (full s dto.rel_path);
          size = size;
          cloud_hash_check_sum = word (compute_file_hash fs s.disk (full s dto.rel_path));
          cloud_file_modified_time = time;
          cloud_id = s.id;
        }))
        s

  -- What it reads of a file that was here before the others.
  unfoldable pub stamped : FileRecordDto → Stateful (LocalStorage fs.Disk) FileRecordDto
  unfolding get_file_id compute_file_hash
  stamped dto s =
      (do
        time ← require (fs.last_write_time s.disk (full s dto.rel_path))
        return (record dto {
          file_id = get_file_id fs s.disk (full s dto.rel_path);
          cloud_hash_check_sum = word (compute_file_hash fs s.disk (full s dto.rel_path));
          cloud_file_modified_time = time;
        }))
        s

  -- What it reads of an installed update.
  unfoldable pub refreshed_update : FileUpdatedDto → Stateful (LocalStorage fs.Disk) FileUpdatedDto
  unfolding get_file_id compute_file_hash
  refreshed_update dto s =
      (do
        size ← require (fs.file_size s.disk (full s dto.rel_path))
        time ← require (fs.last_write_time s.disk (full s dto.rel_path))
        return (record dto {
          file_id = get_file_id fs s.disk (full s dto.rel_path);
          size = size;
          cloud_hash_check_sum = word (compute_file_hash fs s.disk (full s dto.rel_path));
          cloud_file_modified_time = time;
          cloud_id = s.id;
        }))
        s

  -- What it reads of a file that was moved.
  unfoldable pub refreshed_move : FileMovedDto → Stateful (LocalStorage fs.Disk) FileMovedDto
  refreshed_move dto s =
      (do
        time ← require (fs.last_write_time s.disk (full s dto.new_rel_path))
        return (record dto { cloud_file_modified_time = time; cloud_id = s.id }))
        s

  module _ (c : Codes) where
    -- `proccesUpload` of a file that a cloud has, with what it leaves in `*dto`.
    unfoldable pub install_upload : FileRecordDto → Stateful (LocalStorage fs.Disk) FileRecordDto
    unfolding install refreshed
    install_upload dto = do
      install dto.rel_path
      here ← refreshed dto
      global_id ← on_db (add_file c here)
      on_db (add_file_link c (record dto { global_id = global_id }))
      return (record here { global_id = global_id })

    -- `proccesUpload` of a file that is new here.
    unfoldable pub note_upload : FileRecordDto → Stateful (LocalStorage fs.Disk) FileRecordDto
    unfolding stamped
    note_upload dto = do
      here ← stamped dto
      global_id ← on_db (add_file c here)
      return (record here { global_id = global_id })

    -- `proccesUpload`
    unfoldable pub procces_upload : FileRecordDto → Stateful (LocalStorage fs.Disk) FileRecordDto
    unfolding install_upload note_upload
    procces_upload dto = if dto.cloud_id == 0 then note_upload dto else install_upload dto

    -- `proccesUpdate` of a file that a cloud has changed.
    unfoldable pub install_update : FileUpdatedDto → Stateful (LocalStorage fs.Disk) FileUpdatedDto
    unfolding install refreshed_update
    install_update dto s =
        (do
          on_disk (fs.remove (full s dto.rel_path))
          install dto.rel_path
          on_db (update_file_link c dto)
          here ← refreshed_update dto
          on_db (update_file c here)
          return here)
          (expect (full s dto.rel_path) ChangeType.deleted s)

    -- `proccesUpdate`
    unfoldable pub procces_update : FileUpdatedDto → Stateful (LocalStorage fs.Disk) FileUpdatedDto
    unfolding install_update
    procces_update dto =
        if dto.cloud_id == 0 then (do on_db (update_file c dto); return dto) else install_update dto

    -- `rec->rel_path` is set before it is read, so both paths of the update are the new one.
    unfoldable pub restamp : FilePath → FilePath → Option FileRecordDto → Step fs.Disk
    restamp entry rel none s = (ok tt, s)
    restamp entry rel (some rec) s =
        (do
          time ← require (fs.last_write_time s.disk entry)
          on_db (update_moved_file c (local_moved rec.type rec.global_id time rel rel))
          return tt)
          s

    unfoldable pub move_entry : FilePath → Step fs.Disk
    unfolding restamp get_file_id
    move_entry entry s =
        (on_db (get_file_by_file_id c (get_file_id fs s.disk entry))
            >>= restamp entry (lexically_relative entry s.local_home_dir))
          s

    -- The loop of `proccesMove` over the entries of the directory.
    unfoldable pub move_entries : List FilePath → Step fs.Disk
    unfolding move_entry
    move_entries [] s = (ok tt, s)
    move_entries (entry ∷ entries) s =
        let rest = move_entries entries in (move_entry entry >>= λ _. rest) s

    -- The end of `proccesMove`.
    unfoldable pub move_tree : FilePath → Step fs.Disk
    unfolding move_entries
    move_tree moved s =
        if fs.is_directory s.disk moved
        then move_entries (fs.recursive_entries s.disk moved) s
        else (ok tt, s)

    -- The rename, and the two rows of the file.
    unfoldable pub move_on_disk : FileMovedDto → Stateful (LocalStorage fs.Disk) FileMovedDto
    unfolding refreshed_move
    move_on_disk dto s =
        (do
          on_disk (fs.rename (full s dto.old_rel_path) (full s dto.new_rel_path))
          on_db (update_moved_link c dto)
          here ← refreshed_move dto
          on_db (update_moved_file c here)
          return here)
          s

    -- `proccesMove` of a file that a cloud has moved.
    unfoldable pub install_move : FileMovedDto → Stateful (LocalStorage fs.Disk) FileMovedDto
    unfolding move_on_disk move_tree
    install_move dto s =
        (move_on_disk dto >>= λ here. move_tree (full s dto.new_rel_path) >>= λ _. return here)
          (expect (full s dto.old_rel_path) ChangeType.moved s)

    -- `proccesMove`
    unfoldable pub procces_move : FileMovedDto → Stateful (LocalStorage fs.Disk) FileMovedDto
    unfolding install_move
    procces_move dto =
        if dto.cloud_id == 0
        then (do on_db (update_moved_file c dto); return dto)
        else install_move dto

  -- `proccesDelete`
  unfoldable pub procces_delete : FileDeletedDto → LocalStorage fs.Disk → LocalStorage fs.Disk
  procces_delete dto s =
      if dto.cloud_id == 0 then s else expect (full s dto.rel_path) ChangeType.deleted s
