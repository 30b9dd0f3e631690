-- ===== src/Local/Process/Upload.antt =====
-- What `proccesUpload` leaves of a file that a cloud has, and the event that its rename causes.
use mathlib.Core.Path.{subst}
use sync_harbor.Base.{
  ℕ, ◌≤◌, ◌≡◌, sym, ap, ◌∙◌, true, false, none, some, List, any, find, arith, ◌==◌, ==_refl, nat_eq,
}
use sync_harbor.Utils.FilePath.{FilePath, join}
use sync_harbor.Utils.Dto.{FileRecordDto, word}
use sync_harbor.Database.Tables.{Tables, IsIntact, is_config, is_file_id}
use sync_harbor.Database.Connection.{Codes, ok}
use sync_harbor.Database.Read.{get_file_by_global_id, get_file_by_cloud_and_global_id}
use sync_harbor.Database.Calls.{idle, all_ok}
use sync_harbor.Database.Files.{reads, recorded, add_file_lem}
use sync_harbor.Database.Links.{linked}
use sync_harbor.Database.Pairs.{
  with_pair, add_file_link-add_file, get_file_by_global_id-with_pair, get_link-with_pair,
  get_file_by_file_id-with_pair,
}
use sync_harbor.Local.Names.{ignore_tmp, tmp_path}
use sync_harbor.Local.State.{
  FileSystem, LocalStorage, get_file_id, compute_file_hash, from_watcher_time,
}
use sync_harbor.Local.Handlers.{
  handle_event, handle_as, handle_renamed, rename_with, handle_moved, handle_updated, update_found,
  find_updated, report_updated, is_fake_update,
}
use sync_harbor.Local.Handlers.Temporary.{ignore_tmp-tmp_path}
use sync_harbor.Local.Watcher.{renamed_event, associated_rename}
use sync_harbor.Utils.Dto.{associated_event, local_stored_record}
use sync_harbor.Database.Write.{hash_word}
use sync_harbor.Local.Process.{install, refreshed, install_upload, procces_upload}

module _ (fs : FileSystem) (dto : FileRecordDto) (s : LocalStorage fs.Disk) where
  abbrev final_path : FilePath
  final_path = join s.local_home_dir dto.rel_path

  -- The record of the file that stands on the disk, by what it answers.
  abbrev pub installed : fs.Disk → ℕ → ℕ → FileRecordDto
  installed disk size time = record dto {
    file_id = get_file_id fs disk final_path;
    size = size;
    cloud_hash_check_sum = word (compute_file_hash fs disk final_path);
    cloud_file_modified_time = time;
    cloud_id = s.id;
  }

  -- The disk after the download has taken its place, with the size and time of the file there.
  pub record IsInstalled (disk : fs.Disk) (size time : ℕ) : Type 0 where
    pub renames : fs.rename (tmp_path s.local_home_dir dto.rel_path) final_path s.disk ≡ some disk
    pub sized : fs.file_size disk final_path ≡ some size
    pub timed : fs.last_write_time disk final_path ≡ some time

  module _ (c : Codes) (t : Tables) where
    pub procces_upload_lem :
        (disk : fs.Disk) (size time : ℕ)
        → IsInstalled disk size time
        → all_ok c ≡ true
        → IsIntact t
        → (dto.cloud_id == 0) ≡ false
        → any (is_config dto.cloud_id) t.cloud_configs ≡ true
        → procces_upload fs c dto (record s { db = idle t }) ≡ (
          ok (record (installed disk size time) { global_id = t.next_global_id }),
          record s { db = idle (with_pair (installed disk size time) dto t); disk = disk },
        )
    unfolding procces_upload install_upload install refreshed
    procces_upload_lem disk size time i h v cloud known = ground (
      arith,
      cloud,
      i.renames,
      i.sized,
      i.timed,
      add_file_lem c (installed disk size time) t h,
      add_file_link-add_file c (installed disk size time) dto t h v known,
    )

    -- The download of a file that is new here, where the file system and SQLite report no error, the
    -- tables are intact and the cloud is known: `proccesUpload` returns the record of the file that now
    -- stands at its path, under the next key; `getFileByGlobalId` finds this record under the key, and
    -- `getFileByCloudIdAndGlobalId` what the cloud said of its own file.
    pub upload_is_stored :
        (c' : Codes) (disk : fs.Disk) (size time : ℕ)
        → IsInstalled disk size time
        → all_ok c ≡ true
        → reads c' ≡ true
        → IsIntact t
        → (dto.cloud_id == 0) ≡ false
        → any (is_config dto.cloud_id) t.cloud_configs ≡ true
        → let (r, s') = procces_upload fs c dto (record s { db = idle t }) in
          let g = t.next_global_id in
          (r ≡ ok (record (installed disk size time) { global_id = g }))
          × (s'.disk ≡ disk)
          × ((get_file_by_global_id c' g s'.db).0
              ≡ ok (some (recorded g (installed disk size time))))
          × ((get_file_by_cloud_and_global_id c' dto.cloud_id g s'.db).0
              ≡ ok (some (linked c' (record dto { global_id = g }))))
    upload_is_stored c' disk size time i h r v cloud known =
        let e = procces_upload_lem disk size time i h v cloud known in
        let file = installed disk size time in
        let g = t.next_global_id in
        (
          ap (λ o. o.0) e,
          ap (λ o. o.1.disk) e,
          ap (λ o. (get_file_by_global_id c' g o.1.db).0) e
              ∙ get_file_by_global_id-with_pair c file dto t c' r v,
          ap (λ o. (get_file_by_cloud_and_global_id c' dto.cloud_id g o.1.db).0) e
              ∙ get_link-with_pair c file dto t c' r v,
        )

    module _ (clouds : List ℕ) where
      fake_update :
          (disk : fs.Disk) (size time when : ℕ)
          → from_watcher_time when ≤ time
          → is_fake_update fs c clouds disk final_path
              (recorded t.next_global_id (installed disk size time))
              (from_watcher_time when)
            ≡ true
      unfolding is_fake_update local_stored_record hash_word
      fake_update disk size time when late =
          ground (arith, ==_refl (compute_file_hash fs disk final_path))

      handle_installed :
          (disk : fs.Disk) (size time when : ℕ)
          → reads c ≡ true
          → find (is_file_id (get_file_id fs disk final_path)) t.files ≡ none
          → ignore_tmp final_path ≡ false
          → from_watcher_time when ≤ time
          → let s' = record s {
            db = idle (with_pair (installed disk size time) dto t);
            disk = disk;
          } in
            handle_event fs c clouds
              (renamed_event (tmp_path s.local_home_dir dto.rel_path) when (some final_path))
              s'
            ≡ (ok tt, s')
      unfolding handle_event handle_as handle_renamed rename_with handle_moved handle_updated
          update_found find_updated report_updated renamed_event associated_rename associated_event
      handle_installed disk size time when r free kept late =
          rw (ignore_tmp-tmp_path s.local_home_dir dto.rel_path, kept)
            (ground (
              arith,
              get_file_by_file_id-with_pair c (installed disk size time) dto t c r free,
              fake_update disk size time when late,
            ))

      -- The echo of the download. After `proccesUpload` of it, where no other file has the file id of
      -- the new one: if the watcher's time, as `handleUpdated` reads it, is not after the file's own and
      -- the file is not named like a temporary one, the event that the temporary file was renamed leads
      -- to no change, and to none in the database.
      pub upload_echo :
          (disk : fs.Disk) (size time when : ℕ)
          → IsInstalled disk size time
          → all_ok c ≡ true
          → IsIntact t
          → (dto.cloud_id == 0) ≡ false
          → any (is_config dto.cloud_id) t.cloud_configs ≡ true
          → find (is_file_id (get_file_id fs disk final_path)) t.files ≡ none
          → ignore_tmp final_path ≡ false
          → from_watcher_time when ≤ time
          → let s' = (procces_upload fs c dto (record s { db = idle t })).1 in
            handle_event fs c clouds
              (renamed_event (tmp_path s.local_home_dir dto.rel_path) when (some final_path))
              s'
            ≡ (ok tt, s')
      upload_echo disk size time when i h v cloud known free kept late =
          subst
            (λ s'.
              handle_event fs c clouds
                (renamed_event (tmp_path s.local_home_dir dto.rel_path) when (some final_path)) s'
              ≡ (ok tt, s'))
            (sym (ap (λ o. o.1) (procces_upload_lem disk size time i h v cloud known)))
            (handle_installed disk size time when (ground (arith, h)) free kept late)
