-- ===== src/Local/Watcher/Times.antt =====
-- The time that an update gets on its way from the watcher to the database.
use sync_harbor.Base.{ℕ, ◌^◌, ◌≤◌, ◌<◌, ◌≡◌, some, List, arith}
use sync_harbor.Utils.Dto.{FileRecordDto, FileEvent, file_event, local_updated}
use sync_harbor.Database.Connection.{Codes}
use sync_harbor.Local.State.{FileSystem, LocalStorage, from_watcher_time}
use sync_harbor.Local.Handlers.{updated_record}
use sync_harbor.Local.Watcher.{WatcherEvent, noted, renamed_event}

twice_divided : (ns : ℕ) → ns < 2 ^ 63 → from_watcher_time (from_watcher_time ns) ≤ 9
unfolding from_watcher_time
twice_divided ns h = omega arith

module _ (fs : FileSystem) (c : Codes) (clouds : List ℕ) where
  noted_when :
      (disk : fs.Disk) (e : WatcherEvent) (evt : FileEvent)
      → noted fs disk e ≡ some evt
      → evt.when ≡ from_watcher_time e.effect_time
  unfolding noted renamed_event file_event
  noted_when disk e evt h = ground arith

  -- Every event of the watcher becomes an event with its time in seconds, which `handleUpdated` takes
  -- for nanoseconds: the update that it makes of it, for the database and for the clouds, is dated to
  -- the first ten seconds of 1970, whatever 64-bit time the watcher gave.
  pub update_is_dated_1970 :
      (disk : fs.Disk) (e : WatcherEvent) (evt : FileEvent) (rec : FileRecordDto)
      (s : LocalStorage fs.Disk) (sz : ℕ)
      → e.effect_time < 2 ^ 63
      → noted fs disk e ≡ some evt
      → (evt.when ≡ from_watcher_time e.effect_time)
        × ((updated_record fs c clouds evt rec s sz).cloud_file_modified_time ≤ 9)
  unfolding updated_record local_updated
  update_is_dated_1970 disk e evt rec s sz h n =
      let w = noted_when disk e evt n in (w, ground (arith, w, twice_divided e.effect_time h))
