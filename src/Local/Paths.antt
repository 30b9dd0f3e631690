-- ===== src/Local/Paths.antt =====
-- `createPath` and `initialFiles` of src/LocalStorage.cpp.
use sync_harbor.Base.{
  ℕ, zero, suc, ◌-◌, String, Bool, true, false, Option, none, some, List, [], ◌∷◌, ◌==◌, length,
  if◌then◌else◌,
}
use sync_harbor.Utils.Kinds.{EntryType, entry_type_eq, ChangeType}
use sync_harbor.Utils.FilePath.{
  FilePath, join, append_name, relative, normalize_path, lexically_relative,
}
use sync_harbor.Utils.Dto.{FileRecordDto, local_new_record}
use sync_harbor.Database.Connection.{ok, err, file_system_failed, Stateful, return, ◌>>=◌}
use sync_harbor.Local.State.{
  FileSystem, LocalStorage, require, expect, get_file_id, compute_file_hash, entry_type,
}

-- The first elements, all of them where there are fewer.
unfoldable pub take : ℕ → List String → List String
take zero xs = []
take (suc n) [] = []
take (suc n) (x ∷ xs) = x ∷ take n xs

module _ (fs : FileSystem) where
  -- The record of a directory that `createPath` made.
  unfoldable pub directory_record : FilePath → Stateful (LocalStorage fs.Disk) FileRecordDto
  unfolding get_file_id
  directory_record accum s =
      (do
        time ← require (fs.last_write_time s.disk accum)
        return (
            local_new_record EntryType.directory (lexically_relative accum s.local_home_dir) 0 time
              0 (get_file_id fs s.disk accum)))
        s

  -- What `createPath` does after `create_directory`: a directory that was there is skipped.
  unfoldable pub segment_made :
      FilePath
      → Stateful (LocalStorage fs.Disk) (List FileRecordDto)
      → Option (Bool × fs.Disk)
      → Stateful (LocalStorage fs.Disk) (List FileRecordDto)
  unfolding directory_record
  segment_made here rest none s = (err file_system_failed, s)
  segment_made here rest (some (false, disk)) s = rest (record s { disk = disk })
  segment_made here rest (some (true, disk)) s =
      (directory_record here >>= λ dto.
      (λ s. rest (expect here ChangeType.created s)) >>= λ others. return (dto ∷ others))
        (record s { disk = disk })

  -- The loop of `createPath`.
  unfoldable pub create_segments :
      FilePath → List String → Stateful (LocalStorage fs.Disk) (List FileRecordDto)
  unfolding segment_made
  create_segments accum [] s = (ok [], s)
  create_segments accum (seg ∷ missing) s =
      let here = append_name accum seg in
      let rest = create_segments here missing in
      segment_made here rest (fs.create_directory here s.disk) s

  -- `createPath`
  unfoldable pub create_path :
      FilePath → FilePath → Stateful (LocalStorage fs.Disk) (List FileRecordDto)
  unfolding create_segments take
  create_path path missing s =
      let segs = (normalize_path path).names in
      let prefix = relative (take (length segs - length missing.names) segs) in
      create_segments (join s.local_home_dir prefix) missing.names s

  -- The record of an entry of the home directory.
  unfoldable pub initial_record : FilePath → LocalStorage fs.Disk → Option FileRecordDto
  unfolding entry_type compute_file_hash get_file_id
  initial_record p s =
      let t = entry_type fs s.disk p in
      let is_dir = t == EntryType.directory in
      elim (fs.last_write_time s.disk p) [
        | none ↦ none
        | some mtime ↦ elim (if is_dir then some 0 else fs.file_size s.disk p) [
          | none ↦ none
          | some size ↦ some (
              local_new_record t (lexically_relative p s.local_home_dir) size mtime
                (if is_dir then 0 else compute_file_hash fs s.disk p) (get_file_id fs s.disk p))
        ]
      ]

  -- The loop of `initialFiles`.
  unfoldable pub initial_records :
      List FilePath → LocalStorage fs.Disk → Option (List FileRecordDto)
  unfolding initial_record
  initial_records [] s = some []
  initial_records (p ∷ ps) s = elim (initial_record p s) [
    | none ↦ none
    | some dto ↦ elim (initial_records ps s) [ none ↦ none | some dtos ↦ some (dto ∷ dtos) ]
  ]

  -- `initialFiles`; `none` is an exception.
  unfoldable pub initial_files : LocalStorage fs.Disk → Option (List FileRecordDto)
  unfolding initial_records
  initial_files s = initial_records (fs.recursive_entries s.disk s.local_home_dir) s
