-- ===== src/Tests/Disk.antt =====
-- A file system in memory, where a path has at most one file or directory.
use sync_harbor.Base.{
  ℕ, ◌+◌, String, Bool, true, false, not, Option, none, some, [], ◌∷◌, map, keep, ◌==◌,
  if◌then◌else◌,
}
use mathlib.Core.Option
use sync_harbor.Base.Dict.{Dict, lookup, contains, insert, erase}
use sync_harbor.Utils.FilePath.{FilePath, path_eq}
use sync_harbor.Local.State.{FileSystem}

pub record Node : Type 0 where
  pub is_directory : Bool
  pub inode : ℕ
  pub text : String
  pub written : ℕ

unfoldable pub move_node : FilePath → FilePath → Dict FilePath Node → Option (Dict FilePath Node)
unfolding lookup insert erase
move_node old new disk = elim (lookup old disk) [
  | none ↦ none
  | some node ↦ some (insert new node (erase old disk))
]

-- A hash that is 1 more than seven times the number of reads.
abbrev pub memory_files : FileSystem
memory_files = record {
  Disk = Dict FilePath Node;
  HashState = ℕ;
  exists = λ disk p. contains p disk;
  is_directory = λ disk p. elim (lookup p disk) [ none ↦ false | some node ↦ node.is_directory ];
  is_regular_file =
      λ disk p. elim (lookup p disk) [ none ↦ false | some node ↦ not node.is_directory ];
  stat = λ disk p. Option.map (λ (node : Node). (1, node.inode)) (lookup p disk);
  contents = λ disk p. Option.map (λ (node : Node). node.text ∷ []) (lookup p disk);
  file_size = λ disk p. Option.map (λ (node : Node). node.inode) (lookup p disk);
  last_write_time = λ disk p. Option.map (λ (node : Node). node.written) (lookup p disk);
  weakly_canonical = λ disk p. some p;
  recursive_entries = λ disk p. keep (λ q. not (q == p)) (map (λ e. e.0) disk);
  rename = move_node;
  remove = λ p disk. some (erase p disk);
  create_directory = λ p disk.
      if contains p disk
      then some (false, disk)
      else some (
        true,
        insert p (record { is_directory = true; inode = 77; text = ""; written = 5 }) disk,
      );
  hash_reset = λ seed. seed + 1;
  hash_update = λ h read. h + 7;
  hash_digest = λ h. h;
}
