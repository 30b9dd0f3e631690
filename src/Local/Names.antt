-- ===== src/Local/Names.antt =====
-- The names of files that the local storage tells apart: `ignoreTmp`, `isDoc` and
-- `thatFileTmpExists` of src/LocalStorage.cpp, and the paths of its downloads.
use Prim.Native.Char.{code}
use Prim.Native.String.{String}
use text.Mathlib.Text.{starts_with}
use sync_harbor.Base.{
  ◌<>◌, Bool, true, ◌||◌, List, [], ◌∷◌, any, ◌==◌, nat_eq, string_eq, if◌then◌else◌,
}
use sync_harbor.Utils.FilePath.{FilePath, filename, parent_path, append_name, join}

-- The name of the temporary file that a download writes starts with it.
abbrev pub tmp_prefix : String
tmp_prefix = ".-tmp-SyncHarbor-"

-- `fn.compare(fn.size() - s.size(), s.size(), s) == 0` behind the test of the sizes.
unfoldable pub ends_with : String → String → Bool
ends_with String.[] suffix = "" == suffix
ends_with (String.◌∷◌ c s) suffix =
    let rest = ends_with s suffix in if String.◌∷◌ c s == suffix then true else rest

abbrev pub ignored_prefixes : List String
ignored_prefixes = tmp_prefix ∷ ".goutputstream-" ∷ ".kate-swp" ∷ ".#" ∷ ".~lock." ∷ []

abbrev pub ignored_suffixes : List String
ignored_suffixes = ".swp" ∷ ".swo" ∷ ".swx" ∷ ".tmp" ∷ ".temp" ∷ ".bak" ∷ ".orig" ∷ "~" ∷ []

unfoldable pub is_tmp_name : String → Bool
unfolding ends_with
is_tmp_name fn = any (starts_with fn) ignored_prefixes || any (ends_with fn) ignored_suffixes

-- `ignoreTmp`
unfoldable pub ignore_tmp : FilePath → Bool
unfolding is_tmp_name filename
ignore_tmp path = is_tmp_name (filename path)

-- `thatFileTmpExists`, over the test whether a path exists. The array of six prefixes has five
-- initialisers, so the sixth is empty.
unfoldable pub that_file_tmp_exists : (FilePath → Bool) → FilePath → Bool
unfolding filename parent_path
that_file_tmp_exists exists path =
    let fn = filename path in
    let pp = parent_path path in
    any (λ p. exists (append_name pp (p <> fn)))
      (tmp_prefix ∷ ".goutputstream-" ∷ ".kate-swp" ∷ ".#" ∷ ".~lock." ∷ "" ∷ [])
    || any (λ s. exists (append_name pp (fn <> s))) ignored_suffixes

-- The text from the last dot on, empty where there is none.
from_last_dot : String → String
from_last_dot String.[] = ""
from_last_dot (String.◌∷◌ c s) =
    let rest = from_last_dot s in
    if rest == "" then (if code c == b'.' then String.◌∷◌ c s else "") else rest

-- `path.extension().string()`: a dot in front starts no extension.
unfoldable pub extension_of : String → String
unfolding from_last_dot
extension_of String.[] = ""
extension_of (String.◌∷◌ c s) = if String.◌∷◌ c s == ".." then "" else from_last_dot s

abbrev document_extensions : List String
document_extensions =
    ".doc" ∷ ".docx" ∷ ".odt" ∷ ".rtf" ∷ ".xls" ∷ ".xlsx" ∷ ".ods" ∷ ".csv" ∷ ".tsv" ∷ ".ppt"
    ∷ ".pptx" ∷ ".odp" ∷ ".gdoc" ∷ ".gsheet" ∷ ".gslide" ∷ ".gdraw" ∷ ".gform" ∷ ".gsite" ∷ ".jam"
    ∷ ".paper" ∷ ".url" ∷ []

-- `isDoc`
unfoldable pub is_doc : FilePath → Bool
unfolding extension_of filename
is_doc path = any (λ ext. extension_of (filename path) == ext) document_extensions

-- Where the download of a file is written before it takes the file's place.
unfoldable pub tmp_path : FilePath → FilePath → FilePath
unfolding join parent_path filename
tmp_path home rel = append_name (join home (parent_path rel)) (tmp_prefix <> filename rel)
