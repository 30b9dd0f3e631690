-- ===== src/Utils/Texts.antt =====
-- `path.string()`, the paths that texts are, and `convertCloudTime` of src/utils.cpp.
use Prim.Native.Char.{code}
use Prim.Native.String.{String}
use sync_harbor.Base.{ℕ, ◌<>◌, Bool, false, List, [], ◌∷◌, ◌==◌, nat_eq, string_eq, if◌then◌else◌}
use sync_harbor.Utils.FilePath.{FilePath}

joined : List String → String
joined [] = ""
joined (name ∷ []) = name
joined (name ∷ other ∷ names) = name <> ("/" <> joined (other ∷ names))

-- `path.string()`
unfoldable pub path_text : FilePath → String
unfolding joined
path_text p = if p.rooted then "/" <> joined p.names else joined p.names

-- A character in front of the first name.
into_name : String → List String → List String
into_name c [] = c ∷ []
into_name c (name ∷ names) = (c <> name) ∷ names

-- The texts between the slashes.
between : String → List String
unfolding into_name
between String.[] = "" ∷ []
between (String.◌∷◌ c s) =
    let rest = between s in if code c == b'/' then "" ∷ rest else into_name (String.◌∷◌ c "") rest

non_empty : List String → List String
non_empty [] = []
non_empty (name ∷ names) = let rest = non_empty names in if name == "" then rest else name ∷ rest

starts_with_slash : String → Bool
starts_with_slash String.[] = false
starts_with_slash (String.◌∷◌ c s) = code c == b'/'

-- `std::filesystem::path(text)` of a text with no slash at its end.
unfoldable pub path_of_text : String → FilePath
unfolding between non_empty starts_with_slash
path_of_text s = record { rooted = starts_with_slash s; names = non_empty (between s) }

-- `pop_back` of a `Z`.
unfoldable pub without_zone : String → String
without_zone String.[] = ""
without_zone (String.◌∷◌ c s) =
    let rest = without_zone s in
    if s == "" then (if code c == b'Z' then "" else String.◌∷◌ c s) else String.◌∷◌ c rest

-- `resize` to the first dot.
unfoldable pub before_dot : String → String
before_dot String.[] = ""
before_dot (String.◌∷◌ c s) =
    let rest = before_dot s in if code c == b'.' then "" else String.◌∷◌ c rest

-- `convertCloudTime`, over `std::get_time` of its format and `timegm`.
unfoldable pub convert_cloud_time : (String → ℕ) → String → ℕ
unfolding without_zone before_dot
convert_cloud_time calendar datetime = calendar (before_dot (without_zone datetime))
