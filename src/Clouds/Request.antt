-- ===== src/Clouds/Request.antt =====
-- What a set-up puts into a `RequestHandle`, and the parts of a storage that it reads and changes. The
-- transfer itself is libcurl's.
use sync_harbor.Base.{String, ◌<>◌, Bool, Option, List, string_eq, if◌then◌else◌}
use sync_harbor.Utils.Kinds.{ChangeType}
use sync_harbor.Utils.FilePath.{FilePath}
use sync_harbor.Utils.Dto.{FileRecordDto, FileUpdatedDto, FileMovedDto, FileDeletedDto}
use sync_harbor.Database.Connection.{Connection, ok, request_failed, Stateful, return, throw}
use sync_harbor.Registry.{Registry, add}

pub data Verb : Type 0 where
  get post patch : Verb

-- Nothing, the text of `POSTFIELDS`, the file that is read, or the two parts of a form: its metadata,
-- the file and the type of that.
pub data Body : Type 0 where
  no_body : Body
  post_fields : String → Body
  file_stream : FilePath → Body
  mime_post : String → FilePath → String → Body

-- `saved_to` is the file that the response is written to.
pub record Request : Type 0 where
  pub url : String
  pub verb : Verb
  pub headers : List String
  pub body : Body
  pub saved_to : Option FilePath

-- The database and `_expected_events` of a storage.
pub record Side : Type 0 where
  pub db : Connection
  pub expected_events : Registry String

-- A set-up, which may throw.
abbrev pub SetUp : Type 0
SetUp = Stateful Side Request

-- One of the six commands for a cloud, whose `execute` calls the set-up of its kind.
pub data Task : Type 0 where
  uploads downloads_new : FileRecordDto → Task
  updates downloads_update : FileUpdatedDto → Task
  moves : FileMovedDto → Task
  deletes : FileDeletedDto → Task

-- `_expected_events.add(key, ct)`
abbrev pub expect : String → ChangeType → Stateful Side (Unit {0})
expect key ct s = (ok tt, record s { expected_events = add key ct s.expected_events })

-- `setFileStream` of a file, which throws if it does not open.
abbrev pub open_stream : (FilePath → Bool) → FilePath → Stateful Side (Unit {0})
open_stream opens path = if opens path then return tt else throw request_failed

abbrev pub bearer : String → String
bearer access_token = "Authorization: Bearer " <> access_token
