-- ===== src/Clouds/Authorized.antt =====
-- The set-ups of both clouds, and what they tell the cloud of its user.

use sync_harbor.Base.{
  ◌≡◌, refl, Bool, true, List, [], ◌∷◌, any, String, arith, ◌==◌, ==_refl, string_eq,
}
use sync_harbor.Utils.FilePath.{FilePath}
use sync_harbor.Database.Connection.{Codes, ok}
use sync_harbor.Clouds.Json.{JsonValues}
use sync_harbor.Clouds.Request.{
  Request, Side, SetUp, Task, uploads, downloads_new, updates, downloads_update, moves, deletes,
  bearer,
}
use sync_harbor.Clouds.Drive.Requests as DriveRequests
use sync_harbor.Clouds.Dropbox.Requests as BoxRequests

-- The two classes behind `BaseStorage` that ask a cloud.
pub data CloudAccount : Type 0 where
  google_drive : DriveRequests.Account → CloudAccount
  dropbox : BoxRequests.Account → CloudAccount

unfoldable pub token_of : CloudAccount → String
token_of (google_drive drive) = drive.access_token
token_of (dropbox box) = box.access_token

-- The virtual set-ups, with what libcurl makes of a text, which files open and what the database returns.
unfoldable pub cloud_set_up :
    JsonValues → (String → String) → (FilePath → Bool) → Codes → CloudAccount → Task → SetUp
unfolding DriveRequests.set_up BoxRequests.set_up
cloud_set_up json escape opens c (google_drive drive) =
    DriveRequests.set_up json escape opens c drive
cloud_set_up json escape opens c (dropbox box) = BoxRequests.set_up json opens box

-- Whether a header is among those of a request.
unfoldable pub carries : String → List String → Bool
unfolding any
carries header = any (λ h. h == header)

carries-head : (header : String) (rest : List String) → carries header (header ∷ rest) ≡ true
unfolding carries
carries-head header rest = rw (==_refl header) refl

carries-second :
    (header other : String) (rest : List String) → carries header (other ∷ header ∷ rest) ≡ true
unfolding carries
carries-second header other rest = ground (arith, ==_refl header)

module _ (json : JsonValues) (escape : String → String) (opens : FilePath → Bool) (c : Codes)
    (drive : DriveRequests.Account) where
  drive-set_up-carries :
      (task : Task) (side : Side) (r : Request)
      → (DriveRequests.set_up json escape opens c drive task side).0 ≡ ok r
      → carries (bearer drive.access_token) r.headers ≡ true
  unfolding DriveRequests.set_up DriveRequests.setup_upload DriveRequests.setup_download
      DriveRequests.setup_update DriveRequests.setup_move DriveRequests.setup_delete
  drive-set_up-carries (uploads dto) side r e =
      ground (arith, carries-head (bearer drive.access_token) [])
  drive-set_up-carries (downloads_new dto) side r e =
      ground (arith, carries-head (bearer drive.access_token) [])
  drive-set_up-carries (updates dto) side r e = ground (
    arith,
    carries-head (bearer drive.access_token) ("Content-Type: application/octet-stream" ∷ []),
  )
  drive-set_up-carries (downloads_update dto) side r e =
      ground (arith, carries-head (bearer drive.access_token) [])
  drive-set_up-carries (moves dto) side r e = ground (
    arith,
    carries-head (bearer drive.access_token) [],
    carries-second (bearer drive.access_token) "Content-Type: application/json" [],
  )
  drive-set_up-carries (deletes dto) side r e =
      ground (arith, carries-second (bearer drive.access_token) "Content-Type: application/json" [])

module _ (json : JsonValues) (opens : FilePath → Bool) (box : BoxRequests.Account) where
  dropbox-set_up-carries :
      (task : Task) (side : Side) (r : Request)
      → (BoxRequests.set_up json opens box task side).0 ≡ ok r
      → carries (bearer box.access_token) r.headers ≡ true
  unfolding BoxRequests.set_up BoxRequests.setup_upload BoxRequests.setup_download
      BoxRequests.setup_update BoxRequests.setup_move BoxRequests.setup_delete
  dropbox-set_up-carries (uploads dto) side r e = grind (arith, carries-head, carries-second)
  dropbox-set_up-carries (downloads_new dto) side r e = grind (arith, carries-head, carries-second)
  dropbox-set_up-carries (updates dto) side r e = grind (arith, carries-head, carries-second)
  dropbox-set_up-carries (downloads_update dto) side r e =
      grind (arith, carries-head, carries-second)
  dropbox-set_up-carries (moves dto) side r e = grind (arith, carries-head, carries-second)
  dropbox-set_up-carries (deletes dto) side r e = grind (arith, carries-head, carries-second)

-- For each of the six commands and both clouds: a request that its set-up returns carries the access token
-- of the account as a bearer header.
pub requests_are_authorised :
    (json : JsonValues) (escape : String → String) (opens : FilePath → Bool) (c : Codes)
    (cloud : CloudAccount) (task : Task) (side : Side) (r : Request)
    → (cloud_set_up json escape opens c cloud task side).0 ≡ ok r
    → carries (bearer (token_of cloud)) r.headers ≡ true
unfolding token_of cloud_set_up
requests_are_authorised json escape opens c (google_drive drive) =
    drive-set_up-carries json escape opens c drive
requests_are_authorised json escape opens c (dropbox box) = dropbox-set_up-carries json opens box
