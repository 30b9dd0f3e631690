-- ===== src/Clouds/Drive/Feed.antt =====
-- `GoogleDrive::getDeltaToken` and `getChanges`. `_response` is never cleared between the pages, and a
-- loop over pages that does not end is cut after a number of them.
pub mod Paged
use sync_harbor.Base.{
  ℕ, zero, suc, String, ◌<>◌, Bool, true, false, Option, none, some, List, [], ◌∷◌, ◌++◌, ◌==◌,
  string_eq, if◌then◌else◌,
}
use sync_harbor.Database.Connection.{Result, ok, err, type_failed, Stateful, return, ◌>>=◌, ◌>>◌}
use sync_harbor.Queue.{Queue, push}
use sync_harbor.Clouds.Json.{JsonValues, ◌then_read◌, parsed, get_text, index, value_text}
use sync_harbor.Clouds.Request.{get, no_body, Request, bearer}
use sync_harbor.Clouds.Service.{Service, Online, sync_request, sync_request_onto}
use sync_harbor.Clouds.Drive.Requests.{Account}

-- What the polls of a storage change, and how often they called `_onChange`.
pub record Feed (W J : Type 0) : Type 0 where
  pub online : Online W
  pub page_token : String
  pub events_buff : Queue (List J)
  pub calls : ℕ

-- The pages of one poll, and the last of them.
pub record Pages (J : Type 0) : Type 0 where
  pub pages : List J
  pub last : J

module _ (json : JsonValues) (service : Service) (drive : Account) where
  abbrev pub Polling : Type 0 → Type 0
  Polling A = Stateful (Feed service.World json.Json) A

  abbrev asking : {A : Type 0} → Stateful (Online service.World) A → Polling A
  asking m s = let (r, online) = m s.online in (r, record s { online = online })

  abbrev reading : {A : Type 0} → Result A → Polling A
  reading r s = (r, s)

  abbrev plain_request : String → Request
  plain_request url = record {
    url = drive.api_base_url <> url;
    verb = get;
    headers = bearer drive.access_token ∷ [];
    body = no_body;
    saved_to = none;
  }

  -- `getDeltaToken`
  unfoldable pub get_delta_token : Polling String
  unfolding sync_request parsed index get_text
  get_delta_token = do
    response ← asking (sync_request service (plain_request "/drive/v3/changes/startPageToken"))
    token ←
        reading (
          parsed json response then_read λ j. index json j "startPageToken" then_read get_text json)
    λ s. (ok token, record s { page_token = token })

  -- The request for a page of changes.
  unfoldable pub changes_request : String → Request
  changes_request page_token = plain_request (
      "/drive/v3/changes?pageToken="
      <> (page_token
          <> "&fields=newStartPageToken%2CnextPageToken%2Cchanges%28file%28id%2Ctrashed%2Cname%2CmodifiedTime%2CmimeType%2Cparents%2Cmd5Checksum%29%29&includeItemsFromAllDrives=false&includeRemoved=false&restrictToMyDrive=false&supportsAllDrives=false"))

  -- The loop over the pages, with `_response` as the pages before left it; it looks for the token of
  -- the next page under "nexPageToken".
  unfoldable pub pull : ℕ → String → String → Pages json.Json → Polling (Option (Pages json.Json))
  unfolding changes_request sync_request_onto parsed value_text
  pull zero page_token response got s = (ok (if page_token == "" then some got else none), s)
  pull (suc n) page_token response got s = elim (page_token == "") [
    | true ↦ (ok (some got), s)
    | false ↦
        (do
          whole ← asking (sync_request_onto service response (changes_request page_token))
          changes ← reading (parsed json whole)
          token ← reading (value_text json changes "nexPageToken" "")
          pull n token whole (record { pages = got.pages ++ (changes ∷ []); last = changes }))
          s
  ]

  -- The end of `getChanges`.
  unfoldable pub take_pages : Pages json.Json → Polling (Unit {0})
  unfolding index get_text push
  take_pages got = do
    token ← reading (index json got.last "newStartPageToken" then_read get_text json)
    λ s. (ok tt, record s { page_token = token })
    changes ← reading (index json got.last "changes")
    λ s. (
      ok tt,
      if json.is_empty changes
          then s
          else record s { events_buff = push s.events_buff got.pages; calls = suc s.calls },
    )

  -- `getChanges`; `none` is a poll that is cut.
  unfoldable pub get_changes : ℕ → Polling (Option (Unit {0}))
  unfolding pull take_pages
  get_changes n s =
      (do
        got ← pull n s.page_token "" (record { pages = []; last = json.null })
        elim got [ none ↦ return none | some pages ↦ take_pages pages >>= λ u. return (some u) ])
        s
