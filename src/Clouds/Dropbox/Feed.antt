-- ===== src/Clouds/Dropbox/Feed.antt =====
-- `Dropbox::getDeltaToken` and `getChanges`. `_response` is never cleared between the pages, and a loop
-- over pages that does not end is cut after a number of them.
pub mod Paged
use sync_harbor.Base.{
  ℕ, zero, suc, String, ◌<>◌, Bool, true, false, ◌||◌, Option, none, some, List, [], ◌∷◌, ◌++◌,
  ◌==◌, string_eq, if◌then◌else◌, not,
}
use sync_harbor.Utils.FilePath.{FilePath}
use sync_harbor.Utils.Texts.{path_text}
use sync_harbor.Database.Connection.{Result, ok, err, type_failed, Stateful, return, ◌>>=◌, ◌>>◌}
use sync_harbor.Queue.{Queue, push}
use sync_harbor.Clouds.Json.{
  JsonValues, ◌then_read◌, parsed, get_text, index, value_text, value_flag,
}
use sync_harbor.Clouds.Request.{post, post_fields, Request, bearer}
use sync_harbor.Clouds.Service.{Service, Online, sync_request, sync_request_onto}
use sync_harbor.Clouds.Dropbox.Requests.{Account}
use sync_harbor.Clouds.Dropbox.Changes.{entries_of}

-- What the polls of a storage change, and how often they called `_onChange`.
pub record Feed (W : Type 0) : Type 0 where
  pub online : Online W
  pub page_token : String
  pub events_buff : Queue (List String)
  pub calls : ℕ

-- The pages of one poll, and the cursor behind them.
pub record Pages : Type 0 where
  pub pages : List String
  pub cursor : String

module _ (json : JsonValues) (service : Service) (box : Account) where
  abbrev pub Polling : Type 0 → Type 0
  Polling A = Stateful (Feed service.World) A

  abbrev asking : {A : Type 0} → Stateful (Online service.World) A → Polling A
  asking m s = let (r, online) = m s.online in (r, record s { online = online })

  abbrev reading : {A : Type 0} → Result A → Polling A
  reading r s = (r, s)

  abbrev json_request : String → List (String × json.Json) → Request
  json_request url members = record {
    url = url;
    verb = post;
    headers = bearer box.access_token ∷ "Content-Type: application/json" ∷ [];
    body = post_fields (json.dump (json.object members));
    saved_to = none;
  }

  -- The request for the latest cursor.
  unfoldable pub cursor_request : Request
  unfolding path_text
  cursor_request = json_request "https://api.dropboxapi.com/2/files/list_folder/get_latest_cursor" (
      ("path", json.string (path_text box.home_path))
      ∷ ("recursive", json.boolean true)
      ∷ ("include_media_info", json.boolean false)
      ∷ ("include_deleted", json.boolean true)
      ∷ ("include_has_explicit_shared_members", json.boolean false)
      ∷ [])

  -- `getDeltaToken`
  unfoldable pub get_delta_token : Polling String
  unfolding cursor_request sync_request parsed index get_text
  get_delta_token = do
    response ← asking (sync_request service cursor_request)
    token ←
        reading (parsed json response then_read λ j. index json j "cursor" then_read get_text json)
    λ s. (ok token, record s { page_token = token })

  -- The request for what comes behind a cursor.
  unfoldable pub continue_request : String → Request
  continue_request cursor =
      json_request "https://api.dropboxapi.com/2/files/list_folder/continue"
        (("cursor", json.string cursor) ∷ [])

  -- The loop over the pages, with `_response` as the pages before left it.
  unfoldable pub pull : ℕ → String → String → List String → Polling (Option Pages)
  unfolding continue_request sync_request_onto parsed value_flag value_text
  pull zero cursor response pages s = (ok none, s)
  pull (suc n) cursor response pages s =
      (do
        whole ← asking (sync_request_onto service response (continue_request cursor))
        j ← reading (parsed json whole)
        has_more ← reading (value_flag json j "has_more" false)
        new_cursor ← reading (value_text json j "cursor" cursor)
        elim has_more [
          | true ↦ pull n new_cursor whole (pages ++ (whole ∷ []))
          | false ↦ return (some (record { pages = pages ++ (whole ∷ []); cursor = new_cursor }))
        ])
        s

  -- Whether a page has an entry.
  unfoldable pub any_entries : List String → Result Bool
  unfolding parsed entries_of
  any_entries [] = ok false
  any_entries (raw ∷ pages) =
      let rest = any_entries pages in
      parsed json raw then_read λ j. elim (json.member j "entries") [
        | none ↦ err type_failed
        | some none ↦ rest
        | some (some entries) ↦ if json.is_empty entries then rest else ok true
      ]

  -- The end of `getChanges`.
  unfoldable pub take_pages : Pages → Polling (Unit {0})
  unfolding any_entries push
  take_pages got = do
    λ s. (ok tt, record s { page_token = got.cursor })
    found ← reading (any_entries got.pages)
    λ s. (
      ok tt,
      if found
          then record s { events_buff = push s.events_buff got.pages; calls = suc s.calls }
          else s,
    )

  -- `getChanges`; `none` is a poll that is cut.
  unfoldable pub get_changes : ℕ → Polling (Option (Unit {0}))
  unfolding get_delta_token pull take_pages
  get_changes n s =
      (do
        (if s.page_token == "" then (get_delta_token >>= λ t. return tt) else return tt)
        got ← λ s. pull n s.page_token "" [] s
        elim got [ none ↦ return none | some pages ↦ take_pages pages >>= λ u. return (some u) ])
        s
