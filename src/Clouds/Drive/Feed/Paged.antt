-- ===== src/Clouds/Drive/Feed/Paged.antt =====
-- A poll of Google Drive whose changes do not fit on one page: the token for the next page stands under
-- "nextPageToken", and only the last page has "newStartPageToken".

use sync_harbor.Base.{
  ℕ, zero, suc, ◌≡◌, refl, ap, ◌∙◌, String, false, Option, none, some, [], ◌∷◌, ◌==◌, string_eq,
}
use sync_harbor.Database.Connection.{Result, ok, err, request_failed, type_failed, return, ◌>>=◌}
use sync_harbor.Clouds.Json.{JsonValues, parsed, get_text, value_text}
use sync_harbor.Clouds.Json.Gives.{bind_ok, bind_err}
use sync_harbor.Clouds.Json.Lookups.{value_text-missing, index-missing, parsed-some}
use sync_harbor.Clouds.Service.{Service, Online, Reply, onto, onto-nil, sync_request_onto}
use sync_harbor.Clouds.Drive.Requests.{Account}
use sync_harbor.Clouds.Drive.Feed.{
  Feed, Pages, Polling, asking, reading, changes_request, pull, take_pages, get_changes,
}

module _ (json : JsonValues) (service : Service) (drive : Account) where
  -- The state behind one answer.
  abbrev pub answered : service.World → Feed service.World json.Json → Feed service.World json.Json
  answered w s = record s { online = record { world = w; side = s.online.side } }

  abbrev only : json.Json → Pages json.Json
  only page = record { pages = page ∷ []; last = page }

  -- A page that is not the last: there is a token for the next page, and no other.
  pub record HasMore (page : json.Json) : Type 0 where
    pub is_object : json.is_null page ≡ false
    pub next_page : json.Json
    pub next : json.member page "nextPageToken" ≡ some (some next_page)
    pub no_start : json.member page "newStartPageToken" ≡ some none
    pub no_other : json.member page "nexPageToken" ≡ some none

  pull-done :
      (n : ℕ) (response : String) (got : Pages json.Json) (s : Feed service.World json.Json)
      → pull json service drive n "" response got s ≡ (ok (some got), s)
  unfolding pull string_eq
  pull-done zero response got s = refl
  pull-done (suc n) response got s = refl

  take_pages-refused :
      (page : json.Json) (s : Feed service.World json.Json)
      → HasMore page
      → json.text json.null ≡ none
      → take_pages json service drive (only page) s ≡ (err type_failed, s)
  unfolding take_pages get_text
  take_pages-refused page s more null_text =
      rw (index-missing json page "newStartPageToken" more.is_object more.no_start, null_text) refl

  abbrev token_behind :
      ℕ → String → json.Json → Polling json service drive (Option (Pages json.Json))
  token_behind n whole changes =
      reading json service drive (value_text json changes "nexPageToken" "") >>= λ token.
      pull json service drive n token whole (only changes)

  abbrev page_behind : ℕ → String → Polling json service drive (Option (Pages json.Json))
  page_behind n whole = reading json service drive (parsed json whole) >>= token_behind n whole

  pull-asks :
      (n : ℕ) (s : Feed service.World json.Json)
      → (s.page_token == "") ≡ false
      → pull json service drive (suc n) s.page_token "" (record { pages = []; last = json.null }) s
        ≡ (asking json service drive
                (sync_request_onto service "" (changes_request json service drive s.page_token))
              >>= page_behind n)
            s
  unfolding pull
  pull-asks n s token = rw (token, pull) refl

  asking-answered :
      (s : Feed service.World json.Json) (reply : Reply) (w : service.World)
      → service.answer (changes_request json service drive s.page_token) s.online.world
        ≡ (some reply, w)
      → asking json service drive
          (sync_request_onto service "" (changes_request json service drive s.page_token))
          s
        ≡ (ok (onto "" reply), answered w s)
  unfolding sync_request_onto
  asking-answered s reply w answer =
      ap
        (λ r.
          let out : Result String × Online service.World = elim r.0 [
            | none ↦ (err request_failed, record { world = r.1; side = s.online.side })
            | some reply ↦ (ok (onto "" reply), record { world = r.1; side = s.online.side })
          ] in
          (out.0, record s { online = out.1 }))
        answer

  pull-first :
      (n : ℕ) (s : Feed service.World json.Json) (reply : Reply) (w : service.World)
      (page : json.Json)
      → (s.page_token == "") ≡ false
      → service.answer (changes_request json service drive s.page_token) s.online.world
        ≡ (some reply, w)
      → json.parse reply.text ≡ some page
      → json.member page "nexPageToken" ≡ some none
      → pull json service drive (suc n) s.page_token "" (record { pages = []; last = json.null }) s
        ≡ (ok (some (only page)), answered w s)
  pull-first n s reply w page token answer parse missing =
      pull-asks n s token
      ∙ bind_ok
          (asking json service drive
            (sync_request_onto service "" (changes_request json service drive s.page_token)))
          (page_behind n) s (answered w s) (onto "" reply) (asking-answered s reply w answer)
      ∙ bind_ok (reading json service drive (parsed json (onto "" reply)))
          (token_behind n (onto "" reply)) (answered w s) (answered w s) page
          (ap (λ r. (r, answered w s))
            (ap (parsed json) (onto-nil reply) ∙ parsed-some json reply.text page parse))
      ∙ bind_ok (reading json service drive (value_text json page "nexPageToken" ""))
          (λ t. pull json service drive n t (onto "" reply) (only page)) (answered w s)
          (answered w s) ""
          (ap (λ r. (r, answered w s)) (value_text-missing json page "nexPageToken" "" missing))
      ∙ pull-done n (onto "" reply) (only page) (answered w s)

  -- Where a null has no text: when the page that the service answers a poll with is parsed and has a
  -- "nextPageToken" and no "newStartPageToken", the poll throws, for whatever number of pages it is given
  -- from one on, and leaves the token, the queue and the count of calls as they were.
  pub second_page_is_never_asked :
      (n : ℕ) (s : Feed service.World json.Json) (reply : Reply) (w : service.World)
      (page : json.Json)
      → (s.page_token == "") ≡ false
      → service.answer (changes_request json service drive s.page_token) s.online.world
        ≡ (some reply, w)
      → json.parse reply.text ≡ some page
      → HasMore page
      → json.text json.null ≡ none
      → get_changes json service drive (suc n) s ≡ (err type_failed, answered w s)
  unfolding get_changes
  second_page_is_never_asked n s reply w page token answer parse more null_text =
      bind_ok
        (λ (s : Feed service.World json.Json).
          pull json service drive (suc n) s.page_token "" (record { pages = []; last = json.null })
            s)
        (λ got. elim got [
          | none ↦ return none
          | some pages ↦ take_pages json service drive pages >>= λ u. return (some u)
        ])
        s (answered w s) (some (only page))
        (pull-first n s reply w page token answer parse more.no_other)
      ∙ bind_err (take_pages json service drive (only page)) (λ u. return (some u)) (answered w s)
          (answered w s) type_failed (take_pages-refused page (answered w s) more null_text)
