-- ===== src/Clouds/Dropbox/Feed/Paged.antt =====
-- A poll of Dropbox whose changes do not fit on one page: the second reply is added to the first before
-- it is parsed.

use sync_harbor.Base.{
  ℕ, suc, ◌≡◌, refl, ap, ◌∙◌, String, ◌<>◌, Bool, true, false, Option, none, some, List, [], ◌∷◌,
  ◌++◌, ◌==◌, string_eq, if◌then◌else◌,
}
use sync_harbor.Database.Connection.{Result, ok, err, request_failed, parse_failed, return, ◌>>=◌}
use sync_harbor.Clouds.Json.{JsonValues, parsed, value_text, value_flag}
use sync_harbor.Clouds.Json.Gives.{bind_ok, bind_err}
use sync_harbor.Clouds.Json.Lookups.{parsed-some, parsed-none}
use sync_harbor.Clouds.Service.{Service, Online, Reply, onto, onto-nil, sync_request_onto}
use sync_harbor.Clouds.Dropbox.Requests.{Account}
use sync_harbor.Clouds.Dropbox.Feed.{
  Feed, Pages, Polling, asking, reading, get_delta_token, continue_request, pull, take_pages,
  get_changes,
}

module _ (json : JsonValues) (service : Service) (box : Account) where
  -- The state behind an answer.
  abbrev pub answered : service.World → Feed service.World → Feed service.World
  answered w s = record s { online = record { world = w; side = s.online.side } }

  -- The service answers the request for what comes behind a cursor.
  abbrev pub Answers : service.World → String → Reply → service.World → Type 0
  Answers w cursor reply w' =
      service.answer (continue_request json service box cursor) w ≡ (some reply, w')

  asking-answered :
      (s : Feed service.World) (cursor response : String) (reply : Reply) (w : service.World)
      → Answers s.online.world cursor reply w
      → asking json service box
          (sync_request_onto service response (continue_request json service box cursor))
          s
        ≡ (ok (onto response reply), answered w s)
  unfolding sync_request_onto
  asking-answered s cursor response reply w answer =
      ap
        (λ r.
          let out : Result String × Online service.World = elim r.0 [
            | none ↦ (err request_failed, record { world = r.1; side = s.online.side })
            | some reply ↦ (ok (onto response reply), record { world = r.1; side = s.online.side })
          ] in
          (out.0, record s { online = out.1 }))
        answer

  abbrev page_with :
      ℕ → String → String → List String → json.Json → Polling json service box (Option Pages)
  page_with n cursor whole pages j =
      reading json service box (value_flag json j "has_more" false) >>= λ has_more.
      reading json service box (value_text json j "cursor" cursor) >>= λ new_cursor. elim has_more [
        | true ↦ pull json service box n new_cursor whole (pages ++ (whole ∷ []))
        | false ↦ return (some (record { pages = pages ++ (whole ∷ []); cursor = new_cursor }))
      ]

  abbrev page_behind : ℕ → String → List String → String → Polling json service box (Option Pages)
  page_behind n cursor pages whole =
      reading json service box (parsed json whole) >>= page_with n cursor whole pages

  pull-asks :
      (n : ℕ) (cursor response : String) (reply : Reply) (pages : List String)
      (s : Feed service.World) (w : service.World)
      → Answers s.online.world cursor reply w
      → pull json service box (suc n) cursor response pages s
        ≡ page_behind n cursor pages (onto response reply) (answered w s)
  unfolding pull
  pull-asks n cursor response reply pages s w answer =
      bind_ok
        (asking json service box
          (sync_request_onto service response (continue_request json service box cursor)))
        (page_behind n cursor pages) s (answered w s) (onto response reply)
        (asking-answered s cursor response reply w answer)

  pull-refused :
      (n : ℕ) (cursor response : String) (reply : Reply) (pages : List String)
      (s : Feed service.World) (w : service.World)
      → Answers s.online.world cursor reply w
      → json.parse (onto response reply) ≡ none
      → pull json service box (suc n) cursor response pages s ≡ (err parse_failed, answered w s)
  pull-refused n cursor response reply pages s w answer parse =
      pull-asks n cursor response reply pages s w answer
      ∙ bind_err (reading json service box (parsed json (onto response reply)))
          (page_with n cursor (onto response reply) pages) (answered w s) (answered w s)
          parse_failed (ap (λ r. (r, answered w s)) (parsed-none json (onto response reply) parse))

  -- A reply that is parsed by itself, says that there is more, and has a cursor.
  pub record IsFirstOf (cursor : String) (reply : Reply) (next : String) : Type 0 where
    pub page : json.Json
    pub parses : json.parse reply.text ≡ some page
    pub has_more : value_flag json page "has_more" false ≡ ok true
    pub goes_on : value_text json page "cursor" cursor ≡ ok next

  pull-first :
      (n : ℕ) (cursor : String) (reply : Reply) (next : String) (s : Feed service.World)
      (w : service.World)
      → Answers s.online.world cursor reply w
      → IsFirstOf cursor reply next
      → pull json service box (suc n) cursor "" [] s
        ≡ pull json service box n next (onto "" reply) ((onto "" reply) ∷ []) (answered w s)
  pull-first n cursor reply next s w answer first =
      let s' = answered w s in
      pull-asks n cursor "" reply [] s w answer
      ∙ bind_ok (reading json service box (parsed json (onto "" reply)))
          (page_with n cursor (onto "" reply) []) s' s' first.page
          (ap (λ r. (r, s'))
            (ap (parsed json) (onto-nil reply)
              ∙ parsed-some json reply.text first.page first.parses))
      ∙ ap
          (λ (r : Result Bool).
            (reading json service box r >>= λ has_more.
            reading json service box (value_text json first.page "cursor" cursor) >>= λ new_cursor.
            elim has_more [
              | true ↦ pull json service box n new_cursor (onto "" reply) ((onto "" reply) ∷ [])
              | false ↦ return (some (record { pages = (onto "" reply) ∷ []; cursor = new_cursor }))
            ])
              s')
          first.has_more
      ∙ ap
          (λ (r : Result String).
            (reading json service box r >>= λ new_cursor.
            pull json service box n new_cursor (onto "" reply) ((onto "" reply) ∷ []))
              s')
          first.goes_on

  abbrev token_first : Feed service.World → Polling json service box (Unit {0})
  token_first s =
      if s.page_token == ""
      then (get_delta_token json service box >>= λ t. return tt)
      else return tt

  abbrev take_got : Option Pages → Polling json service box (Option (Unit {0}))
  take_got got = elim got [
    | none ↦ return none
    | some pages ↦ take_pages json service box pages >>= λ u. return (some u)
  ]

  abbrev polled : ℕ → Polling json service box (Option (Unit {0}))
  polled n = (λ (s : Feed service.World). pull json service box n s.page_token "" [] s) >>= take_got

  with_token :
      (s : Feed service.World) → (s.page_token == "") ≡ false → token_first s s ≡ (ok tt, s)
  with_token s token = rw token refl

  onto-behind :
      (response : String) (reply : Reply)
      → reply.retried ≡ false
      → onto response reply ≡ response <> reply.text
  unfolding onto
  onto-behind response reply at_once = rw at_once refl

  -- When the service answers a poll with a reply that is parsed and says that there is more, and the next
  -- request at the first attempt with one that the parser does not take behind the first, the poll throws,
  -- whatever number of pages from two on it is given, and leaves the cursor, the queue and the count of
  -- calls as they were.
  pub second_page_is_not_parsed :
      (n : ℕ) (s : Feed service.World) (reply reply' : Reply) (next : String) (w w' : service.World)
      → (s.page_token == "") ≡ false
      → Answers s.online.world s.page_token reply w
      → IsFirstOf s.page_token reply next
      → Answers w next reply' w'
      → reply'.retried ≡ false
      → json.parse (reply.text <> reply'.text) ≡ none
      → get_changes json service box (suc (suc n)) s ≡ (err parse_failed, answered w' s)
  unfolding get_changes
  second_page_is_not_parsed n s reply reply' next w w' token first is_first second at_once refused =
      bind_ok (token_first s) (λ u. polled (suc (suc n))) s s tt (with_token s token)
      ∙ bind_err
          (λ (s : Feed service.World). pull json service box (suc (suc n)) s.page_token "" [] s)
          take_got s (answered w' s) parse_failed
          (pull-first (suc n) s.page_token reply next s w first is_first
            ∙ pull-refused n next (onto "" reply) reply' ((onto "" reply) ∷ []) (answered w s) w'
                second
                (ap json.parse (onto-behind (onto "" reply) reply' at_once)
                  ∙ ap (λ r. json.parse (r <> reply'.text)) (onto-nil reply)
                  ∙ refused))
