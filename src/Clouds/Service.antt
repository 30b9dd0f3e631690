-- ===== src/Clouds/Service.antt =====
-- `HttpClient::syncRequest`: the service of a cloud answers each request and may change. The waits
-- between the attempts for one request are libcurl's and the timer's.
use text.Mathlib.TextLemmas.{nil-append}
use sync_harbor.Base.{◌≡◌, refl, String, ◌<>◌, Bool, true, false, Option, none, some, if◌then◌else◌}
use sync_harbor.Database.Connection.{Method, Result, ok, err, request_failed, Stateful}
use sync_harbor.Clouds.Request.{Request, Side}

-- What the attempts for one request leave in `_response`: `scheduleRetry` clears it, so the text of the
-- last attempt stands behind what was there before only when there was no retry.
pub record Reply : Type 0 where
  pub retried : Bool
  pub text : String

unfoldable pub onto : String → Reply → String
onto response reply = if reply.retried then reply.text else response <> reply.text

pub onto-nil : (reply : Reply) → onto "" reply ≡ reply.text
unfolding onto
onto-nil reply =
    elim reply.retried as (λ b. (if b then reply.text else "" <> reply.text) ≡ reply.text) [
      | true ↦ refl
      | false ↦ nil-append reply.text
    ]

-- How the service answers the attempts for a request; `none` is the throw of `scheduleRetry`.
pub record Service : Type 1 where
  pub World : Type 0
  pub answer : Request → World → Option Reply × World

-- The state of a storage and of the service behind it.
pub record Online (W : Type 0) : Type 0 where
  pub world : W
  pub side : Side

module _ (service : Service) where
  -- A method of a storage that asks the service.
  abbrev pub Asking : Type 0 → Type 0
  Asking A = Stateful (Online service.World) A

  -- `syncRequest` with an empty `_response`.
  unfoldable pub sync_request : Request → Asking String
  sync_request r s =
      let (reply, world) = service.answer r s.world in
      let s' = record s { world = world } in
      elim reply [ none ↦ (err request_failed, s') | some response ↦ (ok response.text, s') ]

  -- `syncRequest` with what the requests before left in `_response`.
  unfoldable pub sync_request_onto : String → Request → Asking String
  unfolding onto
  sync_request_onto response r s =
      let (reply, world) = service.answer r s.world in
      let s' = record s { world = world } in
      elim reply [ none ↦ (err request_failed, s') | some reply ↦ (ok (onto response reply), s') ]

  -- What a storage does without the service.
  abbrev pub offline : {A : Type 0} → Stateful Side A → Asking A
  offline m s = let (r, side) = m s.side in (r, record s { side = side })

  abbrev pub on_db : {A : Type 0} → Method A → Asking A
  on_db m = offline (λ side. let (r, db) = m side.db in (r, record side { db = db }))

  abbrev pub reading : {A : Type 0} → Result A → Asking A
  reading r s = (r, s)
