-- ===== src/Http.antt =====
-- `HttpClient` of src/Networking.cpp, `ActiveCount` and `RequestHandle::scheduleRetry`. The worker and
-- those that submit run at the same time; each function here is one atomic step of one of them; the
-- increment and the push of `submit` are two.
pub mod Delay
pub mod Balance
pub mod Taking
pub mod Account
use sync_harbor.Base.{
  ℕ, suc, ◌+◌, ◌-◌, ◌*◌, ◌^◌, Bool, true, false, ◌&&◌, ◌||◌, Option, none, some, List, [], ◌∷◌,
  ◌++◌, ltb, leb, ◌==◌, nat_eq, if◌then◌else◌,
}
use sync_harbor.Base.Int.{ℤ, pos, negsuc, add_one, sub_one, is_zero}
use sync_harbor.Queue.{Queue, Popped, waits, gives, ends, empty_queue, push, pop}

-- A command with its `RequestHandle`: whether `_curl` is set, `_retry_count` and `_timer`.
pub record Request : Type 0 where
  pub id : ℕ
  pub has_handle : Bool
  pub retry_count : ℕ
  pub timer : ℕ

-- `entering` are the requests that `submit` has counted and not yet pushed. `lost`, `failed` and `succeeded` are the requests that left the client: popped and not added, given
-- up, and submitted to the dispatcher.
pub record Client : Type 0 where
  pub entering : List Request
  pub queue : Queue Request
  pub active : List Request
  pub delayed : List Request
  pub active_count : ℤ
  pub lost : List Request
  pub failed : List Request
  pub succeeded : List Request

unfoldable pub new_client : Client
unfolding empty_queue
new_client = record {
  entering = [];
  queue = empty_queue;
  active = [];
  delayed = [];
  active_count = pos 0;
  lost = [];
  failed = [];
  succeeded = [];
}

abbrev pub max_concurrent : ℕ
max_concurrent = 120

-- `get() < _MAX_CONCURRENT`
unfoldable pub below_max : ℤ → Bool
below_max (pos n) = ltb n max_concurrent
below_max (negsuc n) = true

-- `submit` after `execute`, up to the increment
unfoldable pub count_request : Client → Request → Client
unfolding add_one
count_request c r =
    if r.has_handle
    then record c { active_count = add_one c.active_count; entering = c.entering ++ (r ∷ []) }
    else c

-- The end of `submit`, for one of those that are counted.
unfoldable pub push_request : Client → List Request → Request → List Request → Client
unfolding push
push_request c before r after = record c { entering = before ++ after; queue = push c.queue r }

-- The loop of `try_pop`: what is added, what is popped and not added, and what stays.
unfoldable pub take_while : Bool → List Request → List Request × List Request × List Request
take_while room [] = ([], [], [])
take_while room (r ∷ rs) =
    let (added, dropped, left) = take_while room rs in
    if room then (r ∷ added, dropped, left) else ([], r ∷ [], rs)

unfoldable pub add_popped : Client → Popped Request → Option Client
add_popped c waits = none
add_popped c ends = some c
add_popped c (gives r q) = some (record c { queue = q; active = c.active ++ (r ∷ []) })

-- The first part of a turn of `largeRequestsWorker`; `none` while `pop` waits.
unfoldable pub take_requests : Client → Option Client
unfolding is_zero pop add_popped take_while below_max
take_requests c =
    if is_zero c.active_count
    then add_popped c (pop c.queue)
    else (let (added, dropped, left) = take_while (below_max c.active_count) c.queue.items in
        some (record c {
          queue = record c.queue { items = left };
          active = c.active ++ added;
          lost = c.lost ++ dropped;
        }))

-- The delay of `scheduleRetry` in milliseconds, with the count raised already and the jitter counted
-- from its least value.
unfoldable pub retry_delay : ℕ → ℕ → ℕ
retry_delay retry_count jitter = 1000 * 2 ^ (retry_count + 1) + jitter - retry_count * 1000

-- `scheduleRetry`; `none` is the exception after too many attempts.
unfoldable pub schedule_retry : ℕ → ℕ → Request → Option Request
unfolding retry_delay
schedule_retry now jitter r =
    let n = suc r.retry_count in
    if ltb 6 n
    then none
    else some (record r { retry_count = n; timer = now + retry_delay n jitter })

-- The `CURLcode` as whether it is `CURLE_OK`, and the HTTP code.
pub record Reply : Type 0 where
  pub curl_ok : Bool
  pub http_code : ℕ

unfoldable pub is_retried : ℕ → Bool
is_retried code = code == 403 || (code == 429 || (code == 408 || (leb 500 code && ltb code 600)))

-- A request that is done, between those before and after it in `_active_handles`; `none` is the
-- exception of `scheduleRetry`, which ends the worker's thread.
unfoldable pub complete_request :
    Client → List Request → Request → List Request → Reply → ℕ → ℕ → Option Client
unfolding is_retried schedule_retry sub_one
complete_request c before r after reply now jitter =
    let rest = before ++ after in
    if reply.curl_ok
    then (if is_retried reply.http_code
        then elim (schedule_retry now jitter r) [
          | none ↦ none
          | some r' ↦ some (record c { active = rest; delayed = c.delayed ++ (r' ∷ []) })
        ]
        else if reply.http_code == 200
        then some (record c {
          active = rest;
          active_count = sub_one c.active_count;
          succeeded = c.succeeded ++ (r ∷ []);
        })
        else some (record c {
          active = rest;
          active_count = sub_one c.active_count;
          failed = c.failed ++ (r ∷ []);
        }))
    else some (record c {
      active = rest;
      active_count = sub_one c.active_count;
      failed = c.failed ++ (r ∷ []);
    })

-- The loop of `checkDelayedRequests`: the queue, and the requests that stay delayed.
unfoldable pub check_loop : ℕ → List Request → Queue Request → Queue Request × List Request
unfolding push
check_loop now [] q = (q, [])
check_loop now (r ∷ rs) q =
    let due = leb r.timer now in
    let (q', later) = check_loop now rs (if due then push q r else q) in
    (q', if due then later else r ∷ later)

-- `checkDelayedRequests`
unfoldable pub check_delayed_requests : ℕ → Client → Client
unfolding check_loop
check_delayed_requests now c =
    let (q, later) = check_loop now c.delayed c.queue in record c { queue = q; delayed = later }
