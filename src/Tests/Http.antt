-- ===== src/Tests/Http.antt =====
-- The HTTP client: a request that is retried and then succeeds, and one that is lost at the bound.
use sync_harbor.Base.{ℕ, length, ◌+◌, ◌≡◌, refl, true, [], ◌∷◌, nat_eq}
use sync_harbor.Base.Int.{pos, is_zero, add_one}
use sync_harbor.Queue.{push, empty_queue}
use sync_harbor.Http.{
  Request, Client, new_client, count_request, push_request, below_max, take_requests, retry_delay,
  schedule_retry, Reply, complete_request, is_retried,
}
use sync_harbor.Http.Balance.{
  times, in_client, left_client, History, begins, counts, pushes, takes, replies,
}
use sync_harbor.Http.Account.{count_of_requests}

abbrev upload : Request
upload = record { id = 7; has_handle = true; retry_count = 0; timer = 0 }

abbrev too_many : Reply
too_many = record { curl_ok = true; http_code = 429 }

-- Two requests are submitted and taken; the first one is delayed.
abbrev delayed_client : Client
delayed_client = record new_client {
  active_count = pos 2;
  active = record upload { id = 8 } ∷ [];
  delayed = record upload { retry_count = 1; timer = 4500 } ∷ [];
}

delayed-History : History (record upload { id = 8 } ∷ upload ∷ []) delayed_client
unfolding new_client count_request push_request push empty_queue add_one is_zero below_max
    take_requests complete_request is_retried schedule_retry retry_delay nat_eq
delayed-History =
    replies [] (record upload { id = 8 } ∷ []) upload too_many 500 1000
      (takes
        (pushes [] [] (record upload { id = 8 })
          (pushes [] (record upload { id = 8 } ∷ []) upload
            (counts (record upload { id = 8 }) (counts upload begins)) refl)
          refl)
        refl)
      refl refl

count_of_requests_example :
    (delayed_client.active_count ≡ pos (length (in_client delayed_client)))
    × ((id : ℕ)
        → times id (record upload { id = 8 } ∷ upload ∷ [])
          ≡ times id (in_client delayed_client) + times id (left_client delayed_client))
count_of_requests_example = count_of_requests delayed-History
