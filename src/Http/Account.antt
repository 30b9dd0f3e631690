-- ===== src/Http/Account.antt =====
-- What becomes of the requests of the HTTP client.
use mathlib.Core.Path.{subst}
use mathlib.Core.Option.{some-injective}
use sync_harbor.Base.{
  ℕ, ◌+◌, ◌≡◌, refl, sym, ap, ◌∙◌, Bool, true, false, Option-cases, inl, inr, Option, none, some,
  List, [], ◌∷◌, ◌++◌, length, arith, leb, ◌==◌, nat_eq, if◌then◌else◌,
}
use sync_harbor.Base.Int.{pos, sub_one}
use sync_harbor.Queue.{Queue, push}
use sync_harbor.Http.{
  Request, Client, new_client, schedule_retry, Reply, is_retried, complete_request, check_loop,
  check_delayed_requests,
}
use sync_harbor.Http.Balance.{
  times, weigh, weigh-append, weigh-one, weigh-split, in_client, left_client, History, begins,
  counts, pushes, takes, replies, checks, Balance, Balance-counts, same_Balance, one_leaves_Balance,
  count_request-Balance, push_request-Balance,
}
use sync_harbor.Http.Taking.{take_requests-Balance}

-- What a reply comes to.
data Verdict : Type 0 where
  again gives_up succeeds : Verdict

abbrev verdict : Reply → Verdict
verdict reply =
    if reply.curl_ok
    then (if is_retried reply.http_code
        then again
        else if reply.http_code == 200
        then succeeds
        else gives_up)
    else gives_up

abbrev after_retry : Client → List Request → Option Request → Option Client
after_retry c rest none = none
after_retry c rest (some r) = some (record c { active = rest; delayed = c.delayed ++ (r ∷ []) })

abbrev outcome_of : Client → List Request → Request → List Request → ℕ → ℕ → Verdict → Option Client
outcome_of c before r after now jitter again =
    after_retry c (before ++ after) (schedule_retry now jitter r)
outcome_of c before r after now jitter gives_up = some (record c {
  active = before ++ after;
  active_count = sub_one c.active_count;
  failed = c.failed ++ (r ∷ []);
})
outcome_of c before r after now jitter succeeds = some (record c {
  active = before ++ after;
  active_count = sub_one c.active_count;
  succeeded = c.succeeded ++ (r ∷ []);
})

complete_request-verdict :
    (c : Client) (before after : List Request) (r : Request) (reply : Reply) (now jitter : ℕ)
    → complete_request c before r after reply now jitter
      ≡ outcome_of c before r after now jitter (verdict reply)
unfolding complete_request schedule_retry
complete_request-verdict c before after r reply now jitter = ground arith

schedule_retry-id :
    (now jitter : ℕ) (r r' : Request) → schedule_retry now jitter r ≡ some r' → r'.id ≡ r.id
unfolding schedule_retry
schedule_retry-id now jitter r r' e = ground (arith, e)

outcome_of-Balance :
    {accepted : List Request} (c c' : Client) (before after : List Request) (r : Request)
    (now jitter : ℕ) (v : Verdict)
    → c.active ≡ before ++ (r ∷ after)
    → outcome_of c before r after now jitter v ≡ some c'
    → Balance accepted c
    → Balance accepted c'
outcome_of-Balance {accepted} c c' before after r now jitter again split e b =
    elim (Option-cases (schedule_retry now jitter r)) [
      | inl stops ↦ absurd (ground (arith, e, stops))
      | inr (r', goes_on) ↦
          subst (Balance accepted)
            (some-injective _ _ (sym (ap (after_retry c (before ++ after)) goes_on) ∙ e))
            (same_Balance _ refl
              (λ w. omega (
                arith,
                weigh-split w c.active before after r split,
                weigh-append w c.delayed (r' ∷ []),
                weigh-one w r',
                ap w (schedule_retry-id now jitter r r' goes_on),
              ))
              (λ w. refl) b)
    ]
outcome_of-Balance {accepted} c c' before after r now jitter gives_up split e b =
    subst (Balance accepted) (some-injective _ _ e) (
      one_leaves_Balance _ r refl (λ w. omega (arith, weigh-split w c.active before after r split))
        (λ w. omega (arith, weigh-append w c.failed (r ∷ []), weigh-one w r)) b)
outcome_of-Balance {accepted} c c' before after r now jitter succeeds split e b =
    subst (Balance accepted) (some-injective _ _ e) (
      one_leaves_Balance _ r refl (λ w. omega (arith, weigh-split w c.active before after r split))
        (λ w. omega (arith, weigh-append w c.succeeded (r ∷ []), weigh-one w r)) b)

check_step-weigh :
    (w : ℕ → ℕ) (due : Bool) (r : Request) (q : Queue Request)
    (result : Queue Request × List Request) (k : ℕ)
    → weigh w result.0.items + weigh w result.1 ≡ weigh w (if due then push q r else q).items + k
    → weigh w result.0.items + weigh w (if due then result.1 else r ∷ result.1)
      ≡ weigh w q.items + (w r.id + k)
unfolding push weigh
check_step-weigh w true r q result k e =
    omega (arith, e, weigh-append w q.items (r ∷ []), weigh-one w r)
check_step-weigh w false r q result k e = omega (arith, e)

check_loop-weigh :
    (w : ℕ → ℕ) (now : ℕ) (rs : List Request) (q : Queue Request)
    → weigh w (check_loop now rs q).0.items + weigh w (check_loop now rs q).1
      ≡ weigh w q.items + weigh w rs
unfolding check_loop weigh
check_loop-weigh w now [] q = refl
check_loop-weigh w now (r ∷ rs) q =
    let next = if leb r.timer now then push q r else q in
    check_step-weigh w (leb r.timer now) r q (check_loop now rs next) (weigh w rs)
      (check_loop-weigh w now rs next)

History-Balance : {accepted : List Request} {c : Client} → History accepted c → Balance accepted c
unfolding new_client check_delayed_requests weigh
History-Balance begins = record { counted = refl; accounted = λ w. refl }
History-Balance (counts {c = c} r h) = count_request-Balance c r (History-Balance h)
History-Balance (pushes {c = c} before after r h e) =
    push_request-Balance c before after r e (History-Balance h)
History-Balance (takes {c = c} {c' = c'} h e) = take_requests-Balance c c' e (History-Balance h)
History-Balance (replies {c = c} {c' = c'} before after r reply now jitter h split e) =
    outcome_of-Balance c c' before after r now jitter (verdict reply) split
      (sym (complete_request-verdict c before after r reply now jitter) ∙ e) (History-Balance h)
History-Balance (checks {c = c} now h) =
    same_Balance (check_delayed_requests now c) refl
      (λ w. omega (arith, check_loop-weigh w now c.delayed c.queue)) (λ w. refl) (History-Balance h)

-- In every history of the client, its count is the number of requests that are counted and not yet
-- pushed, queued, active, delayed or lost (popped at the bound and not added). And every id stands among
-- the requests accepted as often as among these and those that failed or succeeded together.
pub count_of_requests :
    {accepted : List Request} {c : Client}
    → History accepted c
    → (c.active_count ≡ pos (length (in_client c)))
      × ((id : ℕ) → times id accepted ≡ times id (in_client c) + times id (left_client c))
count_of_requests h = Balance-counts (History-Balance h)
