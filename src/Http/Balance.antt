-- ===== src/Http/Balance.antt =====
-- Where the requests of the HTTP client are, and what its count counts.
use sync_harbor.Base.{
  ℕ, suc, ◌+◌, ◌≡◌, refl, sym, ap, ◌∙◌, Bool, true, false, some, List, [], ◌∷◌, ◌++◌, length, arith,
  ◌==◌, nat_eq, if◌then◌else◌,
}
use sync_harbor.Base.Int.{pos, add_one, sub_one}
use sync_harbor.Queue.{push}
use sync_harbor.Http.{
  Request, Client, new_client, count_request, push_request, take_requests, Reply, complete_request,
  check_delayed_requests,
}

-- The weights of the ids of requests, added up.
unfoldable pub weigh : (ℕ → ℕ) → List Request → ℕ
weigh w [] = 0
weigh w (r ∷ rs) = w r.id + weigh w rs

-- How often an id stands among requests.
abbrev pub times : ℕ → List Request → ℕ
times id = weigh (λ i. if i == id then 1 else 0)

-- The requests in the client, those that it lost among them.
abbrev pub in_client : Client → List Request
in_client c = c.entering ++ (c.queue.items ++ (c.active ++ (c.delayed ++ c.lost)))

abbrev pub left_client : Client → List Request
left_client c = c.failed ++ c.succeeded

pub weigh-append : (w : ℕ → ℕ) (xs ys : List Request) → weigh w (xs ++ ys) ≡ weigh w xs + weigh w ys
unfolding weigh
weigh-append w [] ys = omega arith
weigh-append w (r ∷ xs) ys = omega (arith, weigh-append w xs ys)

pub weigh-one : (w : ℕ → ℕ) (r : Request) → weigh w (r ∷ []) ≡ w r.id
unfolding weigh
weigh-one w r = omega arith

-- A request between others.
pub weigh-split :
    (w : ℕ → ℕ) (all before after : List Request) (r : Request)
    → all ≡ before ++ (r ∷ after)
    → weigh w all ≡ w r.id + weigh w (before ++ after)
unfolding weigh
weigh-split w all before after r e =
    ap (weigh w) e ∙ omega (arith, weigh-append w before (r ∷ after), weigh-append w before after)

weigh-length : (rs : List Request) → weigh (λ i. 1) rs ≡ length rs
unfolding weigh
weigh-length [] = refl
weigh-length (r ∷ rs) = omega (arith, weigh-length rs)

-- The weights of the places of the client.
abbrev pub weight : (ℕ → ℕ) → Client → ℕ
weight w c =
    weigh w c.entering
    + (weigh w c.queue.items + (weigh w c.active + (weigh w c.delayed + weigh w c.lost)))

abbrev pub weight_left : (ℕ → ℕ) → Client → ℕ
weight_left w c = weigh w c.failed + weigh w c.succeeded

weight_lem : (w : ℕ → ℕ) (c : Client) → weigh w (in_client c) ≡ weight w c
weight_lem w c = omega (
  arith,
  weigh-append w c.entering (c.queue.items ++ (c.active ++ (c.delayed ++ c.lost))),
  weigh-append w c.queue.items (c.active ++ (c.delayed ++ c.lost)),
  weigh-append w c.active (c.delayed ++ c.lost),
  weigh-append w c.delayed c.lost,
)

-- Steps of the worker and of those that submit, with the requests accepted so far.
pub data History : List Request → Client → Type 0 where
  begins : History [] new_client
  counts :
      {accepted : List Request} {c : Client} (r : Request)
      → History accepted c
      → History (if r.has_handle then r ∷ accepted else accepted) (count_request c r)
  pushes :
      {accepted : List Request} {c : Client} (before after : List Request) (r : Request)
      → History accepted c
      → c.entering ≡ before ++ (r ∷ after)
      → History accepted (push_request c before r after)
  takes :
      {accepted : List Request} {c c' : Client}
      → History accepted c
      → take_requests c ≡ some c'
      → History accepted c'
  replies :
      {accepted : List Request} {c c' : Client} (before after : List Request) (r : Request)
      (reply : Reply) (now jitter : ℕ)
      → History accepted c
      → c.active ≡ before ++ (r ∷ after)
      → complete_request c before r after reply now jitter ≡ some c'
      → History accepted c'
  checks :
      {accepted : List Request} {c : Client} (now : ℕ)
      → History accepted c
      → History accepted (check_delayed_requests now c)

pub record Balance (accepted : List Request) (c : Client) : Type 0 where
  pub counted : c.active_count ≡ pos (weight (λ i. 1) c)
  pub accounted : (w : ℕ → ℕ) → weigh w accepted ≡ weight w c + weight_left w c

pub Balance-counts :
    {accepted : List Request} {c : Client}
    → Balance accepted c
    → (c.active_count ≡ pos (length (in_client c)))
      × ((id : ℕ) → times id accepted ≡ times id (in_client c) + times id (left_client c))
Balance-counts {c = c} b = (
  b.counted ∙ ap pos (sym (weight_lem (λ i. 1) c) ∙ weigh-length (in_client c)),
  λ id. omega (
    arith,
    b.accounted (λ i. if i == id then 1 else 0),
    weight_lem (λ i. if i == id then 1 else 0) c,
    weigh-append (λ i. if i == id then 1 else 0) c.failed c.succeeded,
  ),
)

pub same_Balance :
    {accepted : List Request} {c : Client} (c' : Client)
    → c'.active_count ≡ c.active_count
    → ((w : ℕ → ℕ) → weight w c' ≡ weight w c)
    → ((w : ℕ → ℕ) → weight_left w c' ≡ weight_left w c)
    → Balance accepted c
    → Balance accepted c'
same_Balance c' e f g b = record {
  counted = e ∙ b.counted ∙ ap pos (sym (f (λ i. 1)));
  accounted = λ w. omega (arith, b.accounted w, f w, g w);
}

pub one_leaves_Balance :
    {accepted : List Request} {c : Client} (c' : Client) (r : Request)
    → c'.active_count ≡ sub_one c.active_count
    → ((w : ℕ → ℕ) → weight w c ≡ w r.id + weight w c')
    → ((w : ℕ → ℕ) → weight_left w c' ≡ w r.id + weight_left w c)
    → Balance accepted c
    → Balance accepted c'
unfolding sub_one
one_leaves_Balance {c = c} c' r e f g b =
    let more : weight (λ i. 1) c ≡ suc (weight (λ i. 1) c') = omega (arith, f (λ i. 1)) in
    record {
      counted = e ∙ ap sub_one (b.counted ∙ ap pos more);
      accounted = λ w. omega (arith, b.accounted w, f w, g w);
    }

either_Balance :
    {accepted : List Request} {c c' : Client} (r : Request) (has_handle : Bool)
    → Balance accepted c
    → Balance (r ∷ accepted) c'
    → Balance (if has_handle then r ∷ accepted else accepted) (if has_handle then c' else c)
either_Balance r true b b' = b'
either_Balance r false b b' = b

pub count_request-Balance :
    {accepted : List Request} (c : Client) (r : Request)
    → Balance accepted c
    → Balance (if r.has_handle then r ∷ accepted else accepted) (count_request c r)
unfolding count_request add_one weigh
count_request-Balance c r b = either_Balance r r.has_handle b (record {
  counted =
      ap add_one b.counted
      ∙ ap pos (omega (arith, weigh-append (λ i. 1) c.entering (r ∷ []), weigh-one (λ i. 1) r));
  accounted = λ w. omega (arith, b.accounted w, weigh-append w c.entering (r ∷ []), weigh-one w r);
})

pub push_request-Balance :
    {accepted : List Request} (c : Client) (before after : List Request) (r : Request)
    → c.entering ≡ before ++ (r ∷ after)
    → Balance accepted c
    → Balance accepted (push_request c before r after)
unfolding push_request push
push_request-Balance c before after r e b =
    same_Balance (push_request c before r after) refl
      (λ w. omega (
        arith,
        weigh-split w c.entering before after r e,
        weigh-append w c.queue.items (r ∷ []),
        weigh-one w r,
      ))
      (λ w. refl) b
