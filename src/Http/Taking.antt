-- ===== src/Http/Taking.antt =====
-- What the worker takes from the queue of the HTTP client.
use mathlib.Core.Path.{subst}
use mathlib.Core.List.{append-nil}
use mathlib.Core.Option.{some-injective}
use sync_harbor.Base.{
  ℕ, ◌+◌, ◌≡◌, refl, sym, ap, ◌∙◌, Bool, true, false, Bool-cases, inl, inr, some, List, [], ◌∷◌,
  ◌++◌, arith, nat_eq, if◌then◌else◌,
}
use sync_harbor.Base.Int.{is_zero}
use sync_harbor.Queue.{Popped, waits, gives, ends, pop}
use sync_harbor.Queue.Laws.{pop-fifo}
use sync_harbor.Http.{Request, Client, below_max, take_while, add_popped, take_requests}
use sync_harbor.Http.Balance.{weigh, weigh-append, weigh-one, weigh-split, Balance, same_Balance}

take_while-weigh :
    (w : ℕ → ℕ) (room : Bool) (rs : List Request)
    → let (added, dropped, left) = take_while room rs in
      weigh w added + (weigh w dropped + weigh w left) ≡ weigh w rs
unfolding take_while weigh
take_while-weigh w room [] = omega arith
take_while-weigh w true (r ∷ rs) = omega (arith, take_while-weigh w true rs)
take_while-weigh w false (r ∷ rs) = omega arith

add_popped-Balance :
    {accepted : List Request} (c c' : Client) (p : Popped Request)
    → pop c.queue ≡ p
    → add_popped c p ≡ some c'
    → Balance accepted c
    → Balance accepted c'
unfolding add_popped
add_popped-Balance c c' waits e f b = absurd (ground (arith, f))
add_popped-Balance {accepted} c c' ends e f b = subst (Balance accepted) (some-injective _ _ f) b
add_popped-Balance {accepted} c c' (gives r q) e f b =
    subst (Balance accepted) (some-injective _ _ f) (
      same_Balance _ refl
        (λ w. omega (
          arith,
          weigh-split w c.queue.items [] q.items r (pop-fifo c.queue e),
          weigh-append w c.active (r ∷ []),
          weigh-one w r,
        ))
        (λ w. refl) b)

abbrev pub taken : Client → Client
taken c =
    let (added, dropped, left) = take_while (below_max c.active_count) c.queue.items in
    record c {
      queue = record c.queue { items = left };
      active = c.active ++ added;
      lost = c.lost ++ dropped;
    }

take_requests-idle :
    (c : Client) → is_zero c.active_count ≡ true → take_requests c ≡ add_popped c (pop c.queue)
unfolding take_requests
take_requests-idle c e = ap (λ b. if b then add_popped c (pop c.queue) else some (taken c)) e

pub take_requests-busy :
    (c : Client) → is_zero c.active_count ≡ false → take_requests c ≡ some (taken c)
unfolding take_requests
take_requests-busy c e = ap (λ b. if b then add_popped c (pop c.queue) else some (taken c)) e

taken-Balance :
    {accepted : List Request} (c : Client) → Balance accepted c → Balance accepted (taken c)
taken-Balance c b =
    let (added, dropped, left) = take_while (below_max c.active_count) c.queue.items in
    same_Balance (taken c) refl
      (λ w. omega (
        arith,
        take_while-weigh w (below_max c.active_count) c.queue.items,
        weigh-append w c.active (take_while (below_max c.active_count) c.queue.items).0,
        weigh-append w c.lost (take_while (below_max c.active_count) c.queue.items).1,
      ))
      (λ w. refl) b

pub take_requests-Balance :
    {accepted : List Request} (c c' : Client)
    → take_requests c ≡ some c'
    → Balance accepted c
    → Balance accepted c'
take_requests-Balance {accepted} c c' e b = elim (Bool-cases (is_zero c.active_count)) [
  | inl idle ↦ add_popped-Balance c c' (pop c.queue) refl (sym (take_requests-idle c idle) ∙ e) b
  | inr busy ↦
      subst (Balance accepted) (some-injective _ _ (sym (take_requests-busy c busy) ∙ e))
        (taken-Balance c b)
]

take_while-room : (rs : List Request) → take_while true rs ≡ (rs, [], [])
unfolding take_while
take_while-room [] = refl
take_while-room (r ∷ rs) = ap (λ t. (r ∷ t.0, t.1, t.2)) (take_while-room rs)

-- While the client is not idle and its count is below 120, taking requests makes the whole queue
-- active, in order, and loses none.
pub take_requests_below :
    (c : Client)
    → is_zero c.active_count ≡ false
    → below_max c.active_count ≡ true
    → take_requests c
      ≡ some
          (record c { queue = record c.queue { items = [] }; active = c.active ++ c.queue.items })
take_requests_below c busy below =
    take_requests-busy c busy ∙ ap some (rw (below, take_while-room c.queue.items, append-nil) refl)
