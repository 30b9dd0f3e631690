-- ===== src/Http/Delay.antt =====
-- How long a request waits for its next attempt.
use mathlib.Core.Option.{some-injective}
use Prim.Native.Nat.pow
use sync_harbor.Base.{
  ℕ, zero, suc, ◌+◌, ◌-◌, ◌*◌, ◌^◌, ◌≤◌, ◌<◌, ◌≡◌, sym, ap, ◌∙◌, false, Bool-cases, inl, inr, some,
  arith, ltb,
}
use sync_harbor.Http.{Request, retry_delay, schedule_retry}

next_power : (n : ℕ) → 2 ^ (suc n + 1) ≡ 2 ^ (n + 1) + 2 ^ (n + 1)
next_power n =
    let shift : suc n + 1 ≡ suc (n + 1) = omega arith in
    ap (λ m. 2 ^ m) shift ∙ pow.suc 2 (n + 1) ∙ omega arith

power_above : (n : ℕ) → 0 < n → 2 * n + 1 < 2 ^ (n + 1)
power_above zero p = omega (arith, p)
power_above (suc zero) p = omega arith
power_above (suc (suc n)) p = omega (arith, next_power (suc n), power_above (suc n) (omega arith))

-- For every pair of jitters that the two calls may draw, the delay before an attempt is longer than
-- the one before the attempt that came first.
pub retry_delay_grows :
    (n jitter next_jitter : ℕ)
    → 0 < n
    → jitter ≤ 2 * (n * 1000)
    → next_jitter ≤ 2 * (suc n * 1000)
    → retry_delay n jitter < retry_delay (suc n) next_jitter
unfolding retry_delay
retry_delay_grows n jitter next_jitter p h h' =
    omega (arith, p, h, h', next_power n, power_above n p)

retried :
    (now jitter : ℕ) (r : Request)
    → ltb 6 (suc r.retry_count) ≡ false
    → schedule_retry now jitter r
      ≡ some (record r {
        retry_count = suc r.retry_count;
        timer = now + retry_delay (suc r.retry_count) jitter;
      })
unfolding schedule_retry
retried now jitter r e = ground (arith, e)

-- A request for which `scheduleRetry` returns has been tried again at most six times, and for its
-- `n`-th retry it waits 2 ^ (n + 1) seconds, give or take n.
pub schedule_retry_bounds :
    (now jitter : ℕ) (r r' : Request)
    → jitter ≤ 2 * (suc r.retry_count * 1000)
    → schedule_retry now jitter r ≡ some r'
    → (r'.retry_count ≡ suc r.retry_count)
      × (r'.retry_count ≤ 6)
      × (now + 1000 * 2 ^ (suc r.retry_count + 1) ≤ r'.timer + suc r.retry_count * 1000)
      × (r'.timer ≤ now + 1000 * 2 ^ (suc r.retry_count + 1) + suc r.retry_count * 1000)
unfolding schedule_retry retry_delay
schedule_retry_bounds now jitter r r' h e = elim (Bool-cases (ltb 6 (suc r.retry_count))) [
  | inl stops ↦ absurd (ground (arith, e, stops))
  | inr goes_on ↦
      let enough = power_above (suc r.retry_count) (omega arith) in
      let same = some-injective _ _ (sym (retried now jitter r goes_on) ∙ e) in
      let count : suc r.retry_count ≡ r'.retry_count = ap (λ (q : Request). q.retry_count) same in
      let timer : now + (1000 * 2 ^ (suc r.retry_count + 1) + jitter - suc r.retry_count * 1000)
          ≡ r'.timer =
        ap (λ (q : Request). q.timer) same in
      (
        sym count,
        ground (arith, count, goes_on),
        omega (arith, timer, enough, h),
        omega (arith, timer, enough, h),
      )
]
