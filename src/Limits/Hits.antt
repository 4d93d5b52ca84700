-- ===== src/Limits/Hits.antt =====
-- What `hitRateLimit` and the circuit breaker promise over the hits of one window.
use workers_auth.Prelude.{
  ℕ, suc, ◌+◌, ◌-◌, ◌≤◌, ◌<◌, String, ◌≡◌, Bool, true, Option, none, some, List, [], ◌∷◌, arith,
  leb, if◌then◌else◌, Table, find, put, find-put_self, min, All, length,
}
use workers_auth.Limits.{
  Window, Hit, hit_of, opened, bump_row, lapsed, hit_rate_limit, read_rate_limit,
  hit_circuit_breaker, read_circuit_breaker, breaker_row, reserve_rate_limit, refund_rate_limit,
  refund_row,
}

-- How many of the hits on `bucket` at the given times pass the handler's `count <= limit`.
pub passed : String → ℕ → ℕ → List ℕ → Table Window → ℕ
passed bucket window limit [] limits = 0
passed bucket window limit (now ∷ times) limits =
    let (hit, limits') = hit_rate_limit bucket window now limits in
    let rest = passed bucket window limit times limits' in
    if leb hit.count limit then suc rest else rest

hit_live :
    (bucket : String) (window now : ℕ) (limits : Table Window) (r : Window)
    → find bucket limits ≡ some r
    → now < r.window_start + window
    → hit_rate_limit bucket window now limits ≡ (
      hit_of (record r { count = r.count + 1 }),
      put bucket (record r { count = r.count + 1 }) limits,
    )
unfolding hit_rate_limit
hit_live bucket window now limits r e h = ground arith

passed_live :
    (bucket : String) (window limit deadline : ℕ) (times : List ℕ) (limits : Table Window)
    (r : Window)
    → find bucket limits ≡ some r
    → deadline ≤ r.window_start + window
    → All (λ t. t < deadline) times
    → passed bucket window limit times limits ≡ min (length times) (limit - r.count)
unfolding passed
passed_live bucket window limit deadline [] limits r e d h = omega arith
passed_live bucket window limit deadline (now ∷ times) limits r e d (h, hs) = ground (
  arith,
  hit_live bucket window now limits r e,
  find-put_self bucket (record r { count = r.count + 1 }) limits,
  passed_live bucket window limit deadline times
      (put bucket (record r { count = r.count + 1 }) limits) (record r { count = r.count + 1 }),
)

-- No window of the bucket is open: there is no row, or its window has lapsed.
abbrev is_closed : ℕ → ℕ → Option Window → Bool
is_closed window now none = true
is_closed window now (some r) = lapsed window now r

abbrev reopened : ℕ → Option Window → Window
reopened now none = opened now
reopened now (some r) = record r { count = 1; window_start = now }

hit_closed :
    (bucket : String) (window now : ℕ) (limits : Table Window)
    → is_closed window now (find bucket limits) ≡ true
    → hit_rate_limit bucket window now limits ≡ (
      record { count = 1; window_start = now },
      put bucket (reopened now (find bucket limits)) limits,
    )
unfolding hit_rate_limit
hit_closed bucket window now limits h = ground arith

-- Of the hits in one window exactly the first `limit` pass, whatever row the window replaces.
pub passed-eq-min :
    (bucket : String) (window limit now : ℕ) (times : List ℕ) (limits : Table Window)
    → is_closed window now (find bucket limits) ≡ true
    → All (λ t. t < now + window) times
    → passed bucket window limit (now ∷ times) limits ≡ min (length (now ∷ times)) limit
unfolding passed
passed-eq-min bucket window limit now times limits e h = ground (
  arith,
  hit_closed bucket window now limits e,
  find-put_self bucket (reopened now (find bucket limits)) limits,
  passed_live bucket window limit (now + window) times
      (put bucket (reopened now (find bucket limits)) limits) (reopened now (find bucket limits)),
)

-- A slot that is reserved and given back leaves what the bucket reads as before.
pub refund-reserve :
    (bucket : String) (window most now : ℕ) (limits : Table Window) (slot : Hit)
    → (reserve_rate_limit bucket window now most limits).0 ≡ some slot
    → let (_, reserved) = reserve_rate_limit bucket window now most limits in
      (read_rate_limit bucket window now
        (refund_rate_limit bucket slot.window_start reserved)).count
      ≡ (read_rate_limit bucket window now limits).count
unfolding reserve_rate_limit refund_rate_limit read_rate_limit
refund-reserve bucket window most now limits slot h =
    let row = bump_row window now (find bucket limits) in
    ground (
      arith,
      find-put_self bucket row limits,
      find-put_self bucket (refund_row row.window_start row) (put bucket row limits),
    )

-- One checked verification for each outcome, at its time.
pub run_breaker : String → ℕ → List (ℕ × Bool) → Table Window → Table Window
run_breaker bucket window [] limits = limits
run_breaker bucket window ((now, failed) ∷ checks) limits =
    run_breaker bucket window checks (hit_circuit_breaker bucket window now failed limits).1

abbrev pub failed_count : List (ℕ × Bool) → ℕ
failed_count [] = 0
failed_count ((_, failed) ∷ checks) = (if failed then 1 else 0) + failed_count checks

breaker_live :
    (bucket : String) (window now : ℕ) (failed : Bool) (limits : Table Window) (r : Window)
    → find bucket limits ≡ some r
    → now < r.window_start + window
    → (hit_circuit_breaker bucket window now failed limits).1
      ≡ put bucket
          (record r { count = r.count + 1; failures = r.failures + (if failed then 1 else 0) })
          limits
unfolding hit_circuit_breaker
breaker_live bucket window now failed limits r e h = ground arith

run_breaker_live :
    (bucket : String) (window deadline : ℕ) (checks : List (ℕ × Bool)) (limits : Table Window)
    (r : Window)
    → find bucket limits ≡ some r
    → deadline ≤ r.window_start + window
    → All (λ c. c.0 < deadline) checks
    → find bucket (run_breaker bucket window checks limits)
      ≡ some (record r {
        count = r.count + length checks;
        failures = r.failures + failed_count checks;
      })
unfolding run_breaker
run_breaker_live bucket window deadline [] limits r e d h = ground arith
run_breaker_live bucket window deadline ((now, failed) ∷ checks) limits r e d (h, hs) = ground (
  arith,
  breaker_live bucket window now failed limits r e,
  find-put_self bucket
      (record r { count = r.count + 1; failures = r.failures + (if failed then 1 else 0) }) limits,
  run_breaker_live bucket window deadline checks
      (put bucket
        (record r { count = r.count + 1; failures = r.failures + (if failed then 1 else 0) })
        limits)
      (record r { count = r.count + 1; failures = r.failures + (if failed then 1 else 0) }),
)

-- After the checks of one window the breaker reads how many there were and how many failed.
pub read-run_breaker :
    (bucket : String) (window start now : ℕ) (failed : Bool) (checks : List (ℕ × Bool))
    (limits : Table Window)
    → is_closed window start (find bucket limits) ≡ true
    → All (λ c. c.0 < start + window) checks
    → now < start + window
    → read_circuit_breaker bucket window now
        (run_breaker bucket window ((start, failed) ∷ checks) limits)
      ≡ record {
        attempts = length ((start, failed) ∷ checks);
        failures = failed_count ((start, failed) ∷ checks);
        window_start = start;
      }
unfolding run_breaker read_circuit_breaker hit_circuit_breaker
read-run_breaker bucket window start now failed checks limits e h l =
    let failure : ℕ = if failed then 1 else 0 in
    let row = breaker_row window start failure (find bucket limits) in
    ground (
      arith,
      find-put_self bucket row limits,
      run_breaker_live bucket window (start + window) checks (put bucket row limits) row,
    )
