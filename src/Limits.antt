-- ===== src/Limits.antt =====
-- The rate limits and the circuit breaker of src/device-auth/store.ts (`auth_rate_limits`).
-- Each operation is one SQL statement, so it is one function on the table. Times are epoch
-- milliseconds. The source's `window_start <= now - windowMs` is written without the
-- subtraction, which on ℕ would stop at 0.
pub mod Budget
pub mod Hits
use workers_auth.Prelude.{
  ℕ, ◌+◌, ◌-◌, String, Bool, true, false, ◌||◌, ◌&&◌, Option, none, some, leb, ltb, eqb,
  if◌then◌else◌, Table, find, put, select_where, not, count_where,
}

pub record Window : Type 0 where
  pub window_start : ℕ
  pub count : ℕ
  pub failures : ℕ

-- What the statements return: `{ count, windowStart }`.
pub record Hit : Type 0 where
  pub count : ℕ
  pub window_start : ℕ

pub record CircuitBreakerState : Type 0 where
  pub attempts : ℕ
  pub failures : ℕ
  pub window_start : ℕ

-- `window_start <= now - windowMs`
abbrev lapsed : ℕ → ℕ → Window → Bool
lapsed window now r = leb (r.window_start + window) now

abbrev pub hit_of : Window → Hit
hit_of r = record { count = r.count; window_start = r.window_start }

-- `INSERT … VALUES (?1, ?2, 1)`, with the column default `failures = 0`
abbrev opened : ℕ → Window
opened now = record { window_start = now; count = 1; failures = 0 }

-- the `SET` of `ON CONFLICT(bucket) DO UPDATE`
abbrev bump : ℕ → ℕ → Window → Window
bump window now r = record r {
  count = if lapsed window now r then 1 else r.count + 1;
  window_start = if lapsed window now r then now else r.window_start;
}

abbrev bump_row : ℕ → ℕ → Option Window → Window
bump_row window now none = opened now
bump_row window now (some r) = bump window now r

unfoldable pub hit_rate_limit : String → ℕ → ℕ → Table Window → Hit × Table Window
hit_rate_limit bucket window now limits =
    let row = bump_row window now (find bucket limits) in (hit_of row, put bucket row limits)

-- `WHERE window_start <= ?3 OR count < ?4` of the update
abbrev may_reserve : ℕ → ℕ → ℕ → Option Window → Bool
may_reserve window now cap none = true
may_reserve window now cap (some r) = lapsed window now r || ltb r.count cap

unfoldable pub reserve_rate_limit : String → ℕ → ℕ → ℕ → Table Window → Option Hit × Table Window
reserve_rate_limit bucket window now cap limits =
    let row = bump_row window now (find bucket limits) in
    if may_reserve window now cap (find bucket limits)
    then (some (hit_of row), put bucket row limits)
    else (none, limits)

-- `row?.count ?? 0` and `row?.window_start ?? now`
abbrev read_row : ℕ → ℕ → Option Window → Hit
read_row window now none = record { count = 0; window_start = now }
read_row window now (some r) =
    if lapsed window now r then record { count = 0; window_start = now } else hit_of r

unfoldable pub read_rate_limit : String → ℕ → ℕ → Table Window → Hit
read_rate_limit bucket window now limits = read_row window now (find bucket limits)

abbrev refund_row : ℕ → Window → Window
refund_row start r =
    if eqb r.window_start start && ltb 0 r.count then record r { count = r.count - 1 } else r

abbrev refund_found : String → ℕ → Table Window → Option Window → Table Window
refund_found bucket start limits none = limits
refund_found bucket start limits (some r) = put bucket (refund_row start r) limits

unfoldable pub refund_rate_limit : String → ℕ → Table Window → Table Window
refund_rate_limit bucket start limits = refund_found bucket start limits (find bucket limits)

abbrev pub breaker_of : Window → CircuitBreakerState
breaker_of r = record { attempts = r.count; failures = r.failures; window_start = r.window_start }

abbrev breaker_row : ℕ → ℕ → ℕ → Option Window → Window
breaker_row window now failure none = record { window_start = now; count = 1; failures = failure }
breaker_row window now failure (some r) = record (bump window now r) {
  failures = if lapsed window now r then failure else r.failures + failure;
}

unfoldable pub hit_circuit_breaker :
    String → ℕ → ℕ → Bool → Table Window → CircuitBreakerState × Table Window
hit_circuit_breaker bucket window now failed limits =
    let row = breaker_row window now (if failed then 1 else 0) (find bucket limits) in
    (breaker_of row, put bucket row limits)

abbrev read_breaker_row : ℕ → ℕ → Option Window → CircuitBreakerState
read_breaker_row window now none = record { attempts = 0; failures = 0; window_start = now }
read_breaker_row window now (some r) =
    if lapsed window now r
    then record { attempts = 0; failures = 0; window_start = now }
    else breaker_of r

unfoldable pub read_circuit_breaker : String → ℕ → ℕ → Table Window → CircuitBreakerState
read_circuit_breaker bucket window now limits = read_breaker_row window now (find bucket limits)

-- the cleanup's `DELETE … WHERE window_start <= now - rateLimitHorizonMs`
abbrev is_stale : ℕ → ℕ → String × Window → Bool
is_stale horizon now (_, r) = lapsed horizon now r

unfoldable pub cleanup_limits : ℕ → ℕ → Table Window → ℕ × Table Window
cleanup_limits horizon now limits = (
  count_where (is_stale horizon now) limits,
  select_where (λ r. not (is_stale horizon now r)) limits,
)
