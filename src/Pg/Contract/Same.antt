-- ===== src/Pg/Contract/Same.antt =====
-- The Postgres store refines the contract as the D1 store does.
use workers_auth.Prelude.{◌≡◌, refl, List, [], ◌∷◌}
use workers_auth.Store.{Store}
use workers_auth.Pg.Contract.{
  StoreCall, call_d1, call_pg, run_calls, hit, reserve, read_limit, refund, hit_breaker,
  read_breaker, put_code, reserve_code, consume_code, create, find_one, touch, list_all, revoke_one,
  revoke_all, get_active, replace, mark_used, reserve_login, lock, reset, read_guard, clean,
}
use workers_auth.Pg.Contract.Single.{
  hit-same, reserve-same, read-same, refund-same, hit_breaker-same, read_breaker-same,
  put_code-same, reserve_code-same, consume-same, create-same, find-same, touch-same, list-same,
  revoke-same, revoke_all-same, get_active-same, mark_used-same, reserve_login-same, lock-same,
  reset-same, read_guard-same,
}
use workers_auth.Pg.Contract.Batch.{replace-same, cleanup-same}

call-same : (c : StoreCall) (s : Store) → call_pg c s ≡ call_d1 c s
unfolding call_pg call_d1
call-same (hit bucket window now) s = rw hit-same
call-same (reserve bucket window now most) s = rw reserve-same
call-same (read_limit bucket window now) s = rw read-same
call-same (refund bucket start) s = rw refund-same
call-same (hit_breaker bucket window now failed) s = rw hit_breaker-same
call-same (read_breaker bucket window now) s = rw read_breaker-same
call-same (put_code r) s = rw put_code-same
call-same (reserve_code email now max_attempts) s = rw reserve_code-same
call-same (consume_code email code_hash) s = rw consume-same
call-same (create r) s = rw create-same
call-same (find_one id) s = rw find-same
call-same (touch id now idle) s = rw touch-same
call-same (list_all account now) s = rw list-same
call-same (revoke_one account id now) s = rw revoke-same
call-same (revoke_all account now except) s = rw revoke_all-same
call-same (get_active account kind) s = rw get_active-same
call-same (replace r options) s = rw replace-same
call-same (mark_used id now material) s = rw mark_used-same
call-same (reserve_login account max_attempts now) s = rw reserve_login-same
call-same (lock account max_attempts now) s = rw lock-same
call-same (reset account now) s = rw reset-same
call-same (read_guard account) s = rw read_guard-same
call-same (clean now horizon) s = rw cleanup-same

-- Over every sequence of calls of the contract, from every store, the Postgres store gives the
-- replies of the D1 store and leaves the same tables, thrown errors and counts included.
pub run_calls-pg_d1 :
    (calls : List StoreCall) (s : Store) → run_calls call_pg calls s ≡ run_calls call_d1 calls s
unfolding run_calls
run_calls-pg_d1 [] s = refl
run_calls-pg_d1 (c ∷ calls) s = rw (call-same c s, run_calls-pg_d1 calls (call_d1 c s).1)
