-- ===== src/Pg/Sessions/Same.antt =====
-- The Postgres session store is the D1 store without a revocation list.
use workers_auth.Prelude.{
  ℕ, ◌≡◌, refl, String, ◌&&◌, ◌||◌, Option, none, some, List, [], ◌∷◌, arith, inl, inr, Bool-cases,
  Option-cases, ltb, leb, Table, find,
}
use workers_auth.Sessions.{
  Session, NewSession, SessionRow, SessionTable, create_session, get_session, touch_session,
  revoke_session, revoke_all_for_user, cleanup_sessions,
}
use workers_auth.Pg.{select, update, delete}
use workers_auth.Pg.Sessions.{
  create_session_pg, get_session_pg, touch_session_pg, revoke_session_pg, revoke_all_for_user_pg,
  cleanup_sessions_pg,
}
use workers_auth.Pg.Contract.Rows.{put_found, erase_absent}

-- The calls of `SessionStore`, with the fresh token and the time of each.
pub data SessionCall : Type 0 where
  create : (sid : String) (now : ℕ) (input : NewSession) → SessionCall
  get : (sid : String) (now : ℕ) → SessionCall
  touch : (sid : String) (now idle : ℕ) → SessionCall
  revoke : (sid : String) → SessionCall
  revoke_all : (user_id : String) (now : ℕ) → SessionCall
  clean : (now : ℕ) → SessionCall

-- A session or none; a thrown error; nothing; a number of rows.
pub data SessionReply : Type 0 where
  thrown done : SessionReply
  session : Option Session → SessionReply
  number : ℕ → SessionReply

abbrev pub plain : Table SessionRow → SessionTable
plain rows = record { rows = rows; revocations = none }

module _ (hash : String → String) where
  abbrev made_d1 : Option (Session × SessionTable) → SessionTable → SessionReply × SessionTable
  made_d1 none t = (thrown, t)
  made_d1 (some (x, t')) t = (session (some x), t')

  unfoldable pub session_d1 : SessionCall → SessionTable → SessionReply × SessionTable
  session_d1 (create sid now input) t = made_d1 (create_session hash sid now input t) t
  session_d1 (get sid now) t = let (x, t') = get_session hash sid now t in (session x, t')
  session_d1 (touch sid now idle) t = (done, touch_session hash sid now idle t)
  session_d1 (revoke sid) t = (done, revoke_session hash sid t)
  session_d1 (revoke_all user_id now) t = (done, revoke_all_for_user user_id now t)
  session_d1 (clean now) t = let (n, t') = cleanup_sessions now t in (number n, t')

  abbrev made_pg :
      Option (Session × Table SessionRow) → Table SessionRow → SessionReply × Table SessionRow
  made_pg none rows = (thrown, rows)
  made_pg (some (x, rows')) rows = (session (some x), rows')

  unfoldable pub session_pg : SessionCall → Table SessionRow → SessionReply × Table SessionRow
  session_pg (create sid now input) rows = made_pg (create_session_pg hash sid now input rows) rows
  session_pg (get sid now) rows =
      let (x, rows') = get_session_pg hash sid now rows in (session x, rows')
  session_pg (touch sid now idle) rows = (done, touch_session_pg hash sid now idle rows)
  session_pg (revoke sid) rows = (done, revoke_session_pg hash sid rows)
  session_pg (revoke_all user_id now) rows = (done, revoke_all_for_user_pg user_id rows)
  session_pg (clean now) rows = let (n, rows') = cleanup_sessions_pg now rows in (number n, rows')

  -- The replies, and the rows afterwards.
  unfoldable pub run_d1 : List SessionCall → SessionTable → List SessionReply × SessionTable
  unfolding session_d1
  run_d1 [] t = ([], t)
  run_d1 (c ∷ calls) t =
      let (reply, after) = session_d1 c t in
      let (replies, last) = run_d1 calls after in (reply ∷ replies, last)

  unfoldable pub run_pg : List SessionCall → Table SessionRow → List SessionReply × Table SessionRow
  unfolding session_pg
  run_pg [] rows = ([], rows)
  run_pg (c ∷ calls) rows =
      let (reply, after) = session_pg c rows in
      let (replies, last) = run_pg calls after in (reply ∷ replies, last)

  abbrev Agrees : SessionReply × SessionTable → SessionReply × Table SessionRow → Type 0
  Agrees d pg = d ≡ (pg.0, plain pg.1)

  create-Agrees :
      (sid : String) (now : ℕ) (input : NewSession) (rows : Table SessionRow)
      → Agrees
          (session_d1 (create sid now input) (plain rows))
          (session_pg (create sid now input) rows)
  unfolding session_d1 session_pg create_session create_session_pg
  create-Agrees sid now input rows = elim (Option-cases (find (hash sid) rows)) [
    | inl e ↦ rw e (ground arith)
    | inr (r, e) ↦ rw e (ground arith)
  ]

  get-Agrees :
      (sid : String) (now : ℕ) (rows : Table SessionRow)
      → Agrees (session_d1 (get sid now) (plain rows)) (session_pg (get sid now) rows)
  unfolding session_d1 session_pg get_session get_session_pg select delete
  get-Agrees sid now rows = elim (Option-cases (find (hash sid) rows)) [
    | inl e ↦ rw (e, get_session_pg, get_session)
    | inr (r, e) ↦ elim (Bool-cases (leb r.idle_expires_at now || leb r.absolute_expires_at now)) [
      | inl f ↦ rw (e, f, get_session_pg, get_session, e)
      | inr f ↦ rw (e, f, get_session_pg, get_session)
    ]
  ]

  touch-Agrees :
      (sid : String) (now idle : ℕ) (rows : Table SessionRow)
      → Agrees (session_d1 (touch sid now idle) (plain rows)) (session_pg (touch sid now idle) rows)
  unfolding session_d1 session_pg touch_session touch_session_pg update
  touch-Agrees sid now idle rows = elim (Option-cases (find (hash sid) rows)) [
    | inl e ↦ rw e
    | inr (r, e) ↦ elim (Bool-cases (ltb now r.idle_expires_at && ltb now r.absolute_expires_at)) [
      | inl f ↦ rw (e, f)
      | inr f ↦ rw (e, f, put_found (hash sid) r rows e)
    ]
  ]

  revoke-Agrees :
      (sid : String) (rows : Table SessionRow)
      → Agrees (session_d1 (revoke sid) (plain rows)) (session_pg (revoke sid) rows)
  unfolding session_d1 session_pg revoke_session revoke_session_pg delete
  revoke-Agrees sid rows = elim (Option-cases (find (hash sid) rows)) [
    | inl e ↦ rw (e, erase_absent (hash sid) rows e)
    | inr (r, e) ↦ rw e
  ]

  call-Agrees :
      (c : SessionCall) (rows : Table SessionRow)
      → Agrees (session_d1 c (plain rows)) (session_pg c rows)
  unfolding session_d1 session_pg revoke_all_for_user revoke_all_for_user_pg cleanup_sessions
      cleanup_sessions_pg
  call-Agrees (create sid now input) rows = create-Agrees sid now input rows
  call-Agrees (get sid now) rows = get-Agrees sid now rows
  call-Agrees (touch sid now idle) rows = touch-Agrees sid now idle rows
  call-Agrees (revoke sid) rows = revoke-Agrees sid rows
  call-Agrees (revoke_all user_id now) rows = refl
  call-Agrees (clean now) rows = refl

  -- Over every sequence of calls the Postgres session store gives the replies of a D1 store without
  -- a revocation list, and leaves the same rows.
  pub run_pg-run_d1 :
      (calls : List SessionCall) (rows : Table SessionRow)
      → run_d1 calls (plain rows) ≡ ((run_pg calls rows).0, plain (run_pg calls rows).1)
  unfolding run_d1 run_pg
  run_pg-run_d1 [] rows = refl
  run_pg-run_d1 (c ∷ calls) rows =
      rw (call-Agrees c rows, run_pg-run_d1 calls (session_pg c rows).1)
