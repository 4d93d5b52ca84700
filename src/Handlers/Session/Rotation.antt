-- ===== src/Handlers/Session/Rotation.antt =====
-- A login always rotates the session id.
use workers_auth.Prelude.{
  ℕ, ◌≡◌, false, ◌||◌, not, none, some, inl, inr, arith, ltb, Bool-cases, Option-cases, find, erase,
  find-put, find-put_self, find-erase_self, ◌==◌,
}
use workers_auth.Crypto.{sha256_hex}
use workers_auth.Sessions.{Session, SessionRow, create_session, revoke_session, first_row}
use workers_auth.Web.{World, value, User}
use workers_auth.Request.{Request}
use workers_auth.Handlers.{Settings, Fresh}
use workers_auth.Handlers.Session.{
  InternalAuthMeta, create_session_for, store_create, revoke_sid, auth_meta,
}

module _ (s : Settings) (fresh : Fresh) (now : ℕ) where
  -- The row of a session that begins now.
  abbrev pub new_row : (idle absolute : ℕ) → User → InternalAuthMeta → SessionRow
  new_row idle absolute user internal = first_row now (record {
    user_id = user.id;
    subject_type = user.subject_type;
    idle_ttl_sec = idle;
    absolute_ttl_sec = absolute;
    auth = auth_meta false user internal;
  })

  -- A cookie login that is given the request's session ends it: its row is gone, and the new
  -- session, under the fresh id, is the user's.
  pub create_session_for-rotates :
      (idle absolute : ℕ) (previous : Session) (req : Request) (user : User)
      (internal : InternalAuthMeta) (world : World) (session : Session)
      → (create_session_for s fresh now false idle absolute
          (some (some previous))
          req
          user
          internal
          world).0
        ≡ value session
      → (sha256_hex s.crypto fresh.sid == sha256_hex s.crypto previous.sid) ≡ false
      → let out =
          create_session_for s fresh now false idle absolute
            (some (some previous))
            req
            user
            internal
            world in
        let rows = out.1.sessions.rows in
        (session.sid ≡ fresh.sid)
        × (session.user_id ≡ user.id)
        × (find (sha256_hex s.crypto previous.sid) rows ≡ none)
        × (find (sha256_hex s.crypto fresh.sid) rows ≡ some (new_row idle absolute user internal))
  unfolding create_session_for store_create revoke_sid revoke_session create_session
  create_session_for-rotates idle absolute previous req user internal world session h other =
      let old = sha256_hex s.crypto previous.sid in
      let new = sha256_hex s.crypto fresh.sid in
      let rows = erase old world.sessions.rows in
      elim (Bool-cases (user.rate_limit_id == "" || (not (ltb 0 idle) || ltb absolute idle))) [
        | inl b ↦ ground arith
        | inr b ↦ elim (Option-cases (find new rows)) [
          | inr (r, e) ↦ ground arith
          | inl e ↦ ground (
            arith,
            find-put new old (new_row idle absolute user internal) rows,
            find-put_self new (new_row idle absolute user internal) rows,
            find-erase_self old world.sessions.rows,
          )
        ]
      ]
