-- ===== src/Bearer/Minted.antt =====
-- A session minted in `response` transport is accepted from the header that carries it.
use workers_auth.Prelude.{
  ℕ, ◌*◌, ◌+◌, ◌<◌, ◌≡◌, ◌∙◌, ap, String, true, false, ◌||◌, not, none, some, arith, ltb,
  Bool-cases, Option-cases, inl, inr, find, find-put_self, ◌==◌,
}
use workers_auth.Crypto.{sha256_hex}
use workers_auth.Csrf.{given}
use workers_auth.Sessions.{SessionRow, create_session, get_session, first_row, row_revoked}
use workers_auth.Web.{World, value, User, BearerGrant}
use workers_auth.Request.{Request}
use workers_auth.Handlers.{Settings, Fresh, response}
use workers_auth.Handlers.Manage.{session_to_user}
use workers_auth.Handlers.Session.{
  InternalAuthMeta, create_session_for, store_create, auth_meta, mint_session, get_bound,
  read_bearer_session,
}
use workers_auth.Bearer.{bearer_session_token, read_bearer_session_id, verify_bearer}
use workers_auth.Bearer.Accepted.{IsSid, bearer_header, read-bearer_header}

-- The user as a session keeps it: an empty address is none.
abbrev pub stored : User → User
stored user = record user { email = given user.email }

module _ (s : Settings) (fresh : Fresh) (now : ℕ) where
  -- The row of a bearer session that begins now.
  abbrev pub bearer_row : User → InternalAuthMeta → SessionRow
  bearer_row user internal = first_row now (record {
    user_id = user.id;
    subject_type = user.subject_type;
    idle_ttl_sec = s.bearer_ttl_sec;
    absolute_ttl_sec = s.bearer_ttl_sec;
    auth = auth_meta true user internal;
  })

  minted :
      (req : Request) (user : User) (internal : InternalAuthMeta) (world : World)
      (grant : BearerGrant)
      → s.transport ≡ response
      → (mint_session s fresh now req user internal world).0 ≡ value (some grant)
      → let sessions = (mint_session s fresh now req user internal world).1.sessions in
        (grant.sid ≡ fresh.sid)
        × (grant.expires_at ≡ now + s.bearer_ttl_sec * 1000)
        × (find (sha256_hex s.crypto fresh.sid) sessions.rows ≡ some (bearer_row user internal))
        × (sessions.revocations ≡ world.sessions.revocations)
  unfolding mint_session create_session_for store_create create_session
  minted req user internal world grant mode h =
      let ttl = s.bearer_ttl_sec in
      elim (Bool-cases (user.rate_limit_id == "" || (not (ltb 0 ttl) || ltb ttl ttl))) [
        | inl b ↦ ground (arith, mode)
        | inr b ↦ elim (Option-cases (find (sha256_hex s.crypto fresh.sid) world.sessions.rows)) [
          | inr (r, e) ↦ ground (arith, mode)
          | inl e ↦ ground (
            arith,
            mode,
            find-put_self (sha256_hex s.crypto fresh.sid) (bearer_row user internal)
                world.sessions.rows,
          )
        ]
      ]

  -- The user of a live bearer row that was not minted on a device.
  verify-live :
      (sid : String) (at : ℕ) (req : Request) (user : User) (internal : InternalAuthMeta)
      (world : World)
      → req.bearer_sid ≡ some sid
      → internal.device_id ≡ none
      → find (sha256_hex s.crypto sid) world.sessions.rows ≡ some (bearer_row user internal)
      → row_revoked
          (sha256_hex s.crypto)
          (sha256_hex s.crypto sid)
          at
          (bearer_row user internal)
          world.sessions.revocations
        ≡ false
      → at < now + s.bearer_ttl_sec * 1000
      → (verify_bearer s at req world).0 ≡ value (some (stored user))
  unfolding verify_bearer read_bearer_session get_bound get_session session_to_user
  verify-live sid at req user internal world shown free row alive lt =
      rw (shown, row, alive) (ground (arith, free))

  -- A session that is minted in `response` transport, outside a device, under a session id of the
  -- shape that a token carries, is accepted as the user it was minted for (an empty email address,
  -- which is not stored, is absent), until it expires or is revoked, by the provider of bearer
  -- sessions from the header that carries its token.
  pub verify-mint_session :
      (at : ℕ) (req next : Request) (user : User) (internal : InternalAuthMeta) (world : World)
      (grant : BearerGrant)
      → s.transport ≡ response
      → IsSid fresh.sid
      → internal.device_id ≡ none
      → (mint_session s fresh now req user internal world).0 ≡ value (some grant)
      → next.bearer_sid
        ≡ read_bearer_session_id (some (bearer_header (bearer_session_token grant.sid)))
      → at < grant.expires_at
      → row_revoked
          (sha256_hex s.crypto)
          (sha256_hex s.crypto fresh.sid)
          at
          (bearer_row user internal)
          world.sessions.revocations
        ≡ false
      → (verify_bearer s at next (mint_session s fresh now req user internal world).1).0
        ≡ value (some (stored user))
  verify-mint_session at req next user internal world grant mode sid free h shown lt alive =
      let (same, ends, row, kept) = minted req user internal world grant mode h in
      verify-live fresh.sid at next user internal _
        (shown
          ∙ (ap (λ id. read_bearer_session_id (some (bearer_header (bearer_session_token id)))) same
              ∙ read-bearer_header fresh.sid sid))
        free row (rw kept alive) (rw ends at lt)
