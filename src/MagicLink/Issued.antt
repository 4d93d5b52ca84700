-- ===== src/MagicLink/Issued.antt =====
-- An issued magic link works until it expires, whatever other links are issued and used meanwhile.
use workers_auth.Prelude.{
  ℕ, ◌+◌, ◌*◌, ◌<◌, ◌≡◌, ◌≢◌, refl, String, true, some, List, [], ◌∷◌, arith, inl, inr, Bool-cases,
  Option-cases, find, find-put, find-erase, find-put_self, find-erase_self, eq_iff, All,
}
use workers_auth.Request.{looks_like_email}
use workers_auth.Routes.{nobody}
use workers_auth.MagicLink.{
  MagicLinkRecord, LinkTable, LinkRequest, LinkWorld, MagicLinkOptions, put_d1, take_d1,
  cleanup_links, get_token, normalize_email, start, accept, user_of, is_plausible, verify_link,
}
use workers_auth.MagicLink.SingleUse.{
  LinkCall, begin, present, clean, run_links, step_link, started,
}

module _ (o : MagicLinkOptions) where
  -- The call does not use the link of this hash, and no cleanup runs after its end.
  abbrev pub Spares : String → ℕ → LinkCall → Type 0
  Spares h end (begin raw_email t now) = Unit
  Spares h end (present req now) =
      (t : String) → get_token o.allow_token_in_query req ≡ some t → o.hash t ≢ h
  Spares h end (clean now) = now < end

  begin-keeps :
      (h raw_email t : String) (now : ℕ) (r : MagicLinkRecord) (w : LinkWorld)
      → find h w.links ≡ some r
      → find h (started o (start o raw_email t now w) w).links ≡ some r
  unfolding start put_d1
  begin-keeps h raw_email t now r w e =
      let fresh : MagicLinkRecord = record {
        email = normalize_email o raw_email;
        expires_at = now + o.ttl_sec * 1000;
      } in
      ground (
        arith,
        find-put (o.hash t) h fresh w.links,
        eq_iff (o.hash t) h,
        Option-cases (find (o.hash t) w.links),
        Bool-cases (looks_like_email (normalize_email o raw_email)),
      )

  present-keeps :
      (h : String) (req : LinkRequest) (now : ℕ) (r : MagicLinkRecord) (links : LinkTable)
      → find h links ≡ some r
      → ((t : String) → get_token o.allow_token_in_query req ≡ some t → o.hash t ≢ h)
      → find h (verify_link o req now links).1 ≡ some r
  unfolding verify_link take_d1
  present-keeps h req now r links e other =
      elim (Option-cases (get_token o.allow_token_in_query req)) [
        | inl f ↦ rw (f, verify_link) e
        | inr (t, f) ↦ elim (Bool-cases (is_plausible o t)) [
          | inr g ↦ rw (f, verify_link, g) e
          | inl g ↦
              rw (f, verify_link, g)
                (ground (arith, find-erase (o.hash t) h links, eq_iff (o.hash t) h, other t f))
        ]
      ]

clean-keeps :
    (h : String) (now : ℕ) (r : MagicLinkRecord) (links : LinkTable)
    → find h links ≡ some r
    → now < r.expires_at
    → find h (cleanup_links now links).1 ≡ some r
unfolding cleanup_links find
clean-keeps h now r [] e lt = e
clean-keeps h now r ((k, q) ∷ links) e lt = ground (arith, clean-keeps h now r links)

module _ (o : MagicLinkOptions) where
  step-keeps :
      (h : String) (call : LinkCall) (r : MagicLinkRecord) (w : LinkWorld)
      → find h w.links ≡ some r
      → Spares o h r.expires_at call
      → find h (step_link o call w).links ≡ some r
  step-keeps h (begin raw_email t now) r w e s = begin-keeps o h raw_email t now r w e
  step-keeps h (present req now) r w e s = present-keeps o h req now r w.links e s
  step-keeps h (clean now) r w e s = clean-keeps h now r w.links e s

  run-keeps :
      (h : String) (calls : List LinkCall) (r : MagicLinkRecord) (w : LinkWorld)
      → find h w.links ≡ some r
      → All (Spares o h r.expires_at) calls
      → find h (run_links o calls w).links ≡ some r
  unfolding run_links
  run-keeps h [] r w e s = e
  run-keeps h (call ∷ calls) r w e (s, ss) =
      run-keeps h calls r (step_link o call w) (step-keeps h call r w e s) ss

  start-finds :
      (raw_email t : String) (now : ℕ) (w after : LinkWorld)
      → start o raw_email t now w ≡ some after
      → find (o.hash t) after.links
        ≡ some (record { email = normalize_email o raw_email; expires_at = now + o.ttl_sec * 1000 })
  unfolding start put_d1
  start-finds raw_email t now w after e =
      let fresh : MagicLinkRecord = record {
        email = normalize_email o raw_email;
        expires_at = now + o.ttl_sec * 1000;
      } in
      ground (
        arith,
        find-put_self (o.hash t) fresh w.links,
        Option-cases (find (o.hash t) w.links),
        Bool-cases (looks_like_email (normalize_email o raw_email)),
      )

  -- What the first and every later request with the token of a stored link come to.
  verify-held :
      (t : String) (req : LinkRequest) (at : ℕ) (r : MagicLinkRecord) (links : LinkTable)
      → get_token o.allow_token_in_query req ≡ some t
      → is_plausible o t ≡ true
      → find (o.hash t) links ≡ some r
      → at < r.expires_at
      → (verify_link o req at links).0 ≡ user_of o o.resolve_user r.email
  unfolding verify_link take_d1 accept
  verify-held t req at r links shown plausible e lt =
      rw (shown, verify_link, plausible, e) (ground arith)

  verify-again :
      (t : String) (req : LinkRequest) (at later : ℕ) (links : LinkTable)
      → get_token o.allow_token_in_query req ≡ some t
      → (verify_link o req later (verify_link o req at links).1).0 ≡ nobody
  unfolding verify_link take_d1 accept
  verify-again t req at later links shown = elim (Bool-cases (is_plausible o t)) [
    | inr f ↦ rw (shown, verify_link, f) refl
    | inl f ↦ rw (shown, verify_link, f, find-erase_self (o.hash t) links) refl
  ]

  -- A link that `start` issued logs in the user of its address before it expires, whatever other
  -- links were issued and used and whatever cleanups ran in between, and a second request with the
  -- same token is refused at any time.
  pub verify-start :
      (raw_email t : String) (now : ℕ) (w after : LinkWorld) (calls : List LinkCall)
      (req : LinkRequest) (at later : ℕ)
      → start o raw_email t now w ≡ some after
      → is_plausible o t ≡ true
      → All (Spares o (o.hash t) (now + o.ttl_sec * 1000)) calls
      → get_token o.allow_token_in_query req ≡ some t
      → at < now + o.ttl_sec * 1000
      → let links = (run_links o calls after).links in
        ((verify_link o req at links).0 ≡ user_of o o.resolve_user (normalize_email o raw_email))
        × ((verify_link o req later (verify_link o req at links).1).0 ≡ nobody)
  verify-start raw_email t now w after calls req at later e plausible spared shown lt =
      let r : MagicLinkRecord = record {
        email = normalize_email o raw_email;
        expires_at = now + o.ttl_sec * 1000;
      } in
      let kept =
        run-keeps (o.hash t) calls r after (start-finds raw_email t now w after e) spared in
      (
        verify-held t req at r (run_links o calls after).links shown plausible kept lt,
        verify-again t req at later (run_links o calls after).links shown,
      )
