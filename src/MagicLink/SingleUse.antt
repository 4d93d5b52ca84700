-- ===== src/MagicLink/SingleUse.antt =====
-- A magic link logs in once: over the D1 store, whatever requests and cleanups interleave.
use workers_auth.Prelude.{
  ℕ, ◌+◌, ◌*◌, ◌≤◌, ◌≡◌, String, Bool, false, Option, none, some, List, [], ◌∷◌, arith, inl, inr,
  Bool-cases, Option-cases, leb, if◌then◌else◌, find, find-put, find-erase, find-erase_self, eq_iff,
  ◌==◌,
}
use workers_auth.Request.{looks_like_email}
use workers_auth.Routes.{Answer, broken, nobody, somebody}
use workers_auth.MagicLink.{
  MagicLinkRecord, LinkTable, LinkRequest, LinkWorld, MagicLinkOptions, put_d1, take_d1,
  cleanup_links, get_token, normalize_email, start, accept, is_plausible, verify_link, KvLink,
  take_kv_get, take_kv_delete,
}

-- What requests and the cleanup do, each at its time.
pub data LinkCall : Type 0 where
  begin : (raw_email fresh_token : String) (now : ℕ) → LinkCall
  present : (req : LinkRequest) (now : ℕ) → LinkCall
  clean : (now : ℕ) → LinkCall

abbrev pub is_user : Answer → ℕ
is_user (somebody _) = 1
is_user _ = 0

abbrev pub held : Option MagicLinkRecord → ℕ
held none = 0
held (some _) = 1

is_user_le : (a : Answer) → is_user a ≤ 1
is_user_le (broken e) = omega arith
is_user_le nobody = omega arith
is_user_le (somebody u) = omega arith

clean-held :
    (h : String) (now : ℕ) (links : LinkTable)
    → held (find h (cleanup_links now links).1) ≤ held (find h links)
unfolding cleanup_links find
clean-held h now [] = omega arith
clean-held h now ((k, r) ∷ links) =
    ground (arith, clean-held h now links, Option-cases (find h links))

module _ (o : MagicLinkOptions) where
  abbrev pub started : Option LinkWorld → LinkWorld → LinkWorld
  started none w = w
  started (some after) w = after

  abbrev pub step_link : LinkCall → LinkWorld → LinkWorld
  step_link (begin raw_email t now) w = started (start o raw_email t now w) w
  step_link (present req now) w = record w { links = (verify_link o req now w.links).1 }
  step_link (clean now) w = record w { links = (cleanup_links now w.links).1 }

  unfoldable pub run_links : List LinkCall → LinkWorld → LinkWorld
  run_links [] w = w
  run_links (call ∷ calls) w = run_links calls (step_link call w)

  abbrev shows : String → Option String → Bool
  shows h none = false
  shows h (some t) = o.hash t == h

  -- Does the call log in with a token of this hash?
  abbrev log_in : String → LinkCall → LinkWorld → ℕ
  log_in h (present req now) w =
      if shows h (get_token o.allow_token_in_query req)
      then is_user (verify_link o req now w.links).0
      else 0
  log_in h _ w = 0

  abbrev was_issued : Option LinkWorld → ℕ
  was_issued none = 0
  was_issued (some _) = 1

  -- Does the call issue a token of this hash?
  abbrev issue : String → LinkCall → LinkWorld → ℕ
  issue h (begin raw_email t now) w =
      if o.hash t == h then was_issued (start o raw_email t now w) else 0
  issue h _ w = 0

  pub log_ins : String → List LinkCall → LinkWorld → ℕ
  log_ins h [] w = 0
  log_ins h (call ∷ calls) w = log_in h call w + log_ins h calls (step_link call w)

  pub issues : String → List LinkCall → LinkWorld → ℕ
  issues h [] w = 0
  issues h (call ∷ calls) w = issue h call w + issues h calls (step_link call w)

  begin-held :
      (h raw_email t : String) (now : ℕ) (w : LinkWorld)
      → held (find h (started (start o raw_email t now w) w).links)
        ≤ held (find h w.links) + issue h (begin raw_email t now) w
  unfolding start put_d1
  begin-held h raw_email t now w =
      let r : MagicLinkRecord = record {
        email = normalize_email o raw_email;
        expires_at = now + o.ttl_sec * 1000;
      } in
      ground (
        arith,
        find-put (o.hash t) h r w.links,
        eq_iff (o.hash t) h,
        Option-cases (find (o.hash t) w.links),
        Bool-cases (looks_like_email (normalize_email o raw_email)),
      )

  accept-held : (now : ℕ) (r : Option MagicLinkRecord) → is_user (accept o now r) ≤ held r
  unfolding accept
  accept-held now none = omega arith
  accept-held now (some r) = is_user_le (accept o now (some r))

  present-held :
      (h : String) (req : LinkRequest) (now : ℕ) (w : LinkWorld)
      → log_in h (present req now) w + held (find h (verify_link o req now w.links).1)
        ≤ held (find h w.links)
  unfolding verify_link take_d1
  present-held h req now w = elim (Option-cases (get_token o.allow_token_in_query req)) [
    | inl e ↦ rw (e, verify_link) (omega arith)
    | inr (t, e) ↦ elim (Bool-cases (is_plausible o t)) [
      | inr f ↦ rw (e, verify_link, f) (ground arith)
      | inl f ↦
          rw (e, verify_link, f)
            (ground (
              arith,
              find-erase (o.hash t) h w.links,
              eq_iff (o.hash t) h,
              accept-held now (find (o.hash t) w.links),
            ))
    ]
  ]

  step-held :
      (h : String) (call : LinkCall) (w : LinkWorld)
      → log_in h call w + held (find h (step_link call w).links)
        ≤ held (find h w.links) + issue h call w
  step-held h (begin raw_email t now) w = omega (arith, begin-held h raw_email t now w)
  step-held h (present req now) w = omega (arith, present-held h req now w)
  step-held h (clean now) w = omega (arith, clean-held h now w.links)

  -- However requests and cleanups interleave, the log-ins with the token of a hash are at most the
  -- times that such a token was issued, one more where the table held it before.
  pub log_ins-le-issues :
      (h : String) (calls : List LinkCall) (w : LinkWorld)
      → log_ins h calls w ≤ held (find h w.links) + issues h calls w
  unfolding log_ins issues
  log_ins-le-issues h [] w = omega arith
  log_ins-le-issues h (call ∷ calls) w =
      omega (arith, step-held h call w, log_ins-le-issues h calls (step_link call w))

-- Over KV a token logs in twice when both requests read before either deletes, at any time before
-- KV drops the entry.
pub kv_replay :
    (h : String) (now : ℕ) (entry : KvLink) (kv : List (String × KvLink))
    → find h kv ≡ some entry
    → leb entry.dropped_at now ≡ false
    → (take_kv_get h now kv ≡ some entry.link) × (take_kv_get h now (take_kv_delete h kv) ≡ none)
unfolding take_kv_get take_kv_delete
kv_replay h now entry kv e live = (rw (e, live), rw (find-erase_self h kv))
