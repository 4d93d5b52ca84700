-- ===== src/Neon/Origin.antt =====
-- A key is only used for the key id and the algorithm that it was imported for, and comes from the
-- key set that the cache holds.
use mathlib.Core.Path.{subst}
use workers_auth.Prelude.{
  ℕ, ◌<◌, ◌+◌, ◌*◌, ◌≡◌, ◌⊎◌, ◌∙◌, refl, sym, ap, String, ◌&&◌, Option, none, some, List, [], arith,
  ltb, if◌then◌else◌, length, inl, inr, Bool-cases, find, put, find-put, ◌==◌, eq_iff,
}
use workers_auth.Neon.{JwsAlgorithm, Jwk, JwtPlatform, NeonOptions, sanitize_jwk}
use workers_auth.Neon.Filed.{cache_key_alg, cache_key_kid}
use workers_auth.Neon.Picked.{IsPicked, pick-IsPicked, some_same}
use workers_auth.Neon.Keys.{
  CacheEntry, CachedJwks, JwksResponse, Answers, cache_key, text_of, pick, import_jwk, remember,
  use_jwk, fetch_jwks, load_keys, resolve_key, accepted_keys, fetched, from_kv, refetched, picked,
  loaded, or_load, is_fresh,
}

module _ {K : Type 0} (p : JwtPlatform K) where
  -- The key was imported, under this algorithm, from a key of this set for this key id that suits it.
  pub record IsFor (keys : List Jwk) (kid : String) (alg : JwsAlgorithm) (key : K) : Type 0 where
    pub jwk : Jwk
    pub picked : IsPicked keys kid alg jwk
    pub suits : import_jwk p alg (sanitize_jwk alg jwk) ≡ some key

  -- Every key in the cache comes from the cached key set, for the key id and the algorithm that it
  -- is filed under.
  abbrev pub IsTraced : CacheEntry K → Type 0
  IsTraced entry =
      (kid : Option String) (alg : JwsAlgorithm) (key : K)
      → find (cache_key kid alg) entry.imported ≡ some key
      → IsFor entry.keys (text_of kid) alg key

  pub none-IsTraced : (entry : CacheEntry K) → entry.imported ≡ [] → IsTraced entry
  unfolding find
  none-IsTraced entry empty kid alg key e = absurd (ground (arith, empty, e))

  put-IsTraced :
      (kid : Option String) (alg : JwsAlgorithm) (key : K) (entry : CacheEntry K)
      → IsFor entry.keys (text_of kid) alg key
      → IsTraced entry
      → IsTraced (record entry { imported = put (cache_key kid alg) key entry.imported })
  put-IsTraced kid alg key entry h t kid' alg' key' e =
      let imported = entry.imported in
      elim (Bool-cases (cache_key kid alg == cache_key kid' alg')) [
        | inl f ↦
            let same = (eq_iff (cache_key kid alg) (cache_key kid' alg')).0 f in
            let q : some key ≡ some key' =
              rw f at (sym (find-put (cache_key kid alg) (cache_key kid' alg') key imported) ∙ e) in
            subst (λ (x : JwsAlgorithm). IsFor entry.keys (text_of kid') x key')
              (cache_key_alg kid kid' alg alg' same)
              (subst (λ (k : String). IsFor entry.keys k alg key')
                (cache_key_kid kid kid' alg alg' same)
                (subst (IsFor entry.keys (text_of kid) alg) (some_same key key' q) h))
        | inr f ↦
            t kid' alg' key'
              (rw f at (sym (find-put (cache_key kid alg) (cache_key kid' alg') key imported) ∙ e))
      ]

  -- What an answer leaves: a key of the set that the cache then holds, a cache that is traced, and a
  -- set of which S holds.
  abbrev IsRight :
      (List Jwk → Type 0) → Option String → JwsAlgorithm → Option K × CacheEntry K → Type 0
  IsRight S kid alg out =
      ((key : K) → out.0 ≡ some key → IsFor out.1.keys (text_of kid) alg key)
      × IsTraced out.1
      × S out.1.keys

  abbrev IsLoaded : (List Jwk → Type 0) → Option (List Jwk) × CacheEntry K → Type 0
  IsLoaded S out =
      ((keys : List Jwk) → out.0 ≡ some keys → out.1.keys ≡ keys) × IsTraced out.1 × S out.1.keys

  no_key :
      (S : List Jwk → Type 0) (kid : Option String) (alg : JwsAlgorithm) (entry : CacheEntry K)
      → IsTraced entry
      → S entry.keys
      → IsRight S kid alg (none, entry)
  no_key S kid alg entry t s = (λ key e. absurd (ground (arith, e)), t, s)

module _ {K : Type 0} (p : JwtPlatform K) (o : NeonOptions) (now : ℕ) (S : List Jwk → Type 0) where
  remember-IsRight :
      (kid : Option String) (alg : JwsAlgorithm) (m : Option K) (entry : CacheEntry K)
      → ((key : K) → m ≡ some key → IsFor p entry.keys (text_of kid) alg key)
      → IsTraced p entry
      → S entry.keys
      → IsRight p S kid alg (remember p o now (cache_key kid alg) m entry)
  remember-IsRight kid alg none entry h t s = no_key p S kid alg entry t s
  remember-IsRight kid alg (some key) entry h t s =
      (λ k e. h k e, put-IsTraced p kid alg key entry (h key refl) t, s)

  use_jwk-IsRight :
      (kid : Option String) (alg : JwsAlgorithm) (jwk : Option Jwk) (entry : CacheEntry K)
      → pick kid alg entry.keys ≡ jwk
      → IsTraced p entry
      → S entry.keys
      → IsRight p S kid alg (use_jwk p o now kid alg jwk entry)
  use_jwk-IsRight kid alg none entry e t s = no_key p S kid alg entry t s
  use_jwk-IsRight kid alg (some jwk) entry e t s =
      remember-IsRight kid alg (import_jwk p alg (sanitize_jwk alg jwk)) entry
        (λ key f. record { jwk = jwk; picked = pick-IsPicked kid alg entry.keys jwk e; suits = f })
        t s

  fetched-IsLoaded :
      (keys : Option (List Jwk)) (entry : CacheEntry K)
      → ((k : List Jwk) → keys ≡ some k → S k)
      → IsTraced p entry
      → S entry.keys
      → IsLoaded p S (fetched p o now keys entry)
  fetched-IsLoaded none entry h t s = (λ keys e. absurd (ground (arith, e)), t, s)
  fetched-IsLoaded (some keys) entry h t s = (
    λ k e. some_same keys k e,
    none-IsTraced p (fetched p o now (some keys) entry).1 refl,
    h keys refl,
  )

  fetch_jwks-IsLoaded :
      (response : Option JwksResponse) (entry : CacheEntry K)
      → ((k : List Jwk) → accepted_keys p o now response ≡ some k → S k)
      → IsTraced p entry
      → S entry.keys
      → IsLoaded p S (fetch_jwks p o now response entry)
  unfolding fetch_jwks
  fetch_jwks-IsLoaded response entry h t s =
      fetched-IsLoaded (accepted_keys p o now response) (record entry { last_attempt_at = now }) h t
        s

  refetched-IsRight :
      (kid : Option String) (alg : JwsAlgorithm) (out : Option (List Jwk) × CacheEntry K)
      → IsLoaded p S out
      → IsRight p S kid alg (refetched p o now kid alg out)
  refetched-IsRight kid alg (none, entry) (h, t, s) = no_key p S kid alg entry t s
  refetched-IsRight kid alg (some keys, entry) (h, t, s) =
      use_jwk-IsRight kid alg (pick kid alg keys) entry (ap (pick kid alg) (h keys refl)) t s

  picked-IsRight :
      (kid : Option String) (alg : JwsAlgorithm) (response : Option JwksResponse) (jwk : Option Jwk)
      (entry : CacheEntry K)
      → ((k : List Jwk) → accepted_keys p o now response ≡ some k → S k)
      → pick kid alg entry.keys ≡ jwk
      → IsTraced p entry
      → S entry.keys
      → IsRight p S kid alg (picked p o now kid alg response jwk entry)
  picked-IsRight kid alg response (some jwk) entry h e t s =
      use_jwk-IsRight kid alg (some jwk) entry e t s
  picked-IsRight kid alg response none entry h e t s =
      elim (Bool-cases (ltb now (entry.last_attempt_at + o.min_refetch_interval_sec * 1000))) [
        | inl f ↦ rw f (no_key p S kid alg entry t s)
        | inr f ↦ rw f (
            refetched-IsRight kid alg (fetch_jwks p o now response entry)
              (fetch_jwks-IsLoaded response entry h t s))
      ]

  loaded-IsRight :
      (kid : Option String) (alg : JwsAlgorithm) (response : Option JwksResponse)
      (out : Option (List Jwk) × CacheEntry K)
      → ((k : List Jwk) → accepted_keys p o now response ≡ some k → S k)
      → IsLoaded p S out
      → IsRight p S kid alg (loaded p o now kid alg response out)
  loaded-IsRight kid alg response (none, entry) f (h, t, s) = no_key p S kid alg entry t s
  loaded-IsRight kid alg response (some keys, entry) f (h, t, s) =
      picked-IsRight kid alg response (pick kid alg keys) entry f (ap (pick kid alg) (h keys refl))
        t s

-- Where a key set may come from in one request.
module _ {K : Type 0} (p : JwtPlatform K) (o : NeonOptions) (now : ℕ) (answers : Answers)
    (entry : CacheEntry K) where
  -- It is the set that the cache held, one that KV holds and that is young enough, or one that the
  -- endpoint answered with and that passed every check.
  abbrev pub IsServed : List Jwk → Type 0
  IsServed keys =
      (keys ≡ entry.keys)
      ⊎ (((cached : CachedJwks) × (answers.kv_read ≡ some cached)
            × (now < cached.fetched_at + o.jwks_cache_ttl_sec * 1000)
            × (keys ≡ cached.keys))
          ⊎ ((accepted_keys p o now answers.first_fetch ≡ some keys)
              ⊎ (accepted_keys p o now answers.second_fetch ≡ some keys)))

  from_kv-IsLoaded :
      (cached : Option CachedJwks)
      → ((c : CachedJwks) → cached ≡ some c → answers.kv_read ≡ some c)
      → IsTraced p entry
      → IsLoaded p IsServed (from_kv p o now cached answers.first_fetch entry)
  from_kv-IsLoaded none h t =
      fetch_jwks-IsLoaded p o now IsServed answers.first_fetch entry (λ k e. inr (inr (inl e))) t
        (inl refl)
  from_kv-IsLoaded (some cached) h t = elim (Bool-cases (is_fresh p o now cached.fetched_at)) [
    | inl e ↦ rw e (
      λ keys f. some_same cached.keys keys f,
      none-IsTraced p
          (record entry { keys = cached.keys; fetched_at = cached.fetched_at; imported = [] }) refl,
      inr (inl (cached, h cached refl, ground arith, refl)),
    )
    | inr e ↦ rw e (
        fetch_jwks-IsLoaded p o now IsServed answers.first_fetch entry (λ k f. inr (inr (inl f))) t
          (inl refl))
  ]

  load_keys-IsLoaded : IsTraced p entry → IsLoaded p IsServed (load_keys p o now answers entry)
  unfolding load_keys
  load_keys-IsLoaded t =
      elim (Bool-cases (ltb 0 (length entry.keys) && is_fresh p o now entry.fetched_at)) [
        | inl e ↦ rw (e, load_keys) (λ keys f. some_same entry.keys keys f, t, inl refl)
        | inr e ↦
            rw (e, load_keys)
              (from_kv-IsLoaded (if o.has_cache then answers.kv_read else none)
                (λ c f. ground (arith, f)) t)
      ]

  or_load-IsRight :
      (held : Option K) (kid : Option String) (alg : JwsAlgorithm)
      → find (cache_key kid alg) entry.imported ≡ held
      → IsTraced p entry
      → IsRight p IsServed kid alg (or_load p o now held kid alg answers entry)
  or_load-IsRight (some key) kid alg e t = (λ k f. t kid alg k (e ∙ f), t, inl refl)
  or_load-IsRight none kid alg e t =
      loaded-IsRight p o now IsServed kid alg answers.second_fetch (load_keys p o now answers entry)
        (λ k f. inr (inr (inr f))) (load_keys-IsLoaded t)

  -- Where every imported key of the cache comes from the cached set, for the key id and the algorithm
  -- it is filed under: whatever a request asks for and the network and KV answer, this is so again
  -- afterwards; the key that a token is checked with was imported under the token's algorithm from a
  -- key of the set that the cache then holds, with the token's key id (with none, of the algorithm's
  -- key type); and that set is the one held before, a young enough one from KV, or one that the
  -- endpoint answered with.
  pub resolve_key-IsRight :
      (kid : Option String) (alg : JwsAlgorithm)
      → IsTraced p entry
      → let out = resolve_key p o now kid alg answers entry in
        ((key : K) → out.0 ≡ some key → IsFor p out.1.keys (text_of kid) alg key)
        × IsTraced p out.1
        × IsServed out.1.keys
  unfolding resolve_key
  resolve_key-IsRight kid alg t =
      or_load-IsRight (find (cache_key kid alg) entry.imported) kid alg refl t
