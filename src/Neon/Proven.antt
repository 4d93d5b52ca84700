-- ===== src/Neon/Proven.antt =====
-- Whom a JWT lets in, and how long an imported key is used.
use workers_auth.Prelude.{
  ℕ, ◌≤◌, ◌≡◌, ◌≢◌, refl, sym, ap, String, true, false, ◌||◌, Option, none, some, List, [], ◌∷◌,
  arith, ltb, length, inl, inr, Bool-cases, Option-cases, find, ◌==◌, eq_iff,
}
use workers_auth.Web.{User}
use workers_auth.Cookies.{is_empty}
use workers_auth.Neon.{
  JwsAlgorithm, alg_name, JwtPayload, JwtPlatform, NeonOptions, DecodedJwt, is_allowed, shares,
}
use workers_auth.Neon.Keys.{CacheEntry, Answers, cache_key, text_of, resolve_key}
use workers_auth.Neon.Origin.{IsFor, IsTraced, IsServed, resolve_key-IsRight}
use workers_auth.Neon.Verify.{
  decode_jwt, check_claims, not_expired, has_begun, is_text, user_of, verify_neon, named_alg,
  signed_by, with_alg, with_jwt,
}

-- The claims of a token that is accepted at this time.
pub record IsValid (o : NeonOptions) (now : ℕ) (payload : JwtPayload) (u : User) : Type 0 where
  pub sub : String
  pub subject : payload.sub ≡ some sub
  pub filled_in : sub ≢ ""
  pub issuer : is_text o now payload.iss o.issuer ≡ true
  pub audience : shares payload.aud o.audiences ≡ true
  pub expires : not_expired o now payload.exp ≡ true
  pub begun : has_begun o now payload.nbf ≡ true
  pub acts_as : u ≡ user_of o now sub payload

check_claims-IsValid :
    (o : NeonOptions) (now : ℕ) (payload : JwtPayload) (u : User)
    → check_claims o now payload ≡ some u
    → IsValid o now payload u
unfolding check_claims
check_claims-IsValid o now payload u h = elim (Option-cases payload.sub) [
  | inl e ↦ absurd (ground (arith, h, e))
  | inr (sub, e) ↦ record {
    sub = sub;
    subject = e;
    filled_in = λ f. ground (arith, h, e, eq_iff sub "", f);
    issuer = ground (arith, h);
    audience = ground (arith, h);
    expires = ground (arith, h);
    begun = ground (arith, h);
    acts_as = ground (arith, h, e);
  }
]

is_allowed_lem :
    (name : String) (algorithms : List JwsAlgorithm) (alg : JwsAlgorithm)
    → is_allowed name algorithms ≡ some alg
    → alg_name alg ≡ name
unfolding is_allowed
is_allowed_lem name [] alg h = absurd (ground (arith, h))
is_allowed_lem name (a ∷ algorithms) alg h = elim (Bool-cases (alg_name a == name)) [
  | inl e ↦ ground (arith, h, e, eq_iff (alg_name a) name)
  | inr e ↦ is_allowed_lem name algorithms alg (ground (arith, h, e))
]

small : (token : List ℕ) → (is_empty token || ltb 8192 (length token)) ≡ false → length token ≤ 8192
small token e = ground (arith, e)

named_alg_lem :
    (o : NeonOptions) (name : Option String) (alg : JwsAlgorithm)
    → named_alg o name ≡ some alg
    → name ≡ some (alg_name alg)
named_alg_lem o none alg h = absurd (ground (arith, h))
named_alg_lem o (some name) alg h = ap some (sym (is_allowed_lem name o.algorithms alg h))

module _ {K : Type 0} (p : JwtPlatform K) (o : NeonOptions) (now : ℕ) (answers : Answers) where
  -- What stands behind a token that is accepted: an allowed algorithm; a key that was imported for
  -- that algorithm from a key of the key set with the token's key id; where that set comes from; a
  -- signature that this key verifies; and valid claims.
  pub record NeonProof (token : List ℕ) (entry : CacheEntry K) (u : User) : Type 0 where
    pub jwt : DecodedJwt
    pub alg : JwsAlgorithm
    pub key : K
    pub short : length token ≤ 8192
    pub decoded : decode_jwt p token ≡ some jwt
    pub allowed : named_alg o jwt.header.alg ≡ some alg
    pub named : jwt.header.alg ≡ some (alg_name alg)
    pub resolved : (resolve_key p o now jwt.header.kid alg answers entry).0 ≡ some key
    pub of_set :
        IsFor p
          (resolve_key p o now jwt.header.kid alg answers entry).1.keys
          (text_of jwt.header.kid)
          alg
          key
    pub served :
        IsServed p o now answers entry (resolve_key p o now jwt.header.kid alg answers entry).1.keys
    pub signed : p.verify alg key jwt.signature jwt.signed_data ≡ some true
    pub claims : IsValid o now jwt.payload u

  jwt_lem :
      (d : Option DecodedJwt) (entry : CacheEntry K) (u : User)
      → (with_jwt p o now answers d entry).0 ≡ some u
      → (jwt : DecodedJwt) × (d ≡ some jwt)
        × ((with_alg p o now answers (named_alg o jwt.header.alg) jwt entry).0 ≡ some u)
  jwt_lem none entry u h = absurd (ground (arith, h))
  jwt_lem (some jwt) entry u h = (jwt, refl, h)

  alg_lem :
      (a : Option JwsAlgorithm) (jwt : DecodedJwt) (entry : CacheEntry K) (u : User)
      → (with_alg p o now answers a jwt entry).0 ≡ some u
      → (alg : JwsAlgorithm) × (a ≡ some alg)
        × ((signed_by p o now answers alg jwt
              (resolve_key p o now jwt.header.kid alg answers entry)).0
            ≡ some u)
  alg_lem none jwt entry u h = absurd (ground (arith, h))
  alg_lem (some alg) jwt entry u h = (alg, refl, h)

  signed_lem :
      (alg : JwsAlgorithm) (jwt : DecodedJwt) (found : Option K × CacheEntry K) (u : User)
      → (signed_by p o now answers alg jwt found).0 ≡ some u
      → (key : K) × (found.0 ≡ some key)
        × (p.verify alg key jwt.signature jwt.signed_data ≡ some true)
        × (check_claims o now jwt.payload ≡ some u)
  signed_lem alg jwt (none, entry) u h = absurd (ground (arith, h))
  signed_lem alg jwt (some key, entry) u h =
      elim (Option-cases (p.verify alg key jwt.signature jwt.signed_data)) [
        | inl v ↦ absurd (ground (arith, h, v))
        | inr (verdict, v) ↦ (key, refl, ground (arith, h, v), ground (arith, h, v))
      ]

  sized :
      (token : List ℕ) (entry : CacheEntry K) (u : User)
      → (verify_neon p o now answers (some token) entry).0 ≡ some u
      → (length token ≤ 8192) × ((with_jwt p o now answers (decode_jwt p token) entry).0 ≡ some u)
  unfolding verify_neon
  sized token entry u h = elim (Bool-cases (is_empty token || ltb 8192 (length token))) [
    | inl e ↦ let g : none ≡ some u = rw (e, verify_neon) at h in absurd (ground (arith, g))
    | inr e ↦ (small token e, rw (e, verify_neon) at h)
  ]

  -- Where every imported key of the cache comes from the cached key set: whoever a token lets in is
  -- the subject of a token of at most 8192 characters, of the configured issuer and an expected
  -- audience, neither expired nor early beyond the tolerance, with a signature that verifies under an
  -- allowed algorithm by a key that was imported for it from a key of its key id (with none, of the
  -- algorithm's key type) in the key set that the cache then holds: the set held before, however
  -- old, a young enough one from KV, or one that the endpoint answered with.
  pub verify_neon-NeonProof :
      (token : List ℕ) (entry : CacheEntry K) (u : User)
      → IsTraced p entry
      → (verify_neon p o now answers (some token) entry).0 ≡ some u
      → NeonProof token entry u
  verify_neon-NeonProof token entry u traced h =
      let (short, h1) = sized token entry u h in
      let (jwt, decoded, h2) = jwt_lem (decode_jwt p token) entry u h1 in
      let (alg, allowed, h3) = alg_lem (named_alg o jwt.header.alg) jwt entry u h2 in
      let (key, resolved, signed, claims) =
        signed_lem alg jwt (resolve_key p o now jwt.header.kid alg answers entry) u h3 in
      let right = resolve_key-IsRight p o now answers entry jwt.header.kid alg traced in
      record {
        jwt = jwt;
        alg = alg;
        key = key;
        short = short;
        decoded = decoded;
        allowed = allowed;
        named = named_alg_lem o jwt.header.alg alg allowed;
        resolved = resolved;
        of_set = right.0 key resolved;
        served = right.2;
        signed = signed;
        claims = check_claims-IsValid o now jwt.payload u claims;
      }

  -- A key that was imported before is used whatever the time and the age of the key set are, and
  -- nothing is fetched.
  pub resolve_key-imported :
      (kid : Option String) (alg : JwsAlgorithm) (key : K) (entry : CacheEntry K)
      → find (cache_key kid alg) entry.imported ≡ some key
      → resolve_key p o now kid alg answers entry ≡ (some key, entry)
  unfolding resolve_key
  resolve_key-imported kid alg key entry e = rw e
