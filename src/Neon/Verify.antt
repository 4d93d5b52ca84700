-- ===== src/Neon/Verify.antt =====
-- providers/neon.ts: `decodeJwt`, and `verify` of the provider.
use workers_auth.Prelude.{
  ℕ, ◌+◌, ◌*◌, String, Bool, true, false, ◌&&◌, ◌||◌, Option, none, some, List, [], ◌∷◌, ◌++◌, leb,
  ltb, if◌then◌else◌, length, ◌==◌,
}
use workers_auth.Base64.{base64url_decode}
use workers_auth.Sessions.{SubjectType}
use workers_auth.Web.{User}
use workers_auth.Cookies.{is_empty}
use workers_auth.Neon.{
  JwsAlgorithm, JwtPayload, JwtPlatform, NumericClaim, missing, not_number, number, NeonOptions,
  DecodedJwt, split_dots, is_allowed, shares, filled,
}
use workers_auth.Neon.Keys.{CacheEntry, Answers, resolve_key}

module _ {K : Type 0} (p : JwtPlatform K) where
  abbrev decoded_parts :
      (h body s : List ℕ) → Option (List ℕ) → Option (List ℕ) → Option (List ℕ) → Option DecodedJwt
  decoded_parts h body s (some header_bytes) (some payload_bytes) (some signature) =
      elim (p.header_of header_bytes) [
        | none ↦ none
        | some header ↦ elim (p.payload_of payload_bytes) [
          | none ↦ none
          | some payload ↦ some (record {
            header = header;
            payload = payload;
            signature = signature;
            signed_data = p.encode (h ++ (b'.' ∷ body));
          })
        ]
      ]
  decoded_parts h body s _ _ _ = none

  abbrev three_parts : List ℕ × List (List ℕ) → Option DecodedJwt
  three_parts (h, body ∷ s ∷ []) =
      if is_empty h || (is_empty body || is_empty s)
      then none
      else decoded_parts h body s (base64url_decode h) (base64url_decode body) (base64url_decode s)
  three_parts _ = none

  -- `decodeJwt`
  unfoldable pub decode_jwt : List ℕ → Option DecodedJwt
  unfolding split_dots base64url_decode
  decode_jwt token = three_parts (split_dots token)

module _ (o : NeonOptions) (now : ℕ) where
  abbrev pub skew : ℕ
  skew = o.clock_tolerance_sec * 1000

  abbrev pub not_expired : NumericClaim → Bool
  not_expired (number exp) = leb now (exp * 1000 + skew)
  not_expired _ = false

  abbrev pub has_begun : NumericClaim → Bool
  has_begun missing = true
  has_begun not_number = false
  has_begun (number nbf) = leb (nbf * 1000) (now + skew)

  abbrev pub is_text : Option String → String → Bool
  is_text none wanted = false
  is_text (some s) wanted = s == wanted

  abbrev pub user_of : String → JwtPayload → User
  user_of sub payload = record {
    id = sub;
    subject_type = SubjectType.user;
    email = payload.email;
    rate_limit_id = sub;
    provider = some o.name;
  }

  -- The checks of the claims.
  unfoldable pub check_claims : JwtPayload → Option User
  unfolding shares
  check_claims payload =
      if is_text payload.iss o.issuer
        && (shares payload.aud o.audiences && (not_expired payload.exp && has_begun payload.nbf))
      then (elim (filled payload.sub) [ none ↦ none | some sub ↦ some (user_of sub payload) ])
      else none

abbrev pub named_alg : NeonOptions → Option String → Option JwsAlgorithm
named_alg o none = none
named_alg o (some name) = is_allowed name o.algorithms

abbrev pub is_true : Option Bool → Bool
is_true none = false
is_true (some b) = b

module _ {K : Type 0} (p : JwtPlatform K) (o : NeonOptions) (now : ℕ) (answers : Answers) where
  abbrev pub signed_by :
      JwsAlgorithm → DecodedJwt → Option K × CacheEntry K → Option User × CacheEntry K
  signed_by alg jwt (none, entry) = (none, entry)
  signed_by alg jwt (some key, entry) =
      if is_true (p.verify alg key jwt.signature jwt.signed_data)
      then (check_claims o now jwt.payload, entry)
      else (none, entry)

  abbrev pub with_alg : Option JwsAlgorithm → DecodedJwt → CacheEntry K → Option User × CacheEntry K
  with_alg none jwt entry = (none, entry)
  with_alg (some alg) jwt entry =
      signed_by alg jwt (resolve_key p o now jwt.header.kid alg answers entry)

  abbrev pub with_jwt : Option DecodedJwt → CacheEntry K → Option User × CacheEntry K
  with_jwt none entry = (none, entry)
  with_jwt (some jwt) entry = with_alg (named_alg o jwt.header.alg) jwt entry

  -- `verify`, of what `getToken` returned. A token of the alphabet has a code unit to a code point.
  unfoldable pub verify_neon : Option (List ℕ) → CacheEntry K → Option User × CacheEntry K
  unfolding decode_jwt resolve_key check_claims is_allowed
  verify_neon none entry = (none, entry)
  verify_neon (some token) entry =
      if is_empty token || ltb 8192 (length token)
      then (none, entry)
      else with_jwt (decode_jwt p token) entry
