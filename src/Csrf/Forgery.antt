-- ===== src/Csrf/Forgery.antt =====
-- When a state-changing request passes the CSRF check.
use workers_auth.Prelude.{
  String, ◌≡◌, ◌↔◌, ◌⊎◌, Bool, true, false, ◌||◌, Option, none, some, List, [], ◌∷◌, arith, is_some,
  ◌==◌, eq_iff, inl, inr, Option-cases, Bool-cases,
}
use workers_auth.Crypto.{WebCrypto, secret_equals}
use workers_auth.Csrf.{
  Url, CsrfRequest, CsrfConfig, ok, is_state_changing, given, canonical_origin, matches, is_trusted,
  check_origin, check_double_submit, verify_csrf,
}

module _ (parse_url : String → Option Url) where
  -- A trusted origin of the list is this one.
  pub data Trusts (origin : String) : List String → Type 0 where
    here :
        {t : String} {ts : List String}
        → canonical_origin parse_url t ≡ some origin
        → Trusts origin (t ∷ ts)
    there : {t : String} {ts : List String} → Trusts origin ts → Trusts origin (t ∷ ts)

  -- The request names an origin, and it is its own or a trusted one.
  pub record IsAllowed (req : CsrfRequest) (trusted : List String) : Type 0 where
    pub raw : String
    pub origin : String
    pub sent : given req.origin ≡ some raw
    pub not_null : (raw == "null") ≡ false
    pub named : canonical_origin parse_url raw ≡ some origin
    pub allowed : (canonical_origin parse_url req.url ≡ some origin) ⊎ Trusts origin trusted

  matches_iff :
      (origin : String) (o : Option String)
      → (matches parse_url origin o ≡ true) ↔ (o ≡ some origin)
  matches_iff origin none = ground arith
  matches_iff origin (some other) = ground (arith, eq_iff other origin)

  is_trusted_sound :
      (origin : String) (trusted : List String)
      → is_trusted parse_url origin trusted ≡ true
      → Trusts origin trusted
  unfolding is_trusted
  is_trusted_sound origin [] h = cc
  is_trusted_sound origin (t ∷ trusted) h =
      elim (Bool-cases (matches parse_url origin (canonical_origin parse_url t))) [
        | inl same ↦ here ((matches_iff origin (canonical_origin parse_url t)).0 same)
        | inr other ↦ there (is_trusted_sound origin trusted (ground arith))
      ]

  is_trusted_complete :
      {origin : String} {trusted : List String}
      → Trusts origin trusted
      → is_trusted parse_url origin trusted ≡ true
  unfolding is_trusted
  is_trusted_complete {origin} (here {t} e) =
      rw ((matches_iff origin (canonical_origin parse_url t)).1 e)
  is_trusted_complete (there h) = ground (arith, is_trusted_complete h)

  check_origin_sound :
      (req : CsrfRequest) (trusted : List String)
      → check_origin parse_url req trusted ≡ ok
      → IsAllowed req trusted
  unfolding check_origin
  check_origin_sound req trusted h = elim (Option-cases (given req.origin)) [
    | inl missing ↦ ground arith
    | inr (raw, sent) ↦ elim (Option-cases (canonical_origin parse_url raw)) [
      | inl malformed ↦ ground arith
      | inr (origin, named) ↦ record {
        raw = raw;
        origin = origin;
        sent = sent;
        not_null = ground arith;
        named = named;
        allowed =
            elim (Bool-cases (matches parse_url origin (canonical_origin parse_url req.url))) [
              | inl same ↦ inl ((matches_iff origin (canonical_origin parse_url req.url)).0 same)
              | inr other ↦ inr (is_trusted_sound origin trusted (ground arith))
            ];
      }
    ]
  ]

  check_origin_complete :
      (req : CsrfRequest) (trusted : List String)
      → IsAllowed req trusted
      → check_origin parse_url req trusted ≡ ok
  unfolding check_origin
  check_origin_complete req trusted a =
      let self = matches_iff a.origin (canonical_origin parse_url req.url) in
      elim a.allowed [
        | inl same ↦ rw (a.sent, a.not_null, a.named, self.1 same)
        | inr trusts ↦ ground (arith, a.sent, a.not_null, a.named, is_trusted_complete trusts)
      ]

module _ (w : WebCrypto) where
  -- The cookie's token came back in the header.
  pub record Echoes (req : CsrfRequest) (cookie_token : Option String) : Type 0 where
    pub cookie : String
    pub header : String
    pub kept : given cookie_token ≡ some cookie
    pub sent : given req.csrf_header ≡ some header
    pub equal : secret_equals w cookie header ≡ true

  check_double_submit_sound :
      (req : CsrfRequest) (cookie_token : Option String)
      → check_double_submit w req cookie_token ≡ ok
      → Echoes req cookie_token
  unfolding check_double_submit
  check_double_submit_sound req cookie_token h = elim (Option-cases (given cookie_token)) [
    | inl no_cookie ↦ ground arith
    | inr (cookie, kept) ↦ elim (Option-cases (given req.csrf_header)) [
      | inl no_header ↦ ground arith
      | inr (header, sent) ↦ record {
        cookie = cookie;
        header = header;
        kept = kept;
        sent = sent;
        equal = ground arith;
      }
    ]
  ]

  check_double_submit_complete :
      (req : CsrfRequest) (cookie_token : Option String)
      → Echoes req cookie_token
      → check_double_submit w req cookie_token ≡ ok
  unfolding check_double_submit
  check_double_submit_complete req cookie_token e = rw (e.kept, e.sent, e.equal)

-- With the check enabled, a state-changing request that carries a session cookie or a CSRF cookie
-- passes exactly if it names its own origin or a trusted one and the CSRF cookie's token came back
-- in the header.
pub verify_csrf-ambient_iff :
    (w : WebCrypto) (parse_url : String → Option Url) (config : CsrfConfig) (req : CsrfRequest)
    (cookie_token : Option String) (cookie_authenticated require_origin : Bool)
    → config.dangerously_disable ≡ false
    → is_state_changing req.method ≡ true
    → (cookie_authenticated || is_some cookie_token) ≡ true
    → (verify_csrf w parse_url config req cookie_token cookie_authenticated require_origin ≡ ok)
      ↔ (IsAllowed parse_url req config.trusted_origins × Echoes w req cookie_token)
unfolding verify_csrf
verify_csrf-ambient_iff w parse_url config req cookie_token cookie_authenticated require_origin on
      changes ambient =
    let trusted = config.trusted_origins in
    (
      λ h. (
        check_origin_sound parse_url req trusted (ground arith),
        check_double_submit_sound w req cookie_token (ground arith),
      ),
      λ (allowed, echoes). ground (
        arith,
        check_origin_complete parse_url req trusted allowed,
        check_double_submit_complete w req cookie_token echoes,
      ),
    )

-- With the check enabled, a state-changing request that carries neither cookie passes, where the
-- origin is required, exactly if it names its own origin or a trusted one.
pub verify_csrf-bootstrap_iff :
    (w : WebCrypto) (parse_url : String → Option Url) (config : CsrfConfig) (req : CsrfRequest)
    → config.dangerously_disable ≡ false
    → is_state_changing req.method ≡ true
    → (verify_csrf w parse_url config req none false true ≡ ok)
      ↔ IsAllowed parse_url req config.trusted_origins
unfolding verify_csrf
verify_csrf-bootstrap_iff w parse_url config req on changes = (
  λ h. check_origin_sound parse_url req config.trusted_origins (ground arith),
  λ allowed. ground (arith, check_origin_complete parse_url req config.trusted_origins allowed),
)
