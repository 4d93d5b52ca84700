-- ===== src/Cookies/Config.antt =====
-- What a cookie configuration that was accepted is good for.
use workers_auth.Prelude.{
  ℕ, ◌≡◌, ◌∙◌, refl, ap, Bool, true, false, Option, none, some, List, [], ◌∷◌, ◌++◌, arith, All,
  is_some, codes,
}
use workers_auth.Pin.Weak.{same_list_refl}
use workers_auth.Pin.{same_list, contains}
use workers_auth.Request.{all_of}
use workers_auth.Cookies.Uri.RoundTrip.{IsScalar}
use workers_auth.Cookies.Parsed.{cookie_header, parse-cookie_header, name_chars, all_of-append}
use workers_auth.Cookies.{
  is_token, is_token_char, CookieConfig, ResolvedCookieConfig, Prefix, host, secured, bare,
  prefix_text, resolve_cookie_config, DateText, serialize_cookie, serialize_cookie_deletion,
  session_cookie_headers, cleared_cookie_headers, cookie_attributes, after_prefix, is_empty,
  or_default, both,
}
use workers_auth.Cookies.Parse.{is_inherited, lookup, get_cookie, Cookies}

-- `__Host-` or `__Secure-`
abbrev IsMarked : Prefix → Type 0
IsMarked p = is_empty (prefix_text p) ≡ false

-- The names that a configuration without the danger flag resolves to.
record IsNamed (r : ResolvedCookieConfig) : Type 0 where
  prefix : Prefix
  marked : IsMarked prefix
  name : List ℕ
  csrf_name : List ℕ
  token : is_token name ≡ true
  csrf_token : is_token csrf_name ≡ true
  differ : same_list name csrf_name ≡ false
  session : r.session_cookie_name ≡ prefix_text prefix ++ name
  csrf : r.csrf_cookie_name ≡ prefix_text prefix ++ csrf_name
  secure : r.secure ≡ true

named_lem :
    (c : CookieConfig) (r : ResolvedCookieConfig) (p : Prefix)
    → IsMarked p
    → c.dangerously_allow_insecure_cookies ≡ false
    → or_default c.prefix host ≡ p
    → resolve_cookie_config c ≡ some r
    → IsNamed r
unfolding resolve_cookie_config
named_lem c r p marked safe e h = record {
  prefix = p;
  marked = marked;
  name = or_default c.name (codes "session");
  csrf_name = or_default c.csrf_name (codes "csrf");
  token = ground (arith, h, safe);
  csrf_token = ground (arith, h, safe);
  differ = ground (arith, h, safe);
  session = ground (arith, h, safe, e);
  csrf = ground (arith, h, safe, e);
  secure = ground (arith, h, safe, e);
}

named :
    (c : CookieConfig) (r : ResolvedCookieConfig) (p : Prefix)
    → c.dangerously_allow_insecure_cookies ≡ false
    → or_default c.prefix host ≡ p
    → resolve_cookie_config c ≡ some r
    → IsNamed r
unfolding resolve_cookie_config
named c r host safe e h = named_lem c r host refl safe e h
named c r secured safe e h = named_lem c r secured refl safe e h
named c r bare safe e h = absurd (ground (arith, h, safe, e))

token-append :
    (p : Prefix) (name : List ℕ) → is_token name ≡ true → is_token (prefix_text p ++ name) ≡ true
unfolding all_of contains
token-append host name h =
    all_of-append is_token_char (codes "__Host-") name refl (name_chars name h)
token-append secured name h =
    all_of-append is_token_char (codes "__Secure-") name refl (name_chars name h)
token-append bare name h = h

marked-own :
    (p : Prefix) (name : List ℕ) → IsMarked p → is_inherited (prefix_text p ++ name) ≡ false
unfolding is_inherited same_list
marked-own host name m = refl
marked-own secured name m = refl
marked-own bare name m = absurd (ground (arith, m))

serialized :
    (p : Prefix) (expires : DateText) (name value : List ℕ) (r : ResolvedCookieConfig)
    (http_only : Bool) (max_age : Option ℕ)
    → IsMarked p
    → r.secure ≡ true
    → is_token name ≡ true
    → is_some (
        serialize_cookie expires
          (prefix_text p ++ name)
          value
          (cookie_attributes r http_only max_age))
      ≡ true
unfolding serialize_cookie after_prefix all_of same_list
serialized host expires name value r http_only max_age m secure token = rw (token, secure) refl
serialized secured expires name value r http_only max_age m secure token = rw (token, secure) refl
serialized bare expires name value r http_only max_age m secure token = absurd (ground (arith, m))

both_some :
    (a b : Option (List ℕ)) → is_some a ≡ true → is_some b ≡ true → is_some (both a b) ≡ true
both_some none b h k = ground arith
both_some (some a) none h k = ground arith
both_some (some a) (some b) h k = refl

-- What the two session cookies of a configuration are good for: they can be set and cleared whatever
-- their values are, and what a browser sends back is read under the names they were set with.
pub record IsUsable (r : ResolvedCookieConfig) : Type 0 where
  pub is_set :
      (expires : DateText) (sid token : List ℕ) (age : ℕ)
      → is_some (session_cookie_headers r expires sid token age) ≡ true
  pub is_cleared : (expires : DateText) → is_some (cleared_cookie_headers r expires) ≡ true
  pub is_read :
      (sid token : List ℕ)
      → All IsScalar sid
      → All IsScalar token
      → let header =
          cookie_header ((r.session_cookie_name, sid) ∷ (r.csrf_cookie_name, token) ∷ []) in
        (get_cookie (some header) r.session_cookie_name ≡ some sid)
        × (get_cookie (some header) r.csrf_cookie_name ≡ some token)

same_list-prefix :
    (p : Prefix) (a b : List ℕ)
    → same_list (prefix_text p ++ a) (prefix_text p ++ b) ≡ same_list a b
unfolding same_list
same_list-prefix host a b = refl
same_list-prefix secured a b = refl
same_list-prefix bare a b = refl

two_cookies :
    (a b sid token : List ℕ)
    → is_token a ≡ true
    → is_token b ≡ true
    → is_inherited a ≡ false
    → is_inherited b ≡ false
    → same_list a b ≡ false
    → All IsScalar sid
    → All IsScalar token
    → let header = cookie_header ((a, sid) ∷ (b, token) ∷ []) in
      (get_cookie (some header) a ≡ some sid) × (get_cookie (some header) b ≡ some token)
unfolding get_cookie lookup
two_cookies a b sid token ha hb oa ob differ hs ht =
    let cookies : Cookies = (a, sid) ∷ (b, token) ∷ [] in
    let parsed =
      parse-cookie_header cookies
        (
          record { token = ha; own = oa; scalars = hs },
          (record { token = hb; own = ob; scalars = ht }, tt),
        )
        (refl, (rw differ refl, tt)) in
    (
      ap (lookup a) parsed ∙ rw (same_list_refl a) refl,
      ap (lookup b) parsed ∙ rw (differ, same_list_refl b) refl,
    )

usable : (r : ResolvedCookieConfig) → IsNamed r → IsUsable r
unfolding session_cookie_headers cleared_cookie_headers serialize_cookie_deletion
usable r n = record {
  is_set = λ expires sid token age.
      rw (n.session, n.csrf)
        (both_some _ _
          (serialized n.prefix expires n.name sid r true (some age) n.marked n.secure n.token)
          (serialized n.prefix expires n.csrf_name token r false (some age) n.marked n.secure
            n.csrf_token));
  is_cleared = λ expires.
      rw (n.session, n.csrf)
        (both_some _ _
          (serialized n.prefix expires n.name [] r true (some 0) n.marked n.secure n.token)
          (serialized n.prefix expires n.csrf_name [] r false (some 0) n.marked n.secure
            n.csrf_token));
  is_read = λ sid token hs ht.
      rw (n.session, n.csrf)
        (two_cookies (prefix_text n.prefix ++ n.name) (prefix_text n.prefix ++ n.csrf_name) sid
          token (token-append n.prefix n.name n.token)
          (token-append n.prefix n.csrf_name n.csrf_token) (marked-own n.prefix n.name n.marked)
          (marked-own n.prefix n.csrf_name n.marked)
          (same_list-prefix n.prefix n.name n.csrf_name ∙ n.differ) hs ht);
}

-- The cookies of every configuration that is accepted without the danger flag can be set and cleared
-- without a throw, are Secure, and are read back by their names from what a browser returns.
pub resolve_cookie_config-IsUsable :
    (c : CookieConfig) (r : ResolvedCookieConfig)
    → c.dangerously_allow_insecure_cookies ≡ false
    → resolve_cookie_config c ≡ some r
    → IsUsable r × (r.secure ≡ true)
resolve_cookie_config-IsUsable c r safe h =
    let n = named c r (or_default c.prefix host) safe refl h in (usable r n, n.secure)
