-- ===== src/MagicLink.antt =====
-- providers/magic-link.ts: the stores of magic-link tokens in D1 and KV, and the provider, whose
-- `start` issues a token and whose `verify` consumes one. The store is keyed by `sha256(token)`.
pub mod SingleUse
pub mod Issued
use workers_auth.Prelude.{
  ℕ, ◌+◌, ◌-◌, ◌*◌, ◌/◌, String, Bool, true, false, ◌&&◌, ◌||◌, not, Option, none, some, List, [],
  ◌∷◌, leb, ltb, max, if◌then◌else◌, Table, find, put, erase, select_where, count_where, codes,
  is_some, ◌==◌,
}
use workers_auth.Sessions.{SubjectType}
use workers_auth.Web.{User}
use workers_auth.Request.{looks_like_email, utf16_length}
use workers_auth.Ip.Text.{trim}
use workers_auth.Routes.{Answer, broken, nobody, somebody}

pub record MagicLinkRecord : Type 0 where
  pub email : String
  pub expires_at : ℕ

-- The table of the D1 store; `created_at` is written and never read, so it is left out.
abbrev pub LinkTable : Type 0
LinkTable = Table MagicLinkRecord

-- The insert throws where the primary key is taken.
unfoldable pub put_d1 : String → MagicLinkRecord → LinkTable → Option LinkTable
put_d1 token_hash r links =
    if is_some (find token_hash links) then none else some (put token_hash r links)

-- `DELETE … RETURNING`: one statement.
unfoldable pub take_d1 : String → LinkTable → Option MagicLinkRecord × LinkTable
take_d1 token_hash links = (find token_hash links, erase token_hash links)

unfoldable pub cleanup_links : ℕ → LinkTable → ℕ × LinkTable
cleanup_links now links =
    let expired = λ (l : String × MagicLinkRecord). leb l.1.expires_at now in
    (count_where expired links, select_where (λ l. not (expired l)) links)

-- A KV entry: the value, and the time at which KV drops it.
pub record KvLink : Type 0 where
  pub link : MagicLinkRecord
  pub dropped_at : ℕ

-- `Math.ceil((expiresAt - now) / 1000)`, which is at most 0 where the expiry has passed
abbrev ceil_sec : ℕ → ℕ → ℕ
ceil_sec expires_at now = (expires_at - now + 999) / 1000

unfoldable pub put_kv : String → ℕ → MagicLinkRecord → Table KvLink → Table KvLink
put_kv token_hash now r kv =
    put token_hash
      (record { link = r; dropped_at = now + max 60 (ceil_sec r.expires_at now) * 1000 }) kv

abbrev unless_dropped : ℕ → Option KvLink → Option MagicLinkRecord
unless_dropped now none = none
unless_dropped now (some entry) = if leb entry.dropped_at now then none else some entry.link

-- `take` of the KV store is two steps: another request may run between them.
unfoldable pub take_kv_get : String → ℕ → Table KvLink → Option MagicLinkRecord
take_kv_get token_hash now kv = unless_dropped now (find token_hash kv)

unfoldable pub take_kv_delete : String → Table KvLink → Table KvLink
take_kv_delete token_hash kv = erase token_hash kv

-- What `JSON.parse` makes of a body: an error, something with no text under `token`, or that text.
pub data LinkBody : Type 0 where
  malformed tokenless : LinkBody
  has_token : String → LinkBody

-- What the default `getToken` reads: `?token=`, `x-magic-token`, whether the content type includes
-- `application/json`, and the body.
pub record LinkRequest : Type 0 where
  pub query_token : Option String
  pub header_token : Option String
  pub is_json : Bool
  pub body : LinkBody

abbrev body_token : LinkBody → Option String
body_token malformed = none
body_token tokenless = none
body_token (has_token t) = some t

-- An empty text counts as absent.
abbrev or_else : Option String → Option String → Option String
or_else none next = next
or_else (some t) next = if t == "" then next else some t

-- `makeGetToken`
unfoldable pub get_token : Bool → LinkRequest → Option String
get_token allow_query req =
    let from_body = if req.is_json then body_token req.body else none in
    let rest = or_else req.header_token from_body in
    if allow_query then or_else req.query_token rest else rest

-- The options after the defaults are applied. `to_lower_case` is the platform's, over Unicode's
-- tables. Of `resolve_user` the outer none is the absent option; a call's outer none is a throw, the
-- inner one `null`.
pub record MagicLinkOptions : Type 0 where
  pub hash : String → String
  pub to_lower_case : String → String
  pub ttl_sec : ℕ
  pub allow_token_in_query : Bool
  pub sends : (email token : String) → Bool
  pub resolve_user : Option (String → Option (Option User))
  pub name : String

-- What an application passes to `magicLink`.
pub record MagicLinkArgs : Type 0 where
  pub has_send_token : Bool
  pub has_store : Bool
  pub atomic_take : Bool
  pub dangerously_allow_replayable_tokens : Bool
  pub options : MagicLinkOptions

-- `magicLink(options)`; none is a throw.
unfoldable pub magic_link : MagicLinkArgs → Option MagicLinkOptions
magic_link args =
    if args.has_send_token
      && (ltb 0 args.options.ttl_sec
          && (args.has_store && (args.atomic_take || args.dangerously_allow_replayable_tokens)))
    then some args.options
    else none

-- The state: the table, the messages that `sendToken` was given (newest first), and how many of
-- them it failed to send, each reported to `onSendError`.
pub record LinkWorld : Type 0 where
  pub links : LinkTable
  pub sent : List (String × String)
  pub send_errors : ℕ

module _ (o : MagicLinkOptions) where
  unfoldable pub normalize_email : String → String
  normalize_email email = o.to_lower_case (trim email)

  -- A failure to send is reported and not thrown.
  abbrev deliver : String → String → LinkWorld → LinkWorld
  deliver email token w = record w {
    sent = (email, token) ∷ w.sent;
    send_errors = if o.sends email token then w.send_errors else w.send_errors + 1;
  }

  abbrev stored : Option LinkTable → String → String → LinkWorld → Option LinkWorld
  stored none email token w = none
  stored (some links) email token w = some (deliver email token (record w { links = links }))

  -- `start`; none is a throw, else the answer is `{ ok: true }`. `token` is the fresh random token.
  unfoldable pub start : String → String → ℕ → LinkWorld → Option LinkWorld
  unfolding normalize_email put_d1
  start raw_email token now w =
      let email = normalize_email raw_email in
      if looks_like_email email
      then stored
          (put_d1 (o.hash token) (record { email = email; expires_at = now + o.ttl_sec * 1000 })
            w.links)
          email token w
      else none

  abbrev resolved : Option (Option User) → Answer
  resolved none = broken "Error"
  resolved (some none) = nobody
  resolved (some (some user)) = somebody (record user { provider = some o.name })

  abbrev pub user_of : Option (String → Option (Option User)) → String → Answer
  user_of (some resolve) email = resolved (resolve email)
  user_of none email = somebody (record {
    id = email;
    subject_type = SubjectType.user;
    email = some email;
    rate_limit_id = email;
    provider = some o.name;
  })

  -- What follows `take`.
  unfoldable pub accept : ℕ → Option MagicLinkRecord → Answer
  accept now none = nobody
  accept now (some r) = if leb r.expires_at now then nobody else user_of o.resolve_user r.email

  abbrev is_plausible : String → Bool
  is_plausible t = not (t == "") && leb (utf16_length (codes t)) 512

  abbrev verify_token : Option String → ℕ → LinkTable → Answer × LinkTable
  verify_token none now links = (nobody, links)
  verify_token (some t) now links =
      if is_plausible t
      then (accept now (take_d1 (o.hash t) links).0, (take_d1 (o.hash t) links).1)
      else (nobody, links)

  -- `verify` over the D1 store, with the default `getToken`.
  unfoldable pub verify_link : LinkRequest → ℕ → LinkTable → Answer × LinkTable
  unfolding get_token accept take_d1
  verify_link req now links = verify_token (get_token o.allow_token_in_query req) now links
