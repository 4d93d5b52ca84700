-- ===== src/Client.antt =====
-- client.ts: the browser client. Its calls, and the settlements of the fetches they wait for, are
-- the steps of a machine; a fetch is assumed to return a promise. `V` is the type of what
-- `json()` gives.
pub mod State
pub mod Jar
pub mod Mirror
pub mod Wire
pub mod Answered
pub mod Shared
pub mod Echoed
use workers_auth.Prelude.{
  ℕ, suc, String, Bool, true, false, ◌&&◌, not, Option, none, some, List, [], ◌∷◌, ◌++◌, eqb,
  if◌then◌else◌, codes, Table, find, put, erase,
}
use workers_auth.Cookies.{is_empty}
use workers_auth.Client.Jar.{or_else, trim_slashes, read_cookie}
use workers_auth.Client.State.{
  AuthClientOptions, ClientAnswer, ClientRequestInit, ClientResponse, ClientState, LoginInit,
  Method, Sent, Waiting, answered, error, logged_out, login_call, logout_call, new_client, rejected,
  session_call, unauthenticated,
}

-- `{ ...headers, ...extra }`
unfoldable pub spread {ℓ} : {A : Type ℓ} → Table A → Table A → Table A
spread headers [] = headers
spread headers ((name, value) ∷ extra) = spread (put name value headers) extra

unfoldable pub sent_of : ℕ → List Sent → Option Sent
sent_of id [] = none
sent_of id (sent ∷ wire) = if eqb sent.id id then some sent else sent_of id wire

unfoldable pub arrived : ℕ → List Sent → List Sent
arrived id [] = []
arrived id (sent ∷ wire) =
    let rest = arrived id wire in if eqb sent.id id then rest else sent ∷ rest

-- Those that await a request, or that do not.
unfoldable pub awaiting : Bool → ℕ → List Waiting → List Waiting
awaiting b id [] = []
awaiting b id (w ∷ waiting) =
    let rest = awaiting b id waiting in
    if (if b then eqb w.awaits id else not (eqb w.awaits id)) then w ∷ rest else rest

abbrev forget : Option String → Table ℕ → Table ℕ
forget none inflight = inflight
forget (some key) inflight = erase key inflight

abbrev remember : Option String → ℕ → Table ℕ → Table ℕ
remember none id inflight = inflight
remember (some key) id inflight = put key id inflight

abbrev existing : Option String → Table ℕ → Option ℕ
existing none inflight = none
existing (some key) inflight = find key inflight

module _ {V : Type 0} (o : AuthClientOptions) (error_of : V → Option String) where
  -- The init that `request` hands to `fetch`.
  abbrev pub fetch_init : ClientRequestInit → ClientRequestInit
  fetch_init init = record init {
    credentials = some "include";
    cache = some "no-store";
    headers = spread (("accept", codes "application/json") ∷ []) init.headers;
  }

  -- `request`: the number of the request whose promise is returned. A key is never the empty text.
  unfoldable pub request :
      List ℕ → ClientRequestInit → Option String → ClientState V → ℕ × ClientState V
  unfolding trim_slashes spread
  request path init dedup_key s = elim (existing dedup_key s.inflight) [
    | some id ↦ (id, s)
    | none ↦ (
      s.fetches,
      record s {
        fetches = suc s.fetches;
        wire =
            record {
              id = s.fetches;
              dedup_key = dedup_key;
              url = trim_slashes (or_else o.base_url (codes "/auth")) ++ path;
              init = fetch_init init;
            }
            ∷ s.wire;
        inflight = remember dedup_key s.fetches s.inflight;
      },
    )
  ]

  abbrev pub csrf_name : List ℕ
  csrf_name = or_else o.csrf_cookie_name (codes "__Host-csrf")

  abbrev pub header_name : String
  header_name = or_else o.csrf_header_name "x-csrf-token"

  abbrev csrf_header : Option (List ℕ) → Table (List ℕ)
  csrf_header none = []
  csrf_header (some token) = if is_empty token then [] else (header_name, token) ∷ []

  -- `csrfToken`
  unfoldable pub csrf_token : Option (List ℕ) → Option (List ℕ)
  unfolding read_cookie
  csrf_token jar = read_cookie jar csrf_name

  unfoldable pub csrf_headers : Option (List ℕ) → Table (List ℕ) → Table (List ℕ)
  unfolding csrf_token spread
  csrf_headers jar extra = spread (csrf_header (csrf_token jar)) extra

  -- A call goes on to await its request.
  abbrev await_request : Method → ℕ × ClientState V → ClientState V
  await_request method (id, s) = record s {
    calls = suc s.calls;
    waiting = s.waiting ++ (record { caller = s.calls; method = method; awaits = id } ∷ []);
  }

  abbrev bare_init : String → Table (List ℕ) → Option (List ℕ) → ClientRequestInit
  bare_init method headers body = record {
    method = method;
    headers = headers;
    body = body;
    credentials = none;
    cache = none;
  }

  abbrev session_init : ClientRequestInit
  session_init = bare_init "GET" [] none

  unfoldable pub session : ClientState V → ClientState V
  unfolding request
  session s =
      await_request session_call (request (codes "/session") session_init (some "GET /session") s)

  abbrev json_header : Option (List ℕ) → Table (List ℕ)
  json_header none = []
  json_header (some _) = ("content-type", codes "application/json") ∷ []

  unfoldable pub login_init : Option (List ℕ) → LoginInit → ClientRequestInit
  unfolding csrf_headers spread
  login_init jar init =
      bare_init "POST" (csrf_headers jar (spread (json_header init.body) init.headers)) init.body

  unfoldable pub login : Option (List ℕ) → LoginInit → ClientState V → ClientState V
  unfolding request login_init
  login jar init s =
      await_request login_call (request (codes "/session") (login_init jar init) none s)

  unfoldable pub logout_init : Option (List ℕ) → ClientRequestInit
  unfolding csrf_headers
  logout_init jar = bare_init "POST" (csrf_headers jar []) none

  unfoldable pub logout : Option (List ℕ) → ClientState V → ClientState V
  unfolding request logout_init
  logout jar s = await_request logout_call (request (codes "/logout") (logout_init jar) none s)

  abbrev error_code : Option V → String
  error_code none = "unknown"
  error_code (some body) = or_else (error_of body) "unknown"

  -- `parseError`
  abbrev pub parse_error : ClientResponse V → ℕ → ClientAnswer V
  parse_error res reads = error res.status (error_code (res.json reads))

  abbrev pub body_of : Option V → ClientAnswer V
  body_of none = rejected
  body_of (some body) = answered body

  -- What a call makes of the response, and how often the body has been read then: the value of
  -- `login`,
  abbrev login_answer : ClientResponse V → ℕ → ClientAnswer V × ℕ
  login_answer res reads =
      if not res.ok
      then (parse_error res reads, suc reads)
      else (body_of (res.json reads), suc reads)

  -- of `session`,
  abbrev session_answer : ClientResponse V → ℕ → ClientAnswer V × ℕ
  session_answer res reads =
      if eqb res.status 401
      then (unauthenticated, reads)
      else if not res.ok
      then (parse_error res reads, suc reads)
      else (body_of (res.json reads), suc reads)

  -- and of `logout`.
  abbrev logout_answer : ClientResponse V → ℕ → ClientAnswer V × ℕ
  logout_answer res reads =
      if not res.ok then (parse_error res reads, suc reads) else (logged_out, reads)

  unfoldable pub resume : Method → ClientResponse V → ℕ → ClientAnswer V × ℕ
  resume session_call res reads = session_answer res reads
  resume login_call res reads = login_answer res reads
  resume logout_call res reads = logout_answer res reads

  -- The calls that share a promise go on in the order in which they were made.
  unfoldable pub resume_all :
      Option (ClientResponse V) → ℕ → List Waiting → List (ℕ × ClientAnswer V)
  unfolding resume
  resume_all outcome reads [] = []
  resume_all none reads (w ∷ waiting) = (w.caller, rejected) ∷ resume_all none reads waiting
  resume_all (some res) reads (w ∷ waiting) =
      (w.caller, (resume w.method res reads).0)
      ∷ resume_all (some res) (resume w.method res reads).1 waiting

  -- The promise of a request settles: `finally` runs first, then the calls that await it go on. A
  -- number that is not on the wire settles nothing.
  unfoldable pub settle : ℕ → Option (ClientResponse V) → ClientState V → ClientState V
  unfolding sent_of arrived awaiting resume_all
  settle id outcome s = elim (sent_of id s.wire) [
    | none ↦ s
    | some sent ↦ record s {
      inflight = forget sent.dedup_key s.inflight;
      wire = arrived id s.wire;
      waiting = awaiting false id s.waiting;
      answers = s.answers ++ resume_all outcome 0 (awaiting true id s.waiting);
    }
  ]
