-- ===== src/Client/State.antt =====
-- client.ts: requests, responses, and the state of a client. `V` is the type of what `json()` gives.
use workers_auth.Prelude.{ℕ, String, Bool, Option, List, [], Table}

pub record ClientRequestInit : Type 0 where
  pub method : String
  pub headers : Table (List ℕ)
  pub body : Option (List ℕ)
  pub credentials : Option String
  pub cache : Option String

-- `json n` is what reading the body gives after `n` earlier readings; none is a rejection.
pub record ClientResponse (V : Type 0) : Type 0 where
  pub ok : Bool
  pub status : ℕ
  pub json : ℕ → Option V

pub record AuthClientOptions : Type 0 where
  pub base_url : Option (List ℕ)
  pub csrf_cookie_name : Option (List ℕ)
  pub csrf_header_name : Option String

-- The argument of `login`, with its body as the text that `JSON.stringify` makes of it.
pub record LoginInit : Type 0 where
  pub body : Option (List ℕ)
  pub headers : Table (List ℕ)

-- What a call comes to: its value, an `AuthClientError`, or the rejection of `fetch` or `json()`.
pub data ClientAnswer (V : Type 0) : Type 0 where
  unauthenticated logged_out rejected : ClientAnswer V
  answered : V → ClientAnswer V
  error : (status : ℕ) (code : String) → ClientAnswer V

pub data Method : Type 0 where
  session_call login_call logout_call : Method

-- `dedupKey` is none for the calls that change state.
pub record Sent : Type 0 where
  pub id : ℕ
  pub dedup_key : Option String
  pub url : List ℕ
  pub init : ClientRequestInit

-- A call that awaits the promise of the request `awaits`; calls are numbered as they are made.
pub record Waiting : Type 0 where
  pub caller : ℕ
  pub method : Method
  pub awaits : ℕ

-- The closure's `inflight`, with what is on the wire and who waits for it.
pub record ClientState (V : Type 0) : Type 0 where
  pub inflight : Table ℕ
  pub fetches : ℕ
  pub calls : ℕ
  pub wire : List Sent
  pub waiting : List Waiting
  pub answers : List (ℕ × ClientAnswer V)

abbrev pub new_client : {V : Type 0} → ClientState V
new_client = record { inflight = []; fetches = 0; calls = 0; wire = []; waiting = []; answers = [] }
