-- ===== src/Client/Wire.antt =====
-- The map of requests in flight mirrors the wire, and every call made awaits one request there or
-- has its answer.
use workers_auth.Prelude.{
  ℕ, ◌+◌, ◌<◌, ◌≡◌, refl, String, true, false, Option, none, some, List, [], ◌∷◌, ◌++◌, arith, eqb,
  ltb, if◌then◌else◌, is_some, find, All, All-append, All-mono, Option-cases, inl, inr, codes,
}
use workers_auth.Client.{
  existing, sent_of, awaiting, request, await_request, session_init, login_init, logout_init,
  session, login, logout, resume, resume_all, settle,
}
use workers_auth.Client.State.{
  ClientRequestInit, ClientResponse, AuthClientOptions, LoginInit, ClientAnswer, Waiting,
  ClientState, new_client, Method, session_call, login_call, logout_call,
}
use workers_auth.Client.Mirror.{Keyed, sent_of-arrived, All-awaiting, forget-Keyed, remember-Keyed}

-- What happens to a client: a call of one of its methods, or the settlement of a fetch.
pub data ClientEvent (V : Type 0) : Type 0 where
  read_session : ClientEvent V
  log_in : (jar : Option (List ℕ)) → LoginInit → ClientEvent V
  log_out : (jar : Option (List ℕ)) → ClientEvent V
  settled : (id : ℕ) → Option (ClientResponse V) → ClientEvent V

-- How many of the waiting calls, and of the answers, are the call's.
unfoldable pub waits : ℕ → List Waiting → ℕ
waits c [] = 0
waits c (w ∷ waiting) = (if eqb w.caller c then 1 else 0) + waits c waiting

unfoldable pub answers_to : {V : Type 0} → ℕ → List (ℕ × ClientAnswer V) → ℕ
answers_to c [] = 0
answers_to c ((caller, answer) ∷ answers) = (if eqb caller c then 1 else 0) + answers_to c answers

pub record IsWired {V : Type 0} (s : ClientState V) : Type 0 where
  -- the map holds exactly the requests on the wire that have a key
  pub keyed : Keyed s.inflight s.wire
  pub numbered : (id : ℕ) → is_some (sent_of id s.wire) ≡ true → id < s.fetches
  -- every waiting call awaits a request on the wire
  pub awaited : All (λ w. is_some (sent_of w.awaits s.wire) ≡ true) s.waiting
  -- every call made waits once or has one answer
  pub once : (c : ℕ) → waits c s.waiting + answers_to c s.answers ≡ (if ltb c s.calls then 1 else 0)

waits-append : (c : ℕ) (a b : List Waiting) → waits c (a ++ b) ≡ waits c a + waits c b
unfolding waits
waits-append c [] b = omega arith
waits-append c (w ∷ a) b = ground (arith, waits-append c a b)

waits-awaiting :
    (c id : ℕ) (waiting : List Waiting)
    → waits c (awaiting true id waiting) + waits c (awaiting false id waiting) ≡ waits c waiting
unfolding waits awaiting
waits-awaiting c id [] = refl
waits-awaiting c id (w ∷ waiting) = ground (arith, waits-awaiting c id waiting)

module _ {V : Type 0} where
  existing-sent :
      (key : Option String) (id : ℕ) (s : ClientState V)
      → IsWired s
      → existing key s.inflight ≡ some id
      → is_some (sent_of id s.wire) ≡ true
  existing-sent none id s h e = ground arith
  existing-sent (some key) id s h e =
      ground (arith, (h.keyed key id).0 e, Option-cases (sent_of id s.wire))

  answers_to-append :
      (c : ℕ) (a b : List (ℕ × ClientAnswer V))
      → answers_to c (a ++ b) ≡ answers_to c a + answers_to c b
  unfolding answers_to
  answers_to-append c [] b = omega arith
  answers_to-append c ((caller, answer) ∷ a) b = ground (arith, answers_to-append c a b)

module _ {V : Type 0} (o : AuthClientOptions) (error_of : V → Option String) where
  abbrev pub step : ClientEvent V → ClientState V → ClientState V
  step read_session s = session o error_of s
  step (log_in jar init) s = login o error_of jar init s
  step (log_out jar) s = logout o error_of jar s
  step (settled id outcome) s = settle o error_of id outcome s

  unfoldable pub run : List (ClientEvent V) → ClientState V → ClientState V
  run [] s = s
  run (event ∷ events) s = run events (step event s)

  answers_to-resume_all :
      (c : ℕ) (outcome : Option (ClientResponse V)) (reads : ℕ) (waiting : List Waiting)
      → answers_to c (resume_all o error_of outcome reads waiting) ≡ waits c waiting
  unfolding answers_to resume_all waits
  answers_to-resume_all c outcome reads [] = refl
  answers_to-resume_all c none reads (w ∷ waiting) =
      ground (arith, answers_to-resume_all c none reads waiting)
  answers_to-resume_all c (some res) reads (w ∷ waiting) =
      ground
        (arith, answers_to-resume_all c (some res) (resume o error_of w.method res reads).1 waiting)

  settle-IsWired :
      (id : ℕ) (outcome : Option (ClientResponse V)) (s : ClientState V)
      → IsWired s
      → IsWired (settle o error_of id outcome s)
  unfolding settle
  settle-IsWired id outcome s h = elim (Option-cases (sent_of id s.wire)) [
    | inl e ↦ rw (e, settle) h
    | inr (sent, e) ↦
        rw (e, settle)
          (record {
            keyed = forget-Keyed id sent s.inflight s.wire e h.keyed;
            numbered = λ j k. h.numbered j (ground (arith, sent_of-arrived id j s.wire, k));
            awaited = All-awaiting id s.wire s.waiting h.awaited;
            once = λ c. ground (
              arith,
              h.once c,
              waits-awaiting c id s.waiting,
              answers_to-append c s.answers
                  (resume_all o error_of outcome 0 (awaiting true id s.waiting)),
              answers_to-resume_all c outcome 0 (awaiting true id s.waiting),
            );
          })
  ]

  request-IsWired :
      (path : List ℕ) (init : ClientRequestInit) (key : Option String) (s : ClientState V)
      → IsWired s
      → IsWired (request o error_of path init key s).1
        × (is_some (
              sent_of
                (request o error_of path init key s).0
                (request o error_of path init key s).1.wire)
            ≡ true)
  unfolding request sent_of
  request-IsWired path init key s h = elim (Option-cases (existing key s.inflight)) [
    | inl e ↦
        rw (e, request)
          (
            record {
              keyed =
                  remember-Keyed _ s.inflight s.wire e
                    (ground (arith, h.numbered s.fetches, Option-cases (sent_of s.fetches s.wire)))
                    h.keyed;
              numbered = λ j k. ground (arith, h.numbered j);
              awaited = All-mono _ _ s.waiting (λ w k. ground (arith, k)) h.awaited;
              once = h.once;
            },
            ground arith,
          )
    | inr (id, e) ↦ rw (e, request) (h, existing-sent key id s h e)
  ]

  await-IsWired :
      (method : Method) (next : ℕ × ClientState V)
      → IsWired next.1
      → is_some (sent_of next.0 next.1.wire) ≡ true
      → IsWired (await_request o error_of method next)
  unfolding waits
  await-IsWired method (id, s) h e = record {
    keyed = h.keyed;
    numbered = h.numbered;
    awaited =
        All-append (λ w. is_some (sent_of w.awaits s.wire) ≡ true) s.waiting _ h.awaited (e, tt);
    once = λ c. ground (
      arith,
      waits-append c s.waiting (record { caller = s.calls; method = method; awaits = id } ∷ []),
      h.once c,
    );
  }

  call-IsWired :
      (method : Method) (path : List ℕ) (init : ClientRequestInit) (key : Option String)
      (s : ClientState V)
      → IsWired s
      → IsWired (await_request o error_of method (request o error_of path init key s))
  call-IsWired method path init key s h =
      let (wired, sent) = request-IsWired path init key s h in
      await-IsWired method (request o error_of path init key s) wired sent

  step-IsWired : (event : ClientEvent V) (s : ClientState V) → IsWired s → IsWired (step event s)
  unfolding session login logout
  step-IsWired read_session s h =
      call-IsWired session_call (codes "/session") (session_init o error_of) (some "GET /session") s
        h
  step-IsWired (log_in jar init) s h =
      call-IsWired login_call (codes "/session") (login_init o error_of jar init) none s h
  step-IsWired (log_out jar) s h =
      call-IsWired logout_call (codes "/logout") (logout_init o error_of jar) none s h
  step-IsWired (settled id outcome) s h = settle-IsWired id outcome s h

  pub run-IsWired_from :
      (events : List (ClientEvent V)) (s : ClientState V) → IsWired s → IsWired (run events s)
  unfolding run
  run-IsWired_from [] s h = h
  run-IsWired_from (event ∷ events) s h =
      run-IsWired_from events (step event s) (step-IsWired event s h)

  -- Whatever calls are made and however fetches settle, the map of requests in flight holds exactly
  -- those on the wire that have a key, so at most one of each key; every call that waits awaits a
  -- request on the wire; and every call made either waits or has been answered, once.
  pub run-IsWired : (events : List (ClientEvent V)) → IsWired (run events new_client)
  unfolding sent_of find waits answers_to
  run-IsWired events = run-IsWired_from events new_client (record {
    keyed = λ key id. (λ e. ground arith, λ e. ground arith);
    numbered = λ id e. ground arith;
    awaited = tt;
    once = λ c. ground arith;
  })
