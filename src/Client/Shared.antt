-- ===== src/Client/Shared.antt =====
-- Session reads that share one request, and with it one body.
use mathlib.Core.List.{append_assoc, append-nil}
use workers_auth.Prelude.{
  ℕ, zero, suc, ◌+◌, ◌<◌, ◌≡◌, ◌∙◌, refl, sym, ap, ap₂, String, true, false, Option, none, some,
  List, [], ◌∷◌, ◌++◌, arith, eqb, find, put, codes, find-put_self, All, All-mono,
}
use workers_auth.Client.{
  sent_of, awaiting, await_request, session_init, request, session, body_of, resume, resume_all,
  settle, fetch_init,
}
use workers_auth.Client.State.{
  ClientResponse, AuthClientOptions, ClientAnswer, rejected, Waiting, session_call, ClientState,
  new_client, Sent,
}
use workers_auth.Client.Jar.{trim_slashes, or_else}
use workers_auth.Client.Wire.{ClientEvent, read_session, IsWired, run, run-IsWired}

-- The key of a session read.
abbrev pub session_key : String
session_key = "GET /session"

abbrev pub reads : {V : Type 0} → ℕ → List (ClientEvent V)
reads zero = []
reads (suc n) = read_session ∷ reads n

-- The calls numbered from `c` on, all of which await the request `id`.
unfoldable joined : ℕ → ℕ → ℕ → List Waiting
joined id c zero = []
joined id c (suc n) =
    record { caller = c; method = session_call; awaits = id } ∷ joined id (suc c) n

unfoldable pub all_rejected : {V : Type 0} → ℕ → ℕ → List (ℕ × ClientAnswer V)
all_rejected c zero = []
all_rejected c (suc n) = (c, rejected) ∷ all_rejected (suc c) n

awaiting-append :
    (id : ℕ) (a b : List Waiting)
    → awaiting true id (a ++ b) ≡ awaiting true id a ++ awaiting true id b
unfolding awaiting
awaiting-append id [] b = refl
awaiting-append id (w ∷ a) b = ground (arith, awaiting-append id a b)

awaiting-joined : (id c n : ℕ) → awaiting true id (joined id c n) ≡ joined id c n
unfolding awaiting joined
awaiting-joined id c zero = refl
awaiting-joined id c (suc n) = ground (arith, awaiting-joined id (suc c) n)

on_wire : (sent : Sent) (wire : List Sent) → sent_of sent.id (sent ∷ wire) ≡ some sent
unfolding sent_of
on_wire sent wire = ground arith

awaiting-others :
    (id : ℕ) (waiting : List Waiting)
    → All (λ w. w.awaits < id) waiting
    → awaiting true id waiting ≡ []
unfolding awaiting
awaiting-others id [] h = refl
awaiting-others id (w ∷ waiting) (h, hs) = ground (arith, awaiting-others id waiting hs)

module _ {V : Type 0} (o : AuthClientOptions) (error_of : V → Option String) where
  settle-answers :
      (id : ℕ) (outcome : Option (ClientResponse V)) (sent : Sent) (s : ClientState V)
      → sent_of id s.wire ≡ some sent
      → (settle o error_of id outcome s).answers
        ≡ s.answers ++ resume_all o error_of outcome 0 (awaiting true id s.waiting)
  unfolding settle
  settle-answers id outcome sent s e = rw (e, settle) refl

  -- A read joins the request that is under way.
  joins :
      (id n : ℕ) (s : ClientState V)
      → find session_key s.inflight ≡ some id
      → run o error_of (reads n) s
        ≡ record s { calls = s.calls + n; waiting = s.waiting ++ joined id s.calls n }
  unfolding run joined session
  joins id zero s e =
      ap₂ (λ n ws. record s { calls = n; waiting = ws }) (omega arith) (sym (append-nil s.waiting))
  joins id (suc n) s e =
      let w : Waiting = record { caller = s.calls; method = session_call; awaits = id } in
      let s1 : ClientState V = record s { calls = suc s.calls; waiting = s.waiting ++ (w ∷ []) } in
      let first : session o error_of s ≡ s1 = rw (e, session, request) refl in
      ap (run o error_of (reads n)) first
      ∙ (joins id n s1 e
          ∙ ap₂ (λ n ws. record s { calls = n; waiting = ws }) (omega arith)
              (append_assoc s.waiting (w ∷ []) (joined id (suc s.calls) n)))

  rejects :
      (res : ClientResponse V) (id c n k : ℕ)
      → eqb res.status 401 ≡ false
      → res.ok ≡ true
      → ((k : ℕ) → res.json (suc k) ≡ none)
      → resume_all o error_of (some res) (suc k) (joined id c n) ≡ all_rejected c n
  unfolding resume_all resume joined all_rejected
  rejects res id c zero k fine ok once = refl
  rejects res id c (suc n) k fine ok once =
      rw (fine, ok, once k)
        (ap (λ rest. (c, rejected) ∷ rest) (rejects res id (suc c) n (suc k) fine ok once))

  -- Those who await the request: the first read and those that joined it.
  shared_waiting :
      (id c n : ℕ) (waiting : List Waiting)
      → All (λ w. w.awaits < id) waiting
      → awaiting true id ((waiting ++ joined id c 1) ++ joined id (suc c) n) ≡ joined id c (suc n)
  unfolding joined
  shared_waiting id c n waiting others =
      ap (awaiting true id) (append_assoc waiting (joined id c 1) (joined id (suc c) n))
      ∙ (awaiting-append id waiting (joined id c (suc n))
          ∙ (ap (λ ws. ws ++ awaiting true id (joined id c (suc n)))
                (awaiting-others id waiting others)
              ∙ awaiting-joined id c (suc n)))

  shared_answers :
      (res : ClientResponse V) (id c n : ℕ)
      → eqb res.status 401 ≡ false
      → res.ok ≡ true
      → ((k : ℕ) → res.json (suc k) ≡ none)
      → resume_all o error_of (some res) 0 (joined id c (suc n))
        ≡ (c, body_of o error_of (res.json 0)) ∷ all_rejected (suc c) n
  unfolding resume_all resume joined
  shared_answers res id c n fine ok once =
      rw (fine, ok)
        (ap (λ rest. (c, body_of o error_of (res.json 0)) ∷ rest)
          (rejects res id (suc c) n 0 fine ok once))

  abbrev session_sent : ClientState V → Sent
  session_sent s = record {
    id = s.fetches;
    dedup_key = some session_key;
    url = trim_slashes (or_else o.base_url (codes "/auth")) ++ codes "/session";
    init = fetch_init o error_of (session_init o error_of);
  }

  -- The first read sends its request.
  abbrev started : ClientState V → ClientState V
  started s = await_request o error_of session_call (
    s.fetches,
    record s {
      fetches = suc s.fetches;
      wire = session_sent s ∷ s.wire;
      inflight = put session_key s.fetches s.inflight;
    },
  )

  run-shared :
      (n : ℕ) (res : ClientResponse V) (s : ClientState V)
      → find session_key s.inflight ≡ none
      → All (λ w. w.awaits < s.fetches) s.waiting
      → eqb res.status 401 ≡ false
      → res.ok ≡ true
      → ((k : ℕ) → res.json (suc k) ≡ none)
      → ((run o error_of (reads (suc n)) s).fetches ≡ suc s.fetches)
        × ((settle o error_of s.fetches (some res) (run o error_of (reads (suc n)) s)).answers
            ≡ s.answers
              ++ ((s.calls, body_of o error_of (res.json 0)) ∷ all_rejected (suc s.calls) n))
  unfolding run session joined
  run-shared n res s new others fine ok once =
      let s1 : ClientState V = started s in
      let first : session o error_of s ≡ s1 = rw (new, session, request) refl in
      let waiting : List Waiting = s1.waiting ++ joined s.fetches (suc s.calls) n in
      let after : ClientState V = record s1 { calls = suc s.calls + n; waiting = waiting } in
      let all : run o error_of (reads (suc n)) s ≡ after =
        ap (run o error_of (reads n)) first
        ∙ joins s.fetches n s1 (find-put_self session_key s.fetches s.inflight) in
      rw all (
        refl,
        settle-answers s.fetches (some res) (session_sent s) after (on_wire (session_sent s) s.wire)
            ∙ ap (λ given. s.answers ++ given)
                (ap (resume_all o error_of (some res) 0)
                    (shared_waiting s.fetches s.calls n s.waiting others)
                  ∙ shared_answers res s.fetches s.calls n fine ok once),
      )

  -- Session reads that are made while none is under way send one request. Where the response is a
  -- success whose body can be read once, as with the platform's `fetch`, the first read gets the
  -- body, and each other one is rejected.
  pub session-shared :
      (events : List (ClientEvent V)) (n : ℕ) (res : ClientResponse V)
      → find session_key (run o error_of events new_client).inflight ≡ none
      → eqb res.status 401 ≡ false
      → res.ok ≡ true
      → ((k : ℕ) → res.json (suc k) ≡ none)
      → let s = run o error_of events new_client in
        let after = run o error_of (reads (suc n)) s in
        (after.fetches ≡ suc s.fetches)
        × ((settle o error_of s.fetches (some res) after).answers
            ≡ s.answers
              ++ ((s.calls, body_of o error_of (res.json 0)) ∷ all_rejected (suc s.calls) n))
  session-shared events n res new fine ok once =
      let s = run o error_of events new_client in
      let h : IsWired s = run-IsWired o error_of events in
      run-shared n res s new (All-mono _ _ s.waiting (λ w k. h.numbered w.awaits k) h.awaited) fine
        ok once
