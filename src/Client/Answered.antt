-- ===== src/Client/Answered.antt =====
-- Once the network has settled every fetch, each call has its answer and nothing is remembered.
use workers_auth.Prelude.{
  ℕ, suc, ◌<◌, ◌≡◌, refl, ap, String, Bool, true, false, ◌||◌, Option, none, List, [], ◌∷◌, arith,
  eqb, if◌then◌else◌, is_some, find, All, map, Option-cases, inl, inr,
}
use workers_auth.Client.{sent_of, request, session, settle}
use workers_auth.Client.State.{
  ClientResponse, AuthClientOptions, Waiting, ClientState, new_client, Sent,
}
use workers_auth.Client.Mirror.{sent_of-arrived}
use workers_auth.Client.Wire.{
  ClientEvent, settled, IsWired, waits, answers_to, run, run-IsWired, run-IsWired_from,
}

-- The promise of each request settles, with a response or a rejection.
abbrev pub Settlements : Type 0 → Type 0
Settlements V = List (ℕ × Option (ClientResponse V))

abbrev pub events_of : {V : Type 0} → Settlements V → List (ClientEvent V)
events_of settlements = map (λ p. settled p.0 p.1) settlements

unfoldable pub is_settled : {V : Type 0} → ℕ → Settlements V → Bool
is_settled id [] = false
is_settled id ((j, outcome) ∷ settlements) = eqb j id || is_settled id settlements

none_waits :
    (wire : List Sent) (waiting : List Waiting)
    → ((id : ℕ) → sent_of id wire ≡ none)
    → All (λ w. is_some (sent_of w.awaits wire) ≡ true) waiting
    → waiting ≡ []
none_waits wire [] gone h = refl
none_waits wire (w ∷ waiting) gone (h, hs) = ground (arith, gone w.awaits)

module _ {V : Type 0} (o : AuthClientOptions) (error_of : V → Option String) where
  settle-wire :
      (id j : ℕ) (outcome : Option (ClientResponse V)) (s : ClientState V)
      → sent_of j (settle o error_of id outcome s).wire
        ≡ (if eqb id j then none else sent_of j s.wire)
  unfolding settle
  settle-wire id j outcome s =
      ground (arith, sent_of-arrived id j s.wire, Option-cases (sent_of id s.wire))

  settle-counts :
      (id : ℕ) (outcome : Option (ClientResponse V)) (s : ClientState V)
      → ((settle o error_of id outcome s).calls ≡ s.calls)
        × ((settle o error_of id outcome s).fetches ≡ s.fetches)
  unfolding settle
  settle-counts id outcome s = ground (arith, Option-cases (sent_of id s.wire))

  settled-wire :
      (j : ℕ) (settlements : Settlements V) (s : ClientState V)
      → sent_of j (run o error_of (events_of settlements) s).wire
        ≡ (if is_settled j settlements then none else sent_of j s.wire)
  unfolding run is_settled
  settled-wire j [] s = refl
  settled-wire j ((id, outcome) ∷ settlements) s = ground (
    arith,
    settled-wire j settlements (settle o error_of id outcome s),
    settle-wire id j outcome s,
  )

  settled-counts :
      (settlements : Settlements V) (s : ClientState V)
      → ((run o error_of (events_of settlements) s).calls ≡ s.calls)
        × ((run o error_of (events_of settlements) s).fetches ≡ s.fetches)
  unfolding run
  settled-counts [] s = (refl, refl)
  settled-counts ((id, outcome) ∷ settlements) s = ground (
    arith,
    settled-counts settlements (settle o error_of id outcome s),
    settle-counts id outcome s,
  )

  -- Nothing is left of the calls and the requests but the answers.
  pub record IsAnswered (s after : ClientState V) : Type 0 where
    pub waiting : after.waiting ≡ []
    pub answered : (c : ℕ) → c < s.calls → answers_to c after.answers ≡ 1
    pub inflight : (key : String) → find key after.inflight ≡ none
    pub sends_anew : (session o error_of after).fetches ≡ suc s.fetches

  empty_wire :
      (s after : ClientState V)
      → IsWired after
      → ((id : ℕ) → sent_of id after.wire ≡ none)
      → after.calls ≡ s.calls
      → after.fetches ≡ s.fetches
      → IsAnswered s after
  unfolding session request waits
  empty_wire s after h gone calls fetches =
      let nobody : after.waiting ≡ [] = none_waits after.wire after.waiting gone h.awaited in
      let forgotten : (key : String) → find key after.inflight ≡ none = λ key.
        elim (Option-cases (find key after.inflight)) [
          | inl e ↦ e
          | inr (id, e) ↦ ground (arith, (h.keyed key id).0 e, gone id)
        ] in
      record {
        waiting = nobody;
        answered = λ c lt. ground (arith, h.once c, ap (waits c) nobody);
        inflight = forgotten;
        sends_anew = rw (forgotten "GET /session", session, request) (ap suc fetches);
      }

  -- Whatever calls were made, once the fetches on the wire have settled, in any order and however,
  -- no call waits, each call made has exactly one answer, and the map of requests in flight is
  -- empty, so the next session read sends a request of its own.
  pub settle-IsAnswered :
      (events : List (ClientEvent V)) (settlements : Settlements V)
      → ((id : ℕ)
          → is_some (sent_of id (run o error_of events new_client).wire) ≡ true
          → is_settled id settlements ≡ true)
      → IsAnswered
          (run o error_of events new_client)
          (run o error_of (events_of settlements) (run o error_of events new_client))
  settle-IsAnswered events settlements all =
      let s = run o error_of events new_client in
      let (calls, fetches) = settled-counts settlements s in
      empty_wire s (run o error_of (events_of settlements) s)
        (run-IsWired_from o error_of (events_of settlements) s (run-IsWired o error_of events))
        (λ id. ground (
          arith,
          settled-wire id settlements s,
          all id,
          Option-cases (sent_of id (run o error_of events new_client).wire),
        ))
        calls fetches
