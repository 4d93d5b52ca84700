-- ===== src/Client/Mirror.antt =====
-- What a settlement and a request do to the map of requests in flight and to the wire.
use workers_auth.Prelude.{
  ℕ, ◌≡◌, ◌↔◌, String, true, false, Option, none, some, List, [], ◌∷◌, arith, eqb, if◌then◌else◌,
  is_some, Table, find, find-put, find-erase, eq_iff, All, Option-cases, inl, inr,
}
use workers_auth.Client.{forget, remember, existing, sent_of, arrived, awaiting}
use workers_auth.Client.State.{Sent, Waiting}

abbrev pub key_of : Option Sent → Option String
key_of none = none
key_of (some sent) = sent.dedup_key

pub sent_of-arrived :
    (id j : ℕ) (wire : List Sent)
    → sent_of j (arrived id wire) ≡ (if eqb id j then none else sent_of j wire)
unfolding sent_of arrived
sent_of-arrived id j [] = ground arith
sent_of-arrived id j (sent ∷ wire) = ground (arith, sent_of-arrived id j wire)

pub All-awaiting :
    (id : ℕ) (wire : List Sent) (waiting : List Waiting)
    → All (λ w. is_some (sent_of w.awaits wire) ≡ true) waiting
    → All (λ w. is_some (sent_of w.awaits (arrived id wire)) ≡ true) (awaiting false id waiting)
unfolding awaiting
All-awaiting id wire [] h = tt
All-awaiting id wire (w ∷ waiting) (h, hs) =
    ground (arith, All-awaiting id wire waiting hs, sent_of-arrived id w.awaits wire)

abbrev pub Keyed : Table ℕ → List Sent → Type 0
Keyed inflight wire =
    (key : String) (id : ℕ) → (find key inflight ≡ some id) ↔ (key_of (sent_of id wire) ≡ some key)

-- A request that leaves the wire leaves the map.
pub forget-Keyed :
    (id : ℕ) (sent : Sent) (inflight : Table ℕ) (wire : List Sent)
    → sent_of id wire ≡ some sent
    → Keyed inflight wire
    → Keyed (forget sent.dedup_key inflight) (arrived id wire)
forget-Keyed id sent inflight wire e h key j = elim (Option-cases sent.dedup_key) [
  | inl n ↦ rw n (ground (arith, sent_of-arrived id j wire, h key j, n))
  | inr (k, n) ↦ rw n (
      ground (
        arith,
        sent_of-arrived id j wire,
        find-erase k key inflight,
        eq_iff k key,
        h key j,
        h k id,
        n,
      ))
]

-- A new request with a key that the map lacks enters both.
pub remember-Keyed :
    (sent : Sent) (inflight : Table ℕ) (wire : List Sent)
    → existing sent.dedup_key inflight ≡ none
    → sent_of sent.id wire ≡ none
    → Keyed inflight wire
    → Keyed (remember sent.dedup_key sent.id inflight) (sent ∷ wire)
unfolding sent_of
remember-Keyed sent inflight wire new fresh h key j = elim (Option-cases sent.dedup_key) [
  | inl n ↦ rw n (ground (arith, h key j, n))
  | inr (k, n) ↦
      rw n (ground (arith, find-put k key sent.id inflight, eq_iff k key, h key j, h k j, n))
]
