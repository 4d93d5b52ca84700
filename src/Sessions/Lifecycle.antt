-- ===== src/Sessions/Lifecycle.antt =====
-- What becomes of a session in D1, whatever operations run on the store.
use mathlib.Core.Path.{subst}
use workers_auth.Prelude.{
  refl, Option, ℕ, ◌+◌, ◌*◌, ◌≤◌, ◌≡◌, inl, inr, String, true, false, ◌&&◌, none, some, List, [],
  ◌∷◌, leb, ltb, arith, All, All-select_where, Option-cases, Bool-cases, if◌then◌else◌, Table, find,
  put, erase, find-put_self, eq_iff, eq_refl, ◌==◌,
}
use workers_auth.Sessions.{
  Session, NewSession, SessionRow, SessionTable, create_session, get_session, touch_session,
  revoke_session, revoke_all_for_user, cleanup_sessions, row_revoked, is_over, first_row, touch_row,
}

-- The operations of requests and of the cleanup, each at its time. A create that throws leaves the
-- table as it is.
pub data SessionCall : Type 0 where
  create : (sid : String) (now : ℕ) (input : NewSession) → SessionCall
  get : (sid : String) (now : ℕ) → SessionCall
  touch : (sid : String) (now idle : ℕ) → SessionCall
  revoke : (sid : String) → SessionCall
  revoke_all : (user_id : String) (now : ℕ) → SessionCall
  cleanup : (now : ℕ) → SessionCall

-- A row of this key ends by that time.
abbrev Within : String → ℕ → String × SessionRow → Type 0
Within k end (j, r) = (if j == k then leb r.absolute_expires_at end else true) ≡ true

none-Within : (k : String) (end : ℕ) (m : Table SessionRow) → find k m ≡ none → All (Within k end) m
unfolding find
none-Within k end [] h = tt
none-Within k end ((i, r) ∷ m) h = elim (Bool-cases (i == k)) [
  | inl e ↦ ground arith
  | inr e ↦ (rw e, none-Within k end m (ground arith))
]

put-Within :
    (k j : String) (end : ℕ) (r : SessionRow) (m : Table SessionRow)
    → Within k end (j, r)
    → All (Within k end) m
    → All (Within k end) (put j r m)
unfolding put
put-Within k j end r [] h hs = (h, tt)
put-Within k j end r ((i, old) ∷ m) h (w, ws) = elim (Bool-cases (i == j)) [
  | inl e ↦ rw e (h, ws)
  | inr e ↦ rw e (w, put-Within k j end r m h ws)
]

erase-Within :
    (k j : String) (end : ℕ) (m : Table SessionRow)
    → All (Within k end) m
    → All (Within k end) (erase j m)
unfolding erase
erase-Within k j end [] hs = tt
erase-Within k j end ((i, old) ∷ m) (w, ws) = elim (Bool-cases (i == j)) [
  | inl e ↦ rw e (erase-Within k j end m ws)
  | inr e ↦ rw e (w, erase-Within k j end m ws)
]

found-Within :
    (k j : String) (end : ℕ) (m : Table SessionRow) (r : SessionRow)
    → All (Within k end) m
    → find j m ≡ some r
    → Within k end (j, r)
unfolding find
found-Within k j end [] r hs h = ground arith
found-Within k j end ((i, old) ∷ m) r (w, ws) h = elim (Bool-cases (i == j)) [
  | inl e ↦ ground (arith, eq_iff i j)
  | inr e ↦ found-Within k j end m r ws (ground arith)
]

abbrev after_create : SessionTable → Option (Session × SessionTable) → SessionTable
after_create t none = t
after_create t (some (session, after)) = after

module _ (hash : String → String) where
  -- No login makes a session under this key again.
  abbrev pub AreOthers : String → List SessionCall → Type 0
  AreOthers k [] = Unit
  AreOthers k (create sid now input ∷ calls) = ((hash sid == k) ≡ false) × AreOthers k calls
  AreOthers k (get sid now ∷ calls) = AreOthers k calls
  AreOthers k (touch sid now idle ∷ calls) = AreOthers k calls
  AreOthers k (revoke sid ∷ calls) = AreOthers k calls
  AreOthers k (revoke_all user_id now ∷ calls) = AreOthers k calls
  AreOthers k (cleanup now ∷ calls) = AreOthers k calls

  pub run_sessions : List SessionCall → SessionTable → SessionTable
  run_sessions [] t = t
  run_sessions (create sid now input ∷ calls) t =
      run_sessions calls (after_create t (create_session hash sid now input t))
  run_sessions (get sid now ∷ calls) t = run_sessions calls (get_session hash sid now t).1
  run_sessions (touch sid now idle ∷ calls) t =
      run_sessions calls (touch_session hash sid now idle t)
  run_sessions (revoke sid ∷ calls) t = run_sessions calls (revoke_session hash sid t)
  run_sessions (revoke_all user_id now ∷ calls) t =
      run_sessions calls (revoke_all_for_user user_id now t)
  run_sessions (cleanup now ∷ calls) t = run_sessions calls (cleanup_sessions now t).1

  -- A session that was created is what a read returns, until it expires or is revoked.
  pub get-create_session :
      (sid : String) (now at : ℕ) (input : NewSession) (t after : SessionTable) (session : Session)
      → create_session hash sid now input t ≡ some (session, after)
      → row_revoked hash (hash sid) at (first_row now input) t.revocations ≡ false
      → is_over hash at (first_row now input) ≡ false
      → get_session hash sid at after ≡ (some session, after)
  unfolding create_session get_session
  get-create_session sid now at input t after session h live young =
      elim (Option-cases (find (hash sid) t.rows)) [
        | inr (r, e) ↦ ground arith
        | inl e ↦ ground (arith, find-put_self (hash sid) (first_row now input) t.rows)
      ]

  get-Within :
      (k : String) (end : ℕ) (sid : String) (now : ℕ) (t : SessionTable)
      → All (Within k end) t.rows
      → All (Within k end) (get_session hash sid now t).1.rows
  unfolding get_session
  get-Within k end sid now t hs = elim (Option-cases (find (hash sid) t.rows)) [
    | inl e ↦ rw (e, get_session) hs
    | inr (r, e) ↦ elim (Bool-cases (row_revoked hash (hash sid) now r t.revocations)) [
      | inl f ↦ rw (e, f, get_session) hs
      | inr f ↦ elim (Bool-cases (is_over hash now r)) [
        | inl g ↦ rw (e, f, g, get_session) (erase-Within k (hash sid) end t.rows hs)
        | inr g ↦ rw (e, f, g, get_session) hs
      ]
    ]
  ]

  touched-Within :
      (k j : String) (end now idle : ℕ) (r : SessionRow)
      → Within k end (j, r)
      → Within k end (j, touch_row hash now idle r)
  touched-Within k j end now idle r h =
      elim (Bool-cases (ltb now r.idle_expires_at && ltb now r.absolute_expires_at)) [
        | inl e ↦ rw e h
        | inr e ↦ rw e h
      ]

  touch-Within :
      (k : String) (end : ℕ) (sid : String) (now idle : ℕ) (t : SessionTable)
      → All (Within k end) t.rows
      → All (Within k end) (touch_session hash sid now idle t).rows
  unfolding touch_session
  touch-Within k end sid now idle t hs = elim (Option-cases (find (hash sid) t.rows)) [
    | inl e ↦ rw (e, touch_session) hs
    | inr (r, e) ↦
        rw (e, touch_session)
          (put-Within k (hash sid) end (touch_row hash now idle r) t.rows
            (touched-Within k (hash sid) end now idle r
              (found-Within k (hash sid) end t.rows r hs e))
            hs)
  ]

  create-Within :
      (k : String) (end : ℕ) (sid : String) (now : ℕ) (input : NewSession) (t : SessionTable)
      → (hash sid == k) ≡ false
      → All (Within k end) t.rows
      → All (Within k end) (after_create t (create_session hash sid now input t)).rows
  unfolding create_session
  create-Within k end sid now input t other hs =
      elim (Bool-cases (ltb 0 input.idle_ttl_sec && ltb 0 input.absolute_ttl_sec)) [
        | inr f ↦ rw (f, create_session) hs
        | inl f ↦ elim (Option-cases (find (hash sid) t.rows)) [
          | inr (r, e) ↦ rw (f, e, create_session) hs
          | inl e ↦
              rw (f, e, create_session)
                (put-Within k (hash sid) end (first_row now input) t.rows (rw other refl) hs)
        ]
      ]

  run-Within :
      (k : String) (end : ℕ) (calls : List SessionCall) (t : SessionTable)
      → AreOthers k calls
      → All (Within k end) t.rows
      → All (Within k end) (run_sessions calls t).rows
  unfolding run_sessions revoke_session revoke_all_for_user cleanup_sessions
  run-Within k end [] t others hs = hs
  run-Within k end (create sid now input ∷ calls) t (other, others) hs =
      run-Within k end calls (after_create t (create_session hash sid now input t)) others
        (create-Within k end sid now input t other hs)
  run-Within k end (get sid now ∷ calls) t others hs =
      run-Within k end calls (get_session hash sid now t).1 others (get-Within k end sid now t hs)
  run-Within k end (touch sid now idle ∷ calls) t others hs =
      run-Within k end calls (touch_session hash sid now idle t) others
        (touch-Within k end sid now idle t hs)
  run-Within k end (revoke sid ∷ calls) t others hs =
      run-Within k end calls (revoke_session hash sid t) others
        (erase-Within k (hash sid) end t.rows hs)
  run-Within k end (revoke_all user_id now ∷ calls) t others hs =
      run-Within k end calls (revoke_all_for_user user_id now t) others
        (All-select_where _ _ t.rows hs)
  run-Within k end (cleanup now ∷ calls) t others hs =
      run-Within k end calls (cleanup_sessions now t).1 others
        (All-select_where _ _ _ (All-select_where _ _ t.rows hs))

  get_late :
      (sid : String) (end at : ℕ) (t : SessionTable)
      → All (Within (hash sid) end) t.rows
      → end ≤ at
      → (get_session hash sid at t).0 ≡ none
  unfolding get_session
  get_late sid end at t hs late = elim (Option-cases (find (hash sid) t.rows)) [
    | inl e ↦ ground arith
    | inr (r, e) ↦
        let within = found-Within (hash sid) (hash sid) end t.rows r hs e in
        ground (arith, eq_refl (hash sid))
  ]

  created-Within :
      (sid : String) (now : ℕ) (input : NewSession) (t after : SessionTable) (session : Session)
      → create_session hash sid now input t ≡ some (session, after)
      → All (Within (hash sid) (now + input.absolute_ttl_sec * 1000)) after.rows
  unfolding create_session
  created-Within sid now input t after session h =
      let end = now + input.absolute_ttl_sec * 1000 in
      let k = hash sid in
      elim (Option-cases (find k t.rows)) [
        | inr (r, e) ↦ ground arith
        | inl e ↦
            let new : put k (first_row now input) t.rows ≡ after.rows = ground arith in
            subst (All (Within k end)) new (
              put-Within k k end (first_row now input) t.rows (ground arith)
                (none-Within k end t.rows e))
      ]

  -- However often a session is touched, and whatever reads, logins (under other keys than its own),
  -- logouts and cleanups run on the store, it is refused from the end of its absolute lifetime on.
  pub absolute_end :
      (sid : String) (now at : ℕ) (input : NewSession) (calls : List SessionCall)
      (t after : SessionTable) (session : Session)
      → create_session hash sid now input t ≡ some (session, after)
      → now + input.absolute_ttl_sec * 1000 ≤ at
      → AreOthers (hash sid) calls
      → (get_session hash sid at (run_sessions calls after)).0 ≡ none
  unfolding create_session
  absolute_end sid now at input calls t after session h late others =
      let end = now + input.absolute_ttl_sec * 1000 in
      get_late sid end at (run_sessions calls after)
        (run-Within (hash sid) end calls after others
          (created-Within sid now input t after session h))
        late
