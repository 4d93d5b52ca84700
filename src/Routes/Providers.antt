-- ===== src/Routes/Providers.antt =====
-- Which user the providers come to.
use workers_auth.Prelude.{
  ◌≡◌, refl, String, true, false, Option, none, some, List, [], ◌∷◌, inl, inr, Bool-cases, ◌==◌,
}
use workers_auth.Web.{World, Exit, value, User, Event, emit}
use workers_auth.Request.{Request}
use workers_auth.Routes.{Provider, Answer, broken, nobody, somebody, verify_providers, or_next}

-- The answers that pass to the next provider.
pub data Passes : Answer → Type 0 where
  it_threw : (error : String) → Passes (broken error)
  no_user : Passes nobody
  no_rate_limit_id : (user : User) → (user.rate_limit_id == "") ≡ true → Passes (somebody user)

-- The user of the first provider that does not pass.
pub data Chosen (req : Request) : List Provider → Option User → Type 0 where
  nobody_left : Chosen req [] none
  chosen :
      (p : Provider) (ps : List Provider) (user : User)
      → p.verify req ≡ somebody user
      → (user.rate_limit_id == "") ≡ false
      → Chosen req (p ∷ ps) (some user)
  passed :
      (p : Provider) (ps : List Provider) (answer : Answer) (o : Option User)
      → p.verify req ≡ answer
      → Passes answer
      → Chosen req ps o
      → Chosen req (p ∷ ps) o

-- What a run of the providers comes to: it never throws or stops, and changes nothing but the log.
pub record Run (req : Request) (ps : List Provider) (world : World)
    (out : Exit (Option User) × World) : Type 0 where
  pub user : Option User
  pub ends : out.0 ≡ value user
  pub first : Chosen req ps user
  pub kept :
      (out.1.store ≡ world.store)
      × (out.1.sessions ≡ world.sessions)
      × (out.1.cookies ≡ world.cookies)

or_next-Run :
    (req : Request) (p : Provider) (ps : List Provider) (world : World) (answer : Answer)
    → p.verify req ≡ answer
    → ((w : World) → Run req ps w (verify_providers req ps w))
    → Run req (p ∷ ps) world (or_next p answer (verify_providers req ps) world)
or_next-Run req p ps world (broken error) e ih =
    let r = ih (emit (Event.auth_failed error (some p.name)) world).1 in
    record {
      user = r.user;
      ends = r.ends;
      first = passed p ps (broken error) r.user e (it_threw error) r.first;
      kept = r.kept;
    }
or_next-Run req p ps world nobody e ih =
    let r = ih world in
    record {
      user = r.user;
      ends = r.ends;
      first = passed p ps nobody r.user e no_user r.first;
      kept = r.kept;
    }
or_next-Run req p ps world (somebody user) e ih =
    let r = ih (emit (Event.auth_failed "missing_rate_limit_id" (some p.name)) world).1 in
    elim (Bool-cases (user.rate_limit_id == "")) [
      | inl f ↦ rw f (record {
        user = r.user;
        ends = r.ends;
        first = passed p ps (somebody user) r.user e (no_rate_limit_id user f) r.first;
        kept = r.kept;
      })
      | inr f ↦ rw f (record {
        user = some user;
        ends = refl;
        first = chosen p ps user e f;
        kept = (refl, refl, refl);
      })
    ]

-- The providers come to the user of the first one that returns a user with a `rateLimitId`: one
-- that throws, returns null or forgets it is passed over, and no failure stops the others.
pub verify_providers-Run :
    (req : Request) (ps : List Provider) (world : World)
    → Run req ps world (verify_providers req ps world)
unfolding verify_providers
verify_providers-Run req [] world = record {
  user = none;
  ends = refl;
  first = nobody_left;
  kept = (refl, refl, refl);
}
verify_providers-Run req (p ∷ ps) world =
    or_next-Run req p ps world (p.verify req) refl (λ w. verify_providers-Run req ps w)
