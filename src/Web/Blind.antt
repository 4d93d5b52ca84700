-- ===== src/Web/Blind.antt =====
-- Handlers that do not look at what an account has: its credentials, its login guard, its codes.
use mathlib.Core.Path.{subst}
use workers_auth.Prelude.{
  ◌≡◌, refl, ap, ap₂, sym, ◌∙◌, Bool, true, false, Option, none, some, if◌then◌else◌, List, ◌∷◌,
  Table, String,
}
use workers_auth.Limits.{Window}
use workers_auth.Codes.{CodeRow}
use workers_auth.Devices.{DeviceRecord}
use workers_auth.Sessions.{SessionTable}
use workers_auth.Web.{
  World, M, Exit, value, stop, thrown, next, ◌>>=◌, ◌>>◌, pure, stop_with, gets, on_limits,
  on_sessions, on_codes, emit, when, Event, SetCookie, Reply,
}

-- The rest of a state.
pub record View : Type 0 where
  pub limits : Table Window
  pub devices : List DeviceRecord
  pub sessions : SessionTable
  pub events : List Event
  pub cookies : List SetCookie
  pub sent : List (String × String)

abbrev pub view : World → View
view w = record {
  limits = w.store.limits;
  devices = w.store.devices;
  sessions = w.sessions;
  events = w.events;
  cookies = w.cookies;
  sent = w.sent;
}

module _ {A : Type 0} where
  abbrev pub outcome : Exit A × World → Exit A × View
  outcome (e, w) = (e, view w)

  -- On states of one view it ends in the same way, in states of one view.
  pub record IsBlind (m : M A) : Type 0 where
    pub alike : (w w' : World) → view w ≡ view w' → outcome (m w) ≡ outcome (m w')

  -- What is a function of the view is blind.
  pub of_view :
      (m : M A) (f : View → Exit A × View) → ((w : World) → outcome (m w) ≡ f (view w)) → IsBlind m
  of_view m f h = record { alike = λ w w' e. h w ∙ ap f e ∙ sym (h w') }

  value_inj : (a b : A) → value a ≡ value b → a ≡ b
  value_inj a b e = cc

  pub pure-IsBlind : (a : A) → IsBlind (pure a)
  pure-IsBlind a = of_view (pure a) (λ v. (value a, v)) (λ w. refl)

next-outcome :
    {A B : Type 0} (f : A → M B) (p q : Exit A × World)
    → ((a : A) → IsBlind (f a))
    → outcome p ≡ outcome q
    → outcome (next f p) ≡ outcome (next f q)
next-outcome f (value a, w) (value b, w') h e =
    subst (λ c. outcome (f a w) ≡ outcome (f c w')) (value_inj a b (ap (λ o. o.0) e))
      ((h a).alike w w' (ap (λ o. o.1) e))
next-outcome f (value a, w) (stop r, w') h e = cc
next-outcome f (value a, w) (thrown, w') h e = cc
next-outcome f (stop r, w) (value b, w') h e = cc
next-outcome f (stop r, w) (stop r', w') h e = cc
next-outcome f (stop r, w) (thrown, w') h e = cc
next-outcome f (thrown, w) (value b, w') h e = cc
next-outcome f (thrown, w) (stop r', w') h e = cc
next-outcome f (thrown, w) (thrown, w') h e = cc

pub bind-IsBlind :
    {A B : Type 0} (m : M A) (f : A → M B)
    → IsBlind m
    → ((a : A) → IsBlind (f a))
    → IsBlind (m >>= f)
bind-IsBlind m f hm hf = record {
  alike = λ w w' e. next-outcome f (m w) (m w') hf (hm.alike w w' e);
}

pub when-IsBlind : (b : Bool) (m : M (Unit {0})) → IsBlind m → IsBlind (when b m)
when-IsBlind true m h = h
when-IsBlind false m h = pure-IsBlind tt

module _ {A : Type 0} where
  pub stop-IsBlind : (r : Reply) → IsBlind {A = A} (stop_with r)
  stop-IsBlind r = of_view (stop_with r) (λ v. (stop r, v)) (λ w. refl)

  -- Reading what is in the view.
  pub gets-IsBlind : (f : View → A) → IsBlind {A = A} (gets (λ w. f (view w)))
  gets-IsBlind f = of_view (gets (λ w. f (view w))) (λ v. (value (f v), v)) (λ w. refl)

  pub gets_same :
      (f : World → A) → ((w w' : World) → view w ≡ view w' → f w ≡ f w') → IsBlind {A = A} (gets f)
  gets_same f h = record { alike = λ w w' e. ap₂ (λ a v. (value a, v)) (h w w' e) e }

  pub on_limits-IsBlind : (op : Table Window → A × Table Window) → IsBlind {A = A} (on_limits op)
  on_limits-IsBlind op =
      of_view (on_limits op) (λ v. (value (op v.limits).0, record v { limits = (op v.limits).1 }))
        (λ w. refl)

  pub on_sessions-IsBlind :
      (op : SessionTable → A × SessionTable) → IsBlind {A = A} (on_sessions op)
  on_sessions-IsBlind op =
      of_view (on_sessions op)
        (λ v. (value (op v.sessions).0, record v { sessions = (op v.sessions).1 })) (λ w. refl)

  -- The codes are not in the view.
  pub on_codes-IsBlind :
      (f : Table CodeRow → Table CodeRow)
      → (a : A) → IsBlind {A = A} (on_codes (λ codes. (a, f codes)))
  on_codes-IsBlind f a = of_view (on_codes (λ codes. (a, f codes))) (λ v. (value a, v)) (λ w. refl)

pub emit-IsBlind : (event : Event) → IsBlind (emit event)
emit-IsBlind event =
    of_view (emit event) (λ v. (value tt, record v { events = event ∷ v.events })) (λ w. refl)

pub then-IsBlind :
    {B : Type 0} (m : M (Unit {0})) (k : M B) → IsBlind m → IsBlind k → IsBlind (m >> k)
then-IsBlind m k hm hk = bind-IsBlind m (λ _. k) hm (λ _. hk)

module _ {A : Type 0} where
  pub if-IsBlind :
      (b : Bool) (m n : M A) → IsBlind m → IsBlind n → IsBlind {A = A} (λ w. if b then m w else n w)
  if-IsBlind true m n hm hn = hm
  if-IsBlind false m n hm hn = hn

  pub option-IsBlind :
      {C : Type 0} (o : Option C) (m : M A) (f : C → M A)
      → IsBlind m
      → ((c : C) → IsBlind (f c))
      → IsBlind {A = A} (elim o [ none ↦ m | some c ↦ f c ])
  option-IsBlind none m f hm hf = hm
  option-IsBlind (some c) m f hm hf = hf c
