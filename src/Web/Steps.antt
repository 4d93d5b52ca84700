-- ===== src/Web/Steps.antt =====
-- Case lemmas on the end of a handler's step.
use workers_auth.Prelude.{◌≡◌, ◌⊎◌, inl, inr, refl}
use workers_auth.Web.{Exit, value, stop, thrown, Reply}

-- The ways in which a step ends.
pub exit_cases :
    {A : Type 0} (e : Exit A)
    → ((a : A) × (e ≡ value a)) ⊎ (((reply : Reply) × (e ≡ stop reply)) ⊎ (e ≡ thrown))
exit_cases (value a) = inl (a, refl)
exit_cases (stop reply) = inr (inl (reply, refl))
exit_cases thrown = inr (inr refl)
