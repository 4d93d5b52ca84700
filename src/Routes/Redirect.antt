-- ===== src/Routes/Redirect.antt =====
-- Where the callback may redirect to.
use workers_auth.Prelude.{
  ℕ, ◌≡◌, ◌≢◌, ◌⊎◌, refl, String, Bool, true, false, ◌||◌, not, some, List, [], ◌∷◌, inl, inr,
  arith, Bool-cases, codes, eqb, get_or, All, select_where,
}
use workers_auth.Pin.{contains}
use workers_auth.Routes.{safe_redirect_path, is_local, begins_local}

-- What URL parsing keeps of a text: it drops tabs, line feeds and carriage returns.
abbrev is_kept : ℕ → Bool
is_kept c = not (eqb c 9 || (eqb c 10 || eqb c 13))

abbrev pub url_text : List ℕ → List ℕ
url_text cs = select_where is_kept cs

-- As URL parsing reads it, a path on the same site: one slash, then neither a slash nor a backslash,
-- either of which would begin a host.
pub record IsSameSite (text : List ℕ) : Type 0 where
  pub rest : List ℕ
  pub starts : url_text text ≡ b'/' ∷ rest
  pub no_slash : get_or rest 0 0 ≢ b'/'
  pub no_backslash : get_or rest 0 0 ≢ 92

-- A text in which URL parsing drops nothing.
kept_lem :
    (cs : List ℕ)
    → All (λ c. c ≢ 9) cs
    → (contains cs 92 || (contains cs 10 || contains cs 13)) ≡ false
    → url_text cs ≡ cs
unfolding contains
kept_lem [] tabs h = refl
kept_lem (c ∷ cs) (tab, tabs) h = ground (arith, kept_lem cs tabs (ground arith))

single_lem : (cs : List ℕ) → begins_local cs ≡ true → (get_or cs 0 0 ≢ b'/') × (get_or cs 0 0 ≢ 92)
single_lem [] h = (ground arith, ground arith)
single_lem (c ∷ cs) h = (ground arith, ground arith)

local_lem : (cs : List ℕ) → All (λ c. c ≢ 9) cs → is_local cs ≡ true → IsSameSite cs
local_lem [] tabs h = ground arith
local_lem (c ∷ cs) tabs h =
    let (no_slash, no_backslash) = single_lem cs (ground arith) in
    record {
      rest = cs;
      starts = ground (arith, kept_lem (c ∷ cs) tabs (ground arith));
      no_slash = no_slash;
      no_backslash = no_backslash;
    }

-- A candidate with no tab is replaced by the configured target, or it is kept as it is and, as URL
-- parsing reads it, is a path on the same site. (With a tab it may not be: URL parsing drops the
-- tab, and the code lets it pass.)
pub safe_redirect_path-IsSameSite :
    (candidate fallback : String)
    → All (λ c. c ≢ 9) (codes candidate)
    → (safe_redirect_path (some candidate) fallback ≡ fallback)
      ⊎ ((safe_redirect_path (some candidate) fallback ≡ candidate) × IsSameSite (codes candidate))
unfolding safe_redirect_path
safe_redirect_path-IsSameSite candidate fallback tabs =
    elim (Bool-cases (is_local (codes candidate))) [
      | inl e ↦ inr (rw e, local_lem (codes candidate) tabs e)
      | inr e ↦ inl (rw e)
    ]
