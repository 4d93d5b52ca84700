-- ===== src/Neon/Picked.antt =====
-- The key that `pick` takes from the key set.
use mathlib.Core.Path.{subst}
use workers_auth.Prelude.{
  ◌≡◌, ◌≢◌, ◌⊎◌, ◌++◌, refl, ap, String, true, Option, none, some, List, [], ◌∷◌, arith, inl, inr,
  Bool-cases, Option-cases, ◌==◌, eq_iff,
}
use workers_auth.Neon.{JwsAlgorithm, Jwk, kty_of}
use workers_auth.Neon.Keys.{has_kid, find_kid, find_kty, pick, text_of}

pub some_same : {A : Type 0} (a b : A) → some a ≡ some b → a ≡ b
some_same a b e = cc

-- A key of the set for this key id; with no key id, or an empty one, for the algorithm's key type.
pub record IsPicked (keys : List Jwk) (kid : String) (alg : JwsAlgorithm) (jwk : Jwk) : Type 0 where
  pub before : List Jwk
  pub after : List Jwk
  pub member : keys ≡ before ++ (jwk ∷ after)
  pub named : ((kid ≢ "") × (jwk.kid ≡ some kid)) ⊎ ((kid ≡ "") × (jwk.kty ≡ kty_of alg))

abbrev Among : List Jwk → Jwk → Type 0
Among keys jwk = (before : List Jwk) × (after : List Jwk) × (keys ≡ before ++ (jwk ∷ after))

later : (first : Jwk) (keys : List Jwk) (jwk : Jwk) → Among keys jwk → Among (first ∷ keys) jwk
later first keys jwk (before, after, e) = (first ∷ before, after, ap (λ rest. first ∷ rest) e)

has_kid_lem : (kid : String) (jwk : Jwk) → has_kid kid jwk ≡ true → jwk.kid ≡ some kid
has_kid_lem kid jwk h = elim (Option-cases jwk.kid) [
  | inl e ↦ absurd (ground (arith, e, h))
  | inr (k, e) ↦ ground (arith, e, h, eq_iff k kid)
]

find_kid_lem :
    (kid : String) (keys : List Jwk) (jwk : Jwk)
    → find_kid kid keys ≡ some jwk
    → Among keys jwk × (jwk.kid ≡ some kid)
unfolding find_kid
find_kid_lem kid [] jwk h = absurd (ground (arith, h))
find_kid_lem kid (first ∷ keys) jwk h = elim (Bool-cases (has_kid kid first)) [
  | inl e ↦
      let same : first ≡ jwk = some_same first jwk (rw e at h) in
      subst (λ (j : Jwk). Among (first ∷ keys) j × (j.kid ≡ some kid)) same
        (([], keys, refl), has_kid_lem kid first e)
  | inr e ↦
      let (among, named) = find_kid_lem kid keys jwk (rw e at h) in
      (later first keys jwk among, named)
]

find_kty_lem :
    (kty : String) (keys : List Jwk) (jwk : Jwk)
    → find_kty kty keys ≡ some jwk
    → Among keys jwk × (jwk.kty ≡ kty)
unfolding find_kty
find_kty_lem kty [] jwk h = absurd (ground (arith, h))
find_kty_lem kty (first ∷ keys) jwk h = elim (Bool-cases (first.kty == kty)) [
  | inl e ↦
      let same : first ≡ jwk = some_same first jwk (rw e at h) in
      subst (λ (j : Jwk). Among (first ∷ keys) j × (j.kty ≡ kty)) same
        (([], keys, refl), (eq_iff first.kty kty).0 e)
  | inr e ↦
      let (among, named) = find_kty_lem kty keys jwk (rw e at h) in
      (later first keys jwk among, named)
]

pub pick-IsPicked :
    (kid : Option String) (alg : JwsAlgorithm) (keys : List Jwk) (jwk : Jwk)
    → pick kid alg keys ≡ some jwk
    → IsPicked keys (text_of kid) alg jwk
pick-IsPicked none alg keys jwk h =
    let (among, named) = find_kty_lem (kty_of alg) keys jwk h in
    record { before = among.0; after = among.1; member = among.2; named = inr (refl, named) }
pick-IsPicked (some kid) alg keys jwk h = elim (Bool-cases (kid == "")) [
  | inl e ↦
      let (among, named) = find_kty_lem (kty_of alg) keys jwk (rw (e, pick) at h) in
      record {
        before = among.0;
        after = among.1;
        member = among.2;
        named = inr ((eq_iff kid "").0 e, named);
      }
  | inr e ↦
      let (among, named) = find_kid_lem kid keys jwk (rw (e, pick) at h) in
      record {
        before = among.0;
        after = among.1;
        member = among.2;
        named = inl (λ f. ground (arith, e, eq_iff kid "", f), named);
      }
]
