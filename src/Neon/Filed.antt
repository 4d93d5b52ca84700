-- ===== src/Neon/Filed.antt =====
-- What the key of an imported key tells: the key id and the algorithm.
use Prim.Native.String
use text.Mathlib.TextLemmas.{nil-append, cons-append, append_cancel_right}
use workers_auth.Prelude.{
  ℕ, ◌≡◌, ◌∙◌, refl, sym, ap, String, Bool, true, false, Option, List, [], ◌∷◌, eqb, if◌then◌else◌,
  codes,
}
use workers_auth.Pin.{same_list}
use workers_auth.Neon.{JwsAlgorithm, rs256, rs384, rs512, es256, es384, ed_dsa, alg_name}
use workers_auth.Neon.Keys.{cache_key, text_of}

-- The text after the last bar, and whether there is one.
unfoldable after_bar : List ℕ → Bool × List ℕ
after_bar [] = (false, [])
after_bar (c ∷ cs) =
    let (found, rest) = after_bar cs in
    if found then (true, rest) else if eqb c b'|' then (true, cs) else (false, [])

bar_found :
    (k n : String)
    → after_bar (codes n) ≡ (false, [])
    → after_bar (codes (String.◌++◌ k (String.◌++◌ "|" n))) ≡ (true, codes n)
unfolding after_bar
bar_found String.[] n h =
    rw (nil-append (String.◌++◌ "|" n), cons-append "|" "" n, nil-append n, h) refl
bar_found (String.◌∷◌ c k) n h = rw (cons-append c k (String.◌++◌ "|" n), bar_found k n h) refl

no_bar : (alg : JwsAlgorithm) → after_bar (codes (alg_name alg)) ≡ (false, [])
unfolding after_bar
no_bar rs256 = refl
no_bar rs384 = refl
no_bar rs512 = refl
no_bar es256 = refl
no_bar es384 = refl
no_bar ed_dsa = refl

-- The algorithm of a name.
unfoldable named : List ℕ → JwsAlgorithm
named cs =
    if same_list cs (codes "RS256")
    then rs256
    else if same_list cs (codes "RS384")
    then rs384
    else if same_list cs (codes "RS512")
    then rs512
    else if same_list cs (codes "ES256")
    then es256
    else if same_list cs (codes "ES384")
    then es384
    else ed_dsa

named_lem : (alg : JwsAlgorithm) → named (codes (alg_name alg)) ≡ alg
unfolding named same_list
named_lem rs256 = refl
named_lem rs384 = refl
named_lem rs512 = refl
named_lem es256 = refl
named_lem es384 = refl
named_lem ed_dsa = refl

-- The key of the cache determines the algorithm, whatever the key ids are.
pub cache_key_alg :
    (kid kid' : Option String) (alg alg' : JwsAlgorithm)
    → cache_key kid alg ≡ cache_key kid' alg'
    → alg ≡ alg'
cache_key_alg kid kid' alg alg' e =
    let a = bar_found (text_of kid) (alg_name alg) (no_bar alg) in
    let b = bar_found (text_of kid') (alg_name alg') (no_bar alg') in
    let c = sym a ∙ (ap (λ (s : String). after_bar (codes s)) e ∙ b) in
    sym (named_lem alg) ∙ (ap (λ (x : Bool × List ℕ). named x.1) c ∙ named_lem alg')

-- The key of the cache determines the text of the key id, too.
pub cache_key_kid :
    (kid kid' : Option String) (alg alg' : JwsAlgorithm)
    → cache_key kid alg ≡ cache_key kid' alg'
    → text_of kid ≡ text_of kid'
cache_key_kid kid kid' alg alg' e =
    let same = cache_key_alg kid kid' alg alg' e in
    append_cancel_right (text_of kid) (text_of kid') (String.◌++◌ "|" (alg_name alg)) (
      e
      ∙ ap (λ (a : JwsAlgorithm). String.◌++◌ (text_of kid') (String.◌++◌ "|" (alg_name a)))
          (sym same))
