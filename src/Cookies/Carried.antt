-- ===== src/Cookies/Carried.antt =====
-- The attributes that a browser reads from a serialised cookie.
use mathlib.Core.Option
use workers_auth.Prelude.{
  length, is_some, if◌then◌else◌, ◌||◌, ℕ, ◌+◌, ◌≡◌, refl, Bool, true, false, not, Option, none,
  some, List, [], ◌∷◌, arith, codes, decimal,
}
use workers_auth.Pin.{same_list}
use workers_auth.Cookies.{
  CookieAttributes, DateText, parts, after_prefix, or_default, is_empty, same_site_text, lax,
}

-- What a browser reads: the first part, and the others behind a space each.
abbrev pub spaced : List (List ℕ) → List (List ℕ)
spaced [] = []
spaced (part ∷ rest) = (b' ' ∷ part) ∷ spaced rest

-- What a browser makes of the parts.
abbrev pub read_back : List (List ℕ) → List ℕ × List (List ℕ)
read_back [] = ([], [])
read_back (part ∷ rest) = (part, spaced rest)

abbrev or_else : Option (List ℕ) → Option (List ℕ) → Option (List ℕ)
or_else none other = other
or_else (some text) other = some text

-- The attribute's value among the pieces behind the first semicolon, or none.
abbrev pub value_of : List ℕ → List (List ℕ) → Option (List ℕ)
value_of prefix [] = none
value_of prefix (piece ∷ pieces) = or_else (after_prefix prefix piece) (value_of prefix pieces)

-- Does a flag stand among the pieces?
abbrev pub has_flag : List ℕ → List (List ℕ) → Bool
has_flag flag [] = false
has_flag flag (piece ∷ pieces) = same_list flag piece || has_flag flag pieces

abbrev pub one_if : Bool → ℕ
one_if b = if b then 1 else 0

-- What a browser reads from the pieces, against what was asked for.
pub record Carries (expires : DateText) (attrs : CookieAttributes) (pieces : List (List ℕ))
    : Type 0 where
  pub path : value_of (codes " Path=") pieces ≡ some (or_default attrs.path (codes "/"))
  pub max_age : value_of (codes " Max-Age=") pieces ≡ Option.map decimal attrs.max_age
  pub ends : value_of (codes " Expires=") pieces ≡ Option.map expires attrs.max_age
  pub domain :
      value_of (codes " Domain=") pieces
      ≡ (if is_empty (or_default attrs.domain []) then none else attrs.domain)
  pub http_only : has_flag (codes " HttpOnly") pieces ≡ or_default attrs.http_only true
  pub secure : has_flag (codes " Secure") pieces ≡ or_default attrs.secure true
  pub same_site :
      value_of (codes " SameSite=") pieces ≡ some (same_site_text (or_default attrs.same_site lax))
  -- there are no others
  pub count :
      length pieces
      ≡ 2
        + ((if is_some attrs.max_age then 2 else 0)
            + (one_if (not (is_empty (or_default attrs.domain [])))
                + (one_if (or_default attrs.http_only true)
                    + one_if (or_default attrs.secure true))))

pub carries :
    (expires : DateText) (name value : List ℕ) (attrs : CookieAttributes)
    → Carries expires attrs (read_back (parts expires name value attrs)).1
unfolding after_prefix same_list
carries expires name value attrs = record {
  path = refl;
  max_age = ground arith;
  ends = ground arith;
  domain = ground arith;
  http_only = ground arith;
  secure = ground arith;
  same_site = ground arith;
  count = ground arith;
}
