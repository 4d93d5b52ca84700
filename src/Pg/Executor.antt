-- ===== src/Pg/Executor.antt =====
-- store/pg/executor.ts: what the stores need of a driver, and its one retry.
pub mod Once
use workers_auth.Prelude.{
  ℕ, String, Bool, true, false, ◌&&◌, ◌||◌, Option, none, some, List, [], ◌∷◌, eqb, leb,
  if◌then◌else◌, length, codes, ◌==◌,
}
use workers_auth.Pin.{is_digit}

abbrev is_first : ℕ → Bool
is_first c = (leb b'a' c && leb c b'z') || eqb c b'_'

unfoldable all_rest : List ℕ → Bool
all_rest [] = true
all_rest (c ∷ cs) = (is_first c || is_digit c) && all_rest cs

abbrev is_identifier : List ℕ → Bool
is_identifier [] = false
is_identifier (c ∷ cs) = is_first c && (all_rest cs && leb (length cs) 62)

-- `assertPgIdentifier`; none is a throw, and so is a name that is no text.
unfoldable pub assert_pg_identifier : Option String → Option String
unfolding all_rest
assert_pg_identifier none = none
assert_pg_identifier (some name) = if is_identifier (codes name) then some name else none

-- What a call comes to: a value, or an error with its `code`, where that is a text.
pub data Outcome (A : Type 0) : Type 0 where
  ok : A → Outcome A
  err : (sqlstate : Option String) → Outcome A

-- `RETRYABLE_SQLSTATES`
abbrev pub is_retryable : Option String → Bool
is_retryable none = false
is_retryable (some sqlstate) = sqlstate == "40001" || sqlstate == "40P01"

-- `retryOnce`, of the function's first and second run.
unfoldable pub retry_once : {S A : Type 0} → (first second : S → Outcome A × S) → S → Outcome A × S
retry_once first second s =
    let (outcome, after) = first s in
    elim outcome [
      | ok a ↦ (ok a, after)
      | err sqlstate ↦ if is_retryable sqlstate then second after else (err sqlstate, after)
    ]
