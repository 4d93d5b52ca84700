-- ===== src/Prelude/Text.antt =====
-- The code points of a text, and texts by position in a list.
use Prim.Native.Nat.{ℕ, zero, suc, ◌+◌, ◌/◌, ◌%◌}
use workers_auth.Prelude.Tests.{ltb, if◌then◌else◌}
use Prim.Native.Char.{code}
use Prim.Native.String.{String}
use mathlib.Core.List.{List, [], ◌∷◌, ◌++◌}

abbrev pub codes : String → List ℕ
codes String.[] = []
codes (String.◌∷◌ c s) = code c ∷ codes s

abbrev pub get_or {ℓ} : {A : Type ℓ} → List A → ℕ → A → A
get_or [] i d = d
get_or (x ∷ xs) zero d = x
get_or (x ∷ xs) (suc i) d = get_or xs i d

-- The decimal digits of a number, on fuel; a number has fewer digits than its successor.
unfoldable pub decimal_from : ℕ → ℕ → List ℕ
decimal_from zero n = []
decimal_from (suc fuel) n =
    let longer = decimal_from fuel (n / 10) ++ ((n % 10 + 48) ∷ []) in
    if ltb n 10 then (n + 48) ∷ [] else longer

unfoldable pub decimal : ℕ → List ℕ
unfolding decimal_from
decimal n = decimal_from (n + 1) n
