-- ===== src/Ip/Text.antt =====
-- device-auth/ip.ts: the text operations on a client address. `toLowerCase` is that of Latin-1, the
-- letters that a header can hold.
use Prim.Native.String
use Prim.Native.Char.{code}
use workers_auth.Prelude.{
  ◌-◌, String, ◌&&◌, ◌||◌, Option, none, some, List, [], ◌∷◌, eqb, leb, if◌then◌else◌, get_or, ◌==◌,
}
use workers_auth.Request.{is_space}

infixr 65 ◌<+>◌
abbrev pub ◌<+>◌ : String → String → String
s <+> t = String.◌++◌ s t

abbrev latin_letters : List String
latin_letters =
    "à" ∷ "á" ∷ "â" ∷ "ã" ∷ "ä" ∷ "å" ∷ "æ" ∷ "ç" ∷ "è" ∷ "é" ∷ "ê" ∷ "ë" ∷ "ì" ∷ "í" ∷ "î" ∷ "ï"
    ∷ "ð" ∷ "ñ" ∷ "ò" ∷ "ó" ∷ "ô" ∷ "õ" ∷ "ö" ∷ "×" ∷ "ø" ∷ "ù" ∷ "ú" ∷ "û" ∷ "ü" ∷ "ý" ∷ "þ" ∷ []

abbrev ascii_letters : List String
ascii_letters =
    "a" ∷ "b" ∷ "c" ∷ "d" ∷ "e" ∷ "f" ∷ "g" ∷ "h" ∷ "i" ∷ "j" ∷ "k" ∷ "l" ∷ "m" ∷ "n" ∷ "o" ∷ "p"
    ∷ "q" ∷ "r" ∷ "s" ∷ "t" ∷ "u" ∷ "v" ∷ "w" ∷ "x" ∷ "y" ∷ "z" ∷ []

unfoldable pub lower : String → String
lower String.[] = ""
lower (String.◌∷◌ c s) =
    let rest = lower s in
    let n = code c in
    if leb 65 n && leb n 90
    then get_or ascii_letters (n - 65) "" <+> rest
    else if leb 192 n && leb n 222
    then get_or latin_letters (n - 192) "" <+> rest
    else String.◌∷◌ c rest

unfoldable pub trim_end : String → String
trim_end String.[] = ""
trim_end (String.◌∷◌ c s) =
    let rest = trim_end s in if is_space (code c) && rest == "" then "" else String.◌∷◌ c rest

unfoldable pub trim : String → String
unfolding trim_end
trim String.[] = ""
trim (String.◌∷◌ c s) =
    let rest = trim s in if is_space (code c) then rest else trim_end (String.◌∷◌ c s)

-- `(.*)\]$` behind an opening bracket: the text before the last bracket, on one line.
unfoldable until_close : String → Option String
until_close String.[] = none
until_close (String.◌∷◌ c String.[]) = if eqb (code c) b']' then some "" else none
until_close (String.◌∷◌ c s) =
    let rest = until_close s in
    elim rest [
      | none ↦ none
      | some inner ↦
          if eqb (code c) 10 || (eqb (code c) 13 || (eqb (code c) 8232 || eqb (code c) 8233))
          then none
          else some (String.◌∷◌ c inner)
    ]

abbrev or_whole : String → Option String → String
or_whole whole none = whole
or_whole whole (some inner) = inner

unfoldable pub unbracket : String → String
unfolding until_close
unbracket String.[] = ""
unbracket (String.◌∷◌ c s) =
    if eqb (code c) b'[' then or_whole (String.◌∷◌ c s) (until_close s) else String.◌∷◌ c s

-- `split('%')[0]`
unfoldable pub before_percent : String → String
before_percent String.[] = ""
before_percent (String.◌∷◌ c s) =
    let rest = before_percent s in if eqb (code c) b'%' then "" else String.◌∷◌ c rest
