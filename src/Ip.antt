-- ===== src/Ip.antt =====
-- device-auth/ip.ts: the rate-limit key of a client address.
pub mod Text
use Prim.Native.String
use Prim.Native.Char.{code}
use workers_auth.Prelude.{
  ℕ, zero, suc, ◌+◌, ◌-◌, ◌*◌, ◌/◌, ◌%◌, String, Bool, true, ◌&&◌, ◌||◌, Option, none, some, List,
  [], ◌∷◌, eqb, ltb, leb, if◌then◌else◌, length, codes, get_or, is_some, ◌==◌,
}
use mathlib.Core.List as List
use workers_auth.Crypto.{hex_digits}
use workers_auth.Pin.{is_digit, all_digits, contains}
use workers_auth.Request.{is_space}
use workers_auth.Ip.Text.{◌<+>◌, lower, trim, unbracket, before_percent}

-- A split at one character: the first piece and the others.
unfoldable split_at : ℕ → List ℕ → List ℕ × List (List ℕ)
split_at sep [] = ([], [])
split_at sep (c ∷ cs) =
    let (piece, pieces) = split_at sep cs in
    if eqb c sep then ([], piece ∷ pieces) else (c ∷ piece, pieces)

abbrev split : ℕ → List ℕ → List (List ℕ)
split sep cs = let (piece, pieces) = split_at sep cs in piece ∷ pieces

unfoldable number : ℕ → ℕ → List ℕ → ℕ
number base n [] = n
number base n (c ∷ cs) = number base (n * base + (if is_digit c then c - 48 else c - 87)) cs

-- `\d{1,3}`
abbrev is_octet_shape : List ℕ → Bool
is_octet_shape p = leb 1 (length p) && (leb (length p) 3 && all_digits p)

-- The four numbers of a text of the shape of an IPv4 address, whatever their size.
abbrev quad_of : List (List ℕ) → Option (List ℕ)
quad_of (a ∷ b ∷ c ∷ d ∷ []) =
    if is_octet_shape a && (is_octet_shape b && (is_octet_shape c && is_octet_shape d))
    then some (number 10 0 a ∷ number 10 0 b ∷ number 10 0 c ∷ number 10 0 d ∷ [])
    else none
quad_of _ = none

unfoldable quad : List ℕ → Option (List ℕ)
unfolding split_at number
quad cs = quad_of (split b'.' cs)

unfoldable all_octets : List ℕ → Bool
all_octets [] = true
all_octets (n ∷ ns) = leb n 255 && all_octets ns

abbrev bounded : Option (List ℕ) → Option (List ℕ)
bounded none = none
bounded (some ns) = if all_octets ns then some ns else none

-- `ipv4`, with the numbers in place of the joined text.
unfoldable ipv4 : List ℕ → Option (List ℕ)
unfolding quad all_octets
ipv4 cs = bounded (quad cs)

-- `split('::')`
unfoldable split_double : List ℕ → List ℕ × List (List ℕ)
split_double [] = ([], [])
split_double (c ∷ []) = (c ∷ [], [])
split_double (c ∷ d ∷ cs) =
    let (piece, pieces) = split_double cs in
    let (piece', pieces') = split_double (d ∷ cs) in
    if eqb c b':' && eqb d b':' then ([], piece ∷ pieces) else (c ∷ piece', pieces')

abbrev parse : List ℕ → List (List ℕ)
parse [] = []
parse (c ∷ cs) = split b':' (c ∷ cs)

abbrev is_hex : ℕ → Bool
is_hex c = is_digit c || (leb b'a' c && leb c b'f')

unfoldable all_hex : List ℕ → Bool
all_hex [] = true
all_hex (c ∷ cs) = is_hex c && all_hex cs

-- `HEXTET_RE`
abbrev is_hextet : List ℕ → Bool
is_hextet h = leb 1 (length h) && (leb (length h) 4 && all_hex h)

unfoldable all_hextets : List (List ℕ) → Bool
unfolding all_hex
all_hextets [] = true
all_hextets (h ∷ hs) = is_hextet h && all_hextets hs

unfoldable numbers : List (List ℕ) → List ℕ
unfolding number
numbers [] = []
numbers (h ∷ hs) = number 16 0 h ∷ numbers hs

unfoldable zeros : ℕ → List ℕ
zeros zero = []
zeros (suc n) = 0 ∷ zeros n

-- Eight numbers from the halves about `::`, `missing` being at least 1; or without `::`.
abbrev fill : List ℕ × List (List ℕ) → Option (List ℕ)
fill (head, []) =
    let hs = parse head in if all_hextets hs && eqb (length hs) 8 then some (numbers hs) else none
fill (head, rest ∷ []) =
    let hs = parse head in
    let rs = parse rest in
    if all_hextets hs && (all_hextets rs && leb (length hs + length rs + 1) 8)
    then some
        (List.◌++◌ (numbers hs) (List.◌++◌ (zeros (8 - (length hs + length rs))) (numbers rs)))
    else none
fill _ = none

-- The last piece behind a colon, with what stands before it, the colon included.
unfoldable tail_split : List ℕ → Option (List ℕ × List ℕ)
tail_split [] = none
tail_split (c ∷ cs) = elim (tail_split cs) [
  | some (before, last) ↦ some (c ∷ before, last)
  | none ↦ if eqb c b':' then some (c ∷ [], cs) else none
]

abbrev digit : ℕ → String
digit n = get_or hex_digits n ""

-- `toString(16)` of a number below 65536, and `String` of one below 1000.
unfoldable hex_text : ℕ → String
hex_text n =
    if ltb n 16
    then digit n
    else if ltb n 256
    then digit (n / 16) <+> digit (n % 16)
    else if ltb n 4096
    then digit (n / 256) <+> digit (n / 16 % 16) <+> digit (n % 16)
    else digit (n / 4096) <+> digit (n / 256 % 16) <+> digit (n / 16 % 16) <+> digit (n % 16)

unfoldable decimal_text : ℕ → String
decimal_text n =
    if ltb n 10
    then digit n
    else if ltb n 100
    then digit (n / 10) <+> digit (n % 10)
    else digit (n / 100) <+> digit (n / 10 % 10) <+> digit (n % 10)

abbrev with_quad : List ℕ → Option (List ℕ) → Option (List ℕ)
with_quad before (some (a ∷ b ∷ c ∷ d ∷ [])) = fill (
    split_double
      (List.◌++◌ before (codes (hex_text (a * 256 + b) <+> ":" <+> hex_text (c * 256 + d)))))
with_quad before _ = none

abbrev with_tail : List ℕ → Option (List ℕ × List ℕ) → Option (List ℕ)
with_tail cs none = fill (split_double cs)
with_tail cs (some (before, last)) =
    if is_some (quad last) then with_quad before (ipv4 last) else fill (split_double cs)

-- The eight hextets of an IPv6 address; an IPv4 tail counts as two.
unfoldable expand_ipv6 : List ℕ → Option (List ℕ)
unfolding quad ipv4 split_double tail_split hex_text all_hextets numbers zeros
expand_ipv6 cs = with_tail cs (tail_split cs)

abbrev dotted : ℕ → ℕ → ℕ → ℕ → String
dotted a b c d =
    decimal_text a <+> "." <+> decimal_text b <+> "." <+> decimal_text c <+> "." <+> decimal_text d

-- `::ffff:0:0/96` is keyed as the IPv4 address that it carries, any other by its /64.
abbrev key_of : String → Option (List ℕ) → String
key_of value (some (a ∷ b ∷ c ∷ d ∷ e ∷ f ∷ hi ∷ lo ∷ [])) =
    if eqb a 0 && (eqb b 0 && (eqb c 0 && (eqb d 0 && (eqb e 0 && eqb f 65535))))
    then dotted (hi / 256) (hi % 256) (lo / 256) (lo % 256)
    else hex_text a <+> ":" <+> hex_text b <+> ":" <+> hex_text c <+> ":" <+> hex_text d <+> "::/64"
key_of value _ = value

abbrev key_with : String → Option (List ℕ) → String
key_with value (some (a ∷ b ∷ c ∷ d ∷ [])) = dotted a b c d
key_with value _ =
    if contains (codes value) b':' then key_of value (expand_ipv6 (codes value)) else value

abbrev address_of : String → String
address_of raw = before_percent (unbracket (lower (trim raw)))

unfoldable pub ip_rate_limit_key : String → String
unfolding lower trim unbracket before_percent ipv4 expand_ipv6 hex_text decimal_text
ip_rate_limit_key raw = key_with (address_of raw) (ipv4 (codes (address_of raw)))

abbrev mapped : String
mapped = ip_rate_limit_key " [::FFFF:203.0.113.7] "
