-- ===== src/Pin.antt =====
-- credentials.ts: the format of a PIN, and the PINs that are refused as weak. A PIN is taken apart
-- into its digits, `charCodeAt(0) - 48`.
pub mod Weak
use mathlib.Core.List.{reverse}
use workers_auth.Prelude.{
  ℕ, zero, suc, ◌+◌, ◌-◌, ◌*◌, ◌%◌, ◌/◌, String, Bool, true, false, ◌&&◌, ◌||◌, not, List, [], ◌∷◌,
  ◌++◌, map, eqb, ltb, leb, if◌then◌else◌, length, take, drop, get_or, codes, ◌==◌,
}

abbrev pub is_digit : ℕ → Bool
is_digit c = leb b'0' c && leb c b'9'

unfoldable pub all_digits : List ℕ → Bool
all_digits [] = true
all_digits (c ∷ cs) = is_digit c && all_digits cs

-- `/^\d{6}$/`
unfoldable pub is_pin_format : String → Bool
unfolding all_digits
is_pin_format pin = eqb (length (codes pin)) 6 && all_digits (codes pin)

unfoldable pub contains : List ℕ → ℕ → Bool
contains [] n = false
contains (m ∷ ms) n = eqb m n || contains ms n

-- `new Set(d).size`
unfoldable pub distinct : List ℕ → ℕ
unfolding contains
distinct [] = 0
distinct (m ∷ ms) = (if contains ms m then 0 else 1) + distinct ms

unfoldable pub same_list : List ℕ → List ℕ → Bool
same_list [] [] = true
same_list (a ∷ xs) (b ∷ ys) = eqb a b && same_list xs ys
same_list _ _ = false

-- The loop over neighbours, with the step 1 for `up` and 9 for `down`.
unfoldable pub is_run : ℕ → List ℕ → Bool
is_run step (a ∷ b ∷ ds) = eqb b ((a + step) % 10) && is_run step (b ∷ ds)
is_run step _ = true

unfoldable pub repeat : ℕ → List ℕ → List ℕ
repeat zero ds = []
repeat (suc n) ds = ds ++ repeat n ds

-- Two lists of texts, as digits.
abbrev digits_of : String → List ℕ
digits_of s = map (λ c. c - 48) (codes s)

abbrev keypad_rows : List String
keypad_rows = "123" ∷ "456" ∷ "789" ∷ "147" ∷ "258" ∷ "369" ∷ "580" ∷ "159" ∷ "357" ∷ []

-- `KEYPAD_LINES.has`: each line is in the set in both directions.
unfoldable pub on_keypad : List String → List ℕ → Bool
unfolding same_list
on_keypad [] ds = false
on_keypad (l ∷ lines) ds =
    same_list (digits_of l) ds || (same_list (reverse (digits_of l)) ds || on_keypad lines ds)

abbrev at : List ℕ → ℕ → ℕ
at ds i = get_or ds i 0

-- The rules of `isWeakPin` on the digits, up to the list of common PINs.
unfoldable pub is_shape : List ℕ → Bool
is_shape d =
    ltb (distinct d) 3
    || ((is_run 1 d || is_run 9 d)
        || (same_list (reverse d) d
            || (same_list (repeat 3 (take 2 d)) d
                || (same_list (repeat 2 (take 3 d)) d
                    || ((eqb (at d 0) (at d 1) && (eqb (at d 2) (at d 3) && eqb (at d 4) (at d 5)))
                        || ((eqb (at d 0) (at d 1)
                              && (eqb (at d 1) (at d 2)
                                  && (eqb (at d 3) (at d 4) && eqb (at d 4) (at d 5))))
                            || (on_keypad keypad_rows (take 3 d)
                                && on_keypad keypad_rows (drop 3 d))))))))

abbrev two : List ℕ → ℕ → ℕ
two d i = at d i * 10 + at d (i + 1)

abbrev is_month : ℕ → Bool
is_month n = leb 1 n && leb n 12

abbrev is_day : ℕ → Bool
is_day n = leb 1 n && leb n 31

-- `/^(19|20)\d\d$/` on four digits
abbrev is_century : ℕ → Bool
is_century n = eqb n 19 || eqb n 20

unfoldable pub is_date_like : List ℕ → Bool
is_date_like d =
    let a = two d 0 in
    let b = two d 2 in
    let c = two d 4 in
    (is_day a && is_month b)
    || ((is_month a && is_day b)
        || ((is_month b && is_day c)
            || ((is_century a && is_month c) || (is_month a && is_century b))))

-- `COMMON_PINS`
abbrev common_pins : List String
common_pins =
    "123456" ∷ "696969" ∷ "111111" ∷ "654321" ∷ "123123" ∷ "666666" ∷ "121212" ∷ "131313" ∷ "000000"
    ∷ "112233" ∷ "222222" ∷ "777777" ∷ "987654" ∷ "232323" ∷ "555555" ∷ "123321" ∷ "999999"
    ∷ "333333" ∷ "888888" ∷ "444444" ∷ "101010" ∷ "420420" ∷ "147147" ∷ "212121" ∷ "242424"
    ∷ "007007" ∷ "123654" ∷ "789456" ∷ "252525" ∷ "159753" ∷ "141414" ∷ "202020" ∷ "151515"
    ∷ "323232" ∷ "314159" ∷ "456789" ∷ "246810" ∷ "111222" ∷ "181818" ∷ "171717" ∷ "147258"
    ∷ "102030" ∷ "363636" ∷ "343434" ∷ "454545" ∷ "424242" ∷ "272727" ∷ "098765" ∷ "159357"
    ∷ "147852" ∷ "191919" ∷ "321321" ∷ "010101" ∷ "565656" ∷ "362436" ∷ "456123" ∷ "741852"
    ∷ "123789" ∷ "505050" ∷ "262626" ∷ "161616" ∷ "000007" ∷ "636363" ∷ "313131" ∷ "666999"
    ∷ "010203" ∷ "134679" ∷ "420247" ∷ "124578" ∷ "353535" ∷ "456456" ∷ "545454" ∷ "303030"
    ∷ "321654" ∷ "135790" ∷ "143143" ∷ "898989" ∷ "787878" ∷ "911911" ∷ "515151" ∷ "234567"
    ∷ "909090" ∷ "474747" ∷ "989898" ∷ "012345" ∷ "196969" ∷ "142536" ∷ "282828" ∷ "404040"
    ∷ "727272" ∷ "200000" ∷ "369369" ∷ "292929" ∷ "987456" ∷ "969696" ∷ "100000" ∷ "525252"
    ∷ "311311" ∷ "223344" ∷ "757575" ∷ "585858" ∷ "187187" ∷ "112358" ∷ "789789" ∷ "753951"
    ∷ "555666" ∷ "717171" ∷ "686868" ∷ "635241" ∷ "987987" ∷ "414141" ∷ "434343" ∷ "575757"
    ∷ "090909" ∷ "000001" ∷ "420000" ∷ "747474" ∷ "373737" ∷ "120676" ∷ "655321" ∷ "963852"
    ∷ "646464" ∷ "124038" ∷ "123457" ∷ "852456" ∷ "030303" ∷ "767676" ∷ "616161" ∷ "515000"
    ∷ "656565" ∷ "626262" ∷ "336699" ∷ "951753" ∷ "494949" ∷ "383838" ∷ "456654" ∷ "818181"
    ∷ "222333" ∷ "102938" ∷ "737373" ∷ "789987" ∷ "484848" ∷ "121314" ∷ "878787" ∷ "070462"
    ∷ "427900" ∷ "676767" ∷ "123987" ∷ "159159" ∷ "112211" ∷ "535353" ∷ "100100" ∷ "332211"
    ∷ "778899" ∷ "321123" ∷ "797979" ∷ "464646" ∷ "543210" ∷ "050505" ∷ "445566" ∷ "333666"
    ∷ "789654" ∷ "020202" ∷ "616913" ∷ "199999" ∷ "123098" ∷ "753159" ∷ "666777" ∷ "902100"
    ∷ "222777" ∷ "456321" ∷ "515051" ∷ "606060" ∷ "159951" ∷ "142857" ∷ "789123" ∷ "393939"
    ∷ "868686" ∷ "567890" ∷ "654456" ∷ "258369" ∷ "369258" ∷ "357159" ∷ "520520" ∷ "520131"
    ∷ "131420" ∷ "147369" ∷ "258456" ∷ "112112" ∷ []

unfoldable pub has : List String → String → Bool
has [] pin = false
has (p ∷ pins) pin = p == pin || has pins pin

unfoldable pub is_weak_pin : Bool → String → Bool
is_weak_pin reject_date_like pin =
    let d = digits_of pin in
    is_shape d || (has common_pins pin || (reject_date_like && is_date_like d))
