-- ===== src/Text.antt =====
-- Python text as the program uses it: slices from the left, decimal print, truth of a string.
pub mod Order
use Prim.Native.Char.{Char}
use Prim.Native.String.{String, ◌++◌}
use mathlib.Core.List.{List, [], ◌∷◌}
use text.Mathlib.Text.{◌==◌ as str_eq}
use itdashboard.Prelude.{
  ℕ, zero, suc, ◌≡◌, refl, Bool, not, ◌+◌, ◌/◌, ◌%◌, ltb, if◌then◌else◌, Option, none, some,
}

-- `s[:n]`
unfoldable pub left : ℕ → String → String
left zero s = ""
left (suc n) String.[] = ""
left (suc n) (String.◌∷◌ c s) = String.◌∷◌ c (left n s)

-- `bool(s)`
abbrev pub truthy : String → Bool
truthy s = not (str_eq s "")

-- `x or default`, for a text that may be None.
abbrev pub or_else : Option String → String → String
or_else none default = default
or_else (some s) default = if truthy s then s else default

-- An f-string: its pieces, one after the other.
unfoldable pub concat : List String → String
concat [] = ""
concat (s ∷ rest) = s ++ concat rest

-- `separator.join(parts)`
unfoldable pub join : String → List String → String
join separator [] = ""
join separator (s ∷ []) = s
join separator (s ∷ t ∷ rest) = s ++ separator ++ join separator (t ∷ rest)

-- The last decimal digit of a number.
digit : ℕ → Char
digit n =
    let d = n % 10 in
    if ltb d 1
    then "0"
    else if ltb d 2
    then "1"
    else if ltb d 3
    then "2"
    else if ltb d 4
    then "3"
    else if ltb d 5
    then "4"
    else if ltb d 6
    then "5"
    else if ltb d 7
    then "6"
    else if ltb d 8
    then "7"
    else if ltb d 9
    then "8"
    else "9"

digits : ℕ → ℕ → String → String
unfolding digit
digits zero n acc = acc
digits (suc fuel) n acc =
    let rest = digits fuel (n / 10) (String.◌∷◌ (digit n) acc) in
    if ltb n 10 then String.◌∷◌ (digit n) acc else rest

-- `str(n)`; a number has fewer digits than its successor's value.
unfoldable pub decimal : ℕ → String
unfolding digits
decimal n = digits (n + 1) n ""

decimal_test : decimal 1207 ≡ "1207"
unfolding decimal
decimal_test = refl

left_test : left 3 "abcdef" ≡ "abc"
unfolding left
left_test = refl
