-- ===== src/Topology/Text.antt =====
-- The text of a topology file (src/core/zipc.c: topology_trim, topology_parse_u64, and the calls of
-- the C library under them). A string is the list of its characters, by their codes.
use z_ipc.Base.{
  ℕ, Bool, true, false, Option, none, some, List, [], ◌∷◌, ltb, leb, ◌==◌, ◌&&◌, ◌||◌, not, ◌+◌,
  ◌-◌, ◌*◌, ◌^◌,
}
use z_ipc.Base.{if◌then◌else◌}
use z_ipc.Word.{u64, u64_max}

abbrev pub String : Type 0
String = List ℕ

abbrev pub is_empty : String → Bool
is_empty [] = true
is_empty (c ∷ cs) = false

-- Space, tab, carriage return and newline.
abbrev pub blank : ℕ → Bool
blank c = (c == 32) || (c == 9) || (c == 13) || (c == 10)

unfoldable pub trim_front : String → String
trim_front [] = []
trim_front (c ∷ cs) = let rest = trim_front cs in if blank c then rest else c ∷ cs

unfoldable pub trim_back : String → String
trim_back [] = []
trim_back (c ∷ cs) = let rest = trim_back cs in if blank c && is_empty rest then [] else c ∷ rest

unfoldable pub topology_trim : String → String
topology_trim s = trim_back (trim_front s)

-- The value of a digit, or one that no base has.
unfoldable pub digit : ℕ → ℕ
digit c =
    if leb 48 c && leb c 57
    then c - 48
    else if leb 97 c && leb c 122
    then c - 87
    else if leb 65 c && leb c 90
    then c - 55
    else 255

-- The digits of a base, behind those that make `value`, and what follows them.
unfoldable pub digits : ℕ → ℕ → String → ℕ × String
digits base value [] = (value, [])
digits base value (c ∷ cs) =
    let rest = digits base (value * base + digit c) cs in
    if ltb (digit c) base then rest else (value, c ∷ cs)

-- In base 0: hexadecimal behind 0x, octal behind 0, else decimal. It is none without a digit.
unfoldable pub number : String → Option (ℕ × String)
number [] = none
number (c ∷ []) = if ltb (digit c) 10 then some (digits 10 0 (c ∷ [])) else none
number (c ∷ d ∷ []) =
    if not (ltb (digit c) 10)
    then none
    else some (digits (if c == 48 then 8 else 10) 0 (c ∷ d ∷ []))
number (c ∷ d ∷ e ∷ rest) =
    if not (ltb (digit c) 10)
    then none
    else if (c == 48) && ((d == 120) || (d == 88)) && ltb (digit e) 16
    then some (digits 16 0 (e ∷ rest))
    else some (digits (if c == 48 then 8 else 10) 0 (c ∷ d ∷ e ∷ rest))

-- `isspace`
unfoldable pub skip_spaces : String → String
skip_spaces [] = []
skip_spaces (c ∷ cs) =
    let rest = skip_spaces cs in if (c == 32) || (leb 9 c && leb c 13) then rest else c ∷ cs

-- Past 64 bits the largest word, whatever the sign; else the number, negated behind a minus.
abbrev pub clamp : Bool → ℕ → ℕ
clamp minus value =
    if ltb u64_max value then u64_max else if minus then u64 (2 ^ 64 - value) else value

abbrev pub signed : Bool → Option (ℕ × String) → Option (ℕ × String)
signed minus none = none
signed minus (some (value, rest)) = some (clamp minus value, rest)

-- `strtoull(s, &end, 0)`: the number and `end`, or none where `end` is `s`.
unfoldable pub strtoull_from : String → Option (ℕ × String)
strtoull_from [] = none
strtoull_from (c ∷ cs) =
    if c == 45
    then signed true (number cs)
    else if c == 43
    then signed false (number cs)
    else signed false (number (c ∷ cs))

unfoldable pub strtoull : String → Option (ℕ × String)
strtoull s = strtoull_from (skip_spaces s)

abbrev pub whole : Option (ℕ × String) → Option ℕ
whole none = none
whole (some (value, rest)) = if is_empty (topology_trim rest) then some value else none

unfoldable pub topology_parse_u64 : String → Option ℕ
topology_parse_u64 s = whole (strtoull s)

-- A number that fits the field it is for, whose largest value is `most`.
abbrev pub up_to : ℕ → Option ℕ → Option ℕ
up_to most none = none
up_to most (some n) = if ltb most n then none else some n

unfoldable pub parse_up_to : ℕ → String → Option ℕ
parse_up_to most s = up_to most (topology_parse_u64 s)
