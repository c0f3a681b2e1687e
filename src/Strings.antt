-- ===== src/Strings.antt =====
-- The strings of kernel/lib/string.cpp: a string is the list of its characters before the end mark. A
-- 64-bit number is kept in two's complement.
pub mod Numbers
pub mod Compare
pub mod Checks
use sepples_os.Prelude.{
  ℕ, zero, suc, ◌+◌, ◌-◌, ◌*◌, ◌/◌, ◌%◌, ◌^◌, Bool, true, false, ◌||◌, List, [], ◌∷◌, ◌++◌, ltb,
  leb, ◌==◌, if◌then◌else◌, get_or, Option, none, some, not, length,
}

abbrev pub strlen : List ℕ → ℕ
strlen s = length s

-- The difference of two characters, as an int
abbrev pub difference : ℕ → ℕ → ℕ
difference a b = (a + 2 ^ 32 - b) % 2 ^ 32

unfoldable pub strcmp : List ℕ → List ℕ → ℕ
strcmp [] [] = 0
strcmp [] (d ∷ t) = difference 0 d
strcmp (c ∷ s) [] = difference c 0
strcmp (c ∷ s) (d ∷ t) = let rest = strcmp s t in if c == d then rest else difference c d

-- The rest of the string from the first `c` on; the end mark is found as the empty rest.
unfoldable pub strchr : ℕ → List ℕ → Option (List ℕ)
strchr c [] = if c == 0 then some [] else none
strchr c (d ∷ s) = let rest = strchr c s in if d == c then some (d ∷ s) else rest

abbrev pub strcat : List ℕ → List ℕ → List ℕ
strcat dest src = dest ++ src

unfoldable pub reverse : List ℕ → List ℕ
reverse [] = []
reverse (c ∷ s) = reverse s ++ c ∷ []

-- The table of characters around the digit 0
abbrev pub digit_table : List ℕ
digit_table =
    122 ∷ 121 ∷ 120 ∷ 119 ∷ 118 ∷ 117 ∷ 116 ∷ 115 ∷ 114 ∷ 113 ∷ 112 ∷ 111 ∷ 110 ∷ 109 ∷ 108 ∷ 107
    ∷ 106 ∷ 105 ∷ 104 ∷ 103 ∷ 102 ∷ 101 ∷ 100 ∷ 99 ∷ 98 ∷ 97 ∷ 57 ∷ 56 ∷ 55 ∷ 54 ∷ 53 ∷ 52 ∷ 51 ∷ 50
    ∷ 49 ∷ 48 ∷ 49 ∷ 50 ∷ 51 ∷ 52 ∷ 53 ∷ 54 ∷ 55 ∷ 56 ∷ 57 ∷ 97 ∷ 98 ∷ 99 ∷ 100 ∷ 101 ∷ 102 ∷ 103
    ∷ 104 ∷ 105 ∷ 106 ∷ 107 ∷ 108 ∷ 109 ∷ 110 ∷ 111 ∷ 112 ∷ 113 ∷ 114 ∷ 115 ∷ 116 ∷ 117 ∷ 118 ∷ 119
    ∷ 120 ∷ 121 ∷ 122 ∷ []

-- [35 + (tmp_value - value * base)], the rest of a negative number being negative
unfoldable pub digit : Bool → ℕ → ℕ
digit negative d = get_or digit_table (if negative then 35 - d else 35 + d) 0

-- The do loop, on the sign and the magnitude: the digits, the last one first
unfoldable pub digits : Bool → ℕ → ℕ → ℕ → List ℕ
digits negative base zero value = []
digits negative base (suc fuel) value =
    let rest = digits negative base fuel (value / base) in
    digit negative (value % base) ∷ (if value / base == 0 then [] else rest)

abbrev pub is_base : ℕ → Bool
is_base base = not (ltb base 2 || ltb 36 base)

unfoldable pub utoa : ℕ → ℕ → List ℕ
unfolding digits reverse
utoa value base = if is_base base then reverse (digits false base (suc value) value) else []

abbrev pub is_negative : ℕ → Bool
is_negative value = leb (2 ^ 63) value

abbrev pub negate : ℕ → ℕ
negate value = (2 ^ 64 - value) % 2 ^ 64

abbrev pub magnitude : ℕ → ℕ
magnitude value = if is_negative value then 2 ^ 64 - value else value

abbrev pub sign : ℕ → List ℕ
sign value = if is_negative value then 45 ∷ [] else []

unfoldable pub itoa : ℕ → ℕ → List ℕ
unfolding digits reverse
itoa value base =
    if is_base base
    then reverse
        (digits (is_negative value) base (suc (magnitude value)) (magnitude value) ++ sign value)
    else []

-- The loop of `atoi`, from `num` on
unfoldable pub number : ℕ → List ℕ → ℕ
number num [] = num
number num (c ∷ s) =
    let rest = number ((num * 10 + (c - 48)) % 2 ^ 64) s in
    if ltb c 48 || ltb 57 c then num else rest

unfoldable pub atoi : List ℕ → ℕ
unfolding number
atoi [] = 0
atoi (c ∷ s) = if c == 45 then negate (number 0 s) else number 0 (c ∷ s)
