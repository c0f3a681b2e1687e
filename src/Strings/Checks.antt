-- ===== src/Strings/Checks.antt =====
-- Runs of the string functions, and the conditions of their theorems at concrete strings.
use sepples_os.Prelude.{ℕ, ◌-◌, ◌^◌, ◌≡◌, ◌∷◌, [], refl, some, arith, List, ◌↔◌}
use sepples_os.Strings.{strcmp, strchr, utoa, itoa, atoi, digit}
use sepples_os.Strings.Numbers.{atoi-itoa}
use sepples_os.Strings.Compare.{strcmp-equal_iff}

-- "255", "ff", and "-42"
decimal : utoa 255 10 ≡ 50 ∷ 53 ∷ 53 ∷ []
unfolding utoa digit
decimal = refl

hexadecimal : utoa 255 16 ≡ 102 ∷ 102 ∷ []
unfolding utoa digit
hexadecimal = refl

negative : itoa (2 ^ 64 - 42) 10 ≡ 45 ∷ 52 ∷ 50 ∷ []
unfolding itoa digit
negative = refl

-- A number that is followed by other characters
stops_at_letter : atoi (49 ∷ 50 ∷ 120 ∷ 51 ∷ []) ≡ 12
unfolding atoi
stops_at_letter = refl

found : strchr 98 (97 ∷ 98 ∷ 99 ∷ []) ≡ some (98 ∷ 99 ∷ [])
unfolding strchr
found = refl

atoi-itoa_example : atoi (itoa (2 ^ 64 - 42) 10) ≡ 2 ^ 64 - 42
atoi-itoa_example = atoi-itoa (2 ^ 64 - 42) (omega arith)

abbrev first_text : List ℕ
first_text = 97 ∷ 98 ∷ []

abbrev second_text : List ℕ
second_text = 97 ∷ 99 ∷ []

strcmp-equal_iff_example : (strcmp first_text second_text ≡ 0) ↔ (first_text ≡ second_text)
strcmp-equal_iff_example =
    strcmp-equal_iff first_text second_text
      (omega arith, omega arith, (omega arith, omega arith, tt))
      (omega arith, omega arith, (omega arith, omega arith, tt))
