-- ===== src/HumanReadable/Sizes.antt =====
-- What the texts of kernel/lib/humanReadable.cpp say, and how long they are.
use sepples_os.Prelude.{
  ℕ, zero, suc, ◌+◌, ◌*◌, ◌/◌, ◌^◌, ◌≤◌, ◌≡◌, List, ◌∷◌, Option, some, length, ◌++◌,
}
use sepples_os.HumanReadable.{[]}
use sepples_os.Strings.{number}
use sepples_os.Strings.Numbers.{AreDigits}

-- The sizes that `n` divisions bring down to 10 units.
abbrev reach : ℕ → ℕ → ℕ
reach base zero = 10 * base + 1
reach base (suc n) = reach base n * base

-- The numbers of at most `k` digits.
abbrev limit : ℕ → ℕ
limit zero = 1
limit (suc k) = 10 * limit k

-- " B", " KiB", " MiB", " GiB", " TiB", " PiB" and " EiB", for the powers of 1024.
abbrev pub binary_unit : ℕ → List ℕ
binary_unit zero = 32 ∷ 66 ∷ 0 ∷ []
binary_unit (suc zero) = 32 ∷ 75 ∷ 105 ∷ 66 ∷ 0 ∷ []
binary_unit (suc (suc zero)) = 32 ∷ 77 ∷ 105 ∷ 66 ∷ 0 ∷ []
binary_unit (suc (suc (suc zero))) = 32 ∷ 71 ∷ 105 ∷ 66 ∷ 0 ∷ []
binary_unit (suc (suc (suc (suc zero)))) = 32 ∷ 84 ∷ 105 ∷ 66 ∷ 0 ∷ []
binary_unit (suc (suc (suc (suc (suc zero))))) = 32 ∷ 80 ∷ 105 ∷ 66 ∷ 0 ∷ []
binary_unit (suc (suc (suc (suc (suc (suc k)))))) = 32 ∷ 69 ∷ 105 ∷ 66 ∷ 0 ∷ []

-- " B", " kB", " MB", " GB", " TB", " PB" and " EB", for the powers of 1000.
abbrev pub decimal_unit : ℕ → List ℕ
decimal_unit zero = 32 ∷ 66 ∷ 0 ∷ []
decimal_unit (suc zero) = 32 ∷ 107 ∷ 66 ∷ 0 ∷ []
decimal_unit (suc (suc zero)) = 32 ∷ 77 ∷ 66 ∷ 0 ∷ []
decimal_unit (suc (suc (suc zero))) = 32 ∷ 71 ∷ 66 ∷ 0 ∷ []
decimal_unit (suc (suc (suc (suc zero)))) = 32 ∷ 84 ∷ 66 ∷ 0 ∷ []
decimal_unit (suc (suc (suc (suc (suc zero))))) = 32 ∷ 80 ∷ 66 ∷ 0 ∷ []
decimal_unit (suc (suc (suc (suc (suc (suc k)))))) = 32 ∷ 69 ∷ 66 ∷ 0 ∷ []

-- A text of digits and a unit, with the number of these units in `size`.
pub record Says (base : ℕ) (unit_of : ℕ → List ℕ) (size longest : ℕ) (made : Option (List ℕ))
    : Type 0 where
  pub power : ℕ
  pub numeral : List ℕ
  pub text : made ≡ some (numeral ++ unit_of power)
  pub known : power ≤ 6
  pub are_digits : AreDigits numeral
  pub value : number 0 (numeral ++ unit_of power) ≡ size / base ^ power
  pub short_number : size / base ^ power ≤ 10 * base
  pub short : length (numeral ++ unit_of power) ≤ longest
