-- ===== src/HumanReadable.antt =====
-- The sizes with a unit of kernel/lib/humanReadable.cpp. The characters are written from the end of the
-- buffer to the front, so a text is the list of those from the answer on, with the 0 at its end.
pub mod Sizes
pub mod Checks
use sepples_os.Prelude.{
  ℕ, zero, suc, ◌+◌, ◌*◌, ◌/◌, ◌%◌, ◌==◌, ltb, if◌then◌else◌, List, [], ◌∷◌, Option, none, some,
  get_or,
}

-- The division by the unit `base`, with the number of divisions; none when the rounds run out.
unfoldable pub scale : ℕ → ℕ → ℕ → ℕ → Option (ℕ × ℕ)
scale zero base size idx = none
scale (suc rounds) base size idx =
    let rest = scale rounds base (size / base) (suc idx) in
    if ltb (10 * base) size then rest else some (size, idx)

-- The digits of a number before a text.
unfoldable pub put_digits : ℕ → ℕ → List ℕ → List ℕ
put_digits zero size text = text
put_digits (suc rounds) size text =
    let rest = put_digits rounds (size / 10) ((48 + size % 10) ∷ text) in
    if size == 0 then text else rest

unfoldable pub put_number : ℕ → List ℕ → List ℕ
put_number size text = if size == 0 then 48 ∷ text else put_digits (suc size) size text

abbrev pub iec_indexes : List ℕ
iec_indexes = 32 ∷ 75 ∷ 77 ∷ 71 ∷ 84 ∷ 80 ∷ 69 ∷ 0 ∷ []

abbrev pub si_indexes : List ℕ
si_indexes = 32 ∷ 107 ∷ 77 ∷ 71 ∷ 84 ∷ 80 ∷ 69 ∷ 0 ∷ []

-- The unit behind the number.
unfoldable pub iec_unit : ℕ → List ℕ
iec_unit idx = 32 ∷ (if idx == 0 then 66 ∷ 0 ∷ [] else get_or iec_indexes idx 0 ∷ 105 ∷ 66 ∷ 0 ∷ [])

unfoldable pub si_unit : ℕ → List ℕ
si_unit idx = 32 ∷ (if idx == 0 then 66 ∷ 0 ∷ [] else get_or si_indexes idx 0 ∷ 66 ∷ 0 ∷ [])

abbrev pub with_unit : (ℕ → List ℕ) → Option (ℕ × ℕ) → Option (List ℕ)
with_unit unit none = none
with_unit unit (some (size, idx)) = some (put_number size (unit idx))

unfoldable pub to_iec : ℕ → Option (List ℕ)
to_iec size = with_unit iec_unit (scale 7 1024 size 0)

unfoldable pub to_si : ℕ → Option (List ℕ)
to_si size = with_unit si_unit (scale 7 1000 size 0)
