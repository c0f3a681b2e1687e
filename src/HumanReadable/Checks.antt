-- ===== src/HumanReadable/Checks.antt =====
-- Texts of kernel/lib/humanReadable.cpp.
use sepples_os.Prelude.{◌≡◌, refl, [], ◌∷◌, some}
use sepples_os.HumanReadable.{to_iec, scale, put_number, put_digits, iec_unit}

-- "20 KiB"
twenty : to_iec 20480 ≡ some (50 ∷ 48 ∷ 32 ∷ 75 ∷ 105 ∷ 66 ∷ 0 ∷ [])
unfolding to_iec scale put_number put_digits iec_unit
twenty = refl
