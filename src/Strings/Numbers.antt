-- ===== src/Strings/Numbers.antt =====
-- That `atoi` of kernel/lib/string.cpp reads what `itoa` and `utoa` write.
use sepples_os.Prelude.{
  ℕ, zero, suc, ◌+◌, ◌-◌, ◌*◌, ◌/◌, ◌%◌, ◌^◌, ◌≤◌, ◌<◌, ◌≡◌, Bool, true, false, List, [], ◌∷◌, ◌++◌,
  refl, holds_below, holds_below-at, ltb, arith, ◌||◌, Bool-cases, ◌==◌, ◌&&◌, inl, inr, ==_of_ne,
  ◌∙◌, ap, leb→le,
}
use sepples_os.Strings.{
  digit, digits, reverse, number, utoa, itoa, atoi, magnitude, sign, is_negative, negate,
}

abbrev pub IsDigit : ℕ → Type 0
IsDigit c = (48 ≤ c) × (c ≤ 57)

abbrev pub AreDigits : List ℕ → Type 0
AreDigits [] = Unit
AreDigits (c ∷ s) = IsDigit c × AreDigits s

digit_values : holds_below 10 (λ d. (digit true d == 48 + d) && (digit false d == 48 + d)) ≡ true
unfolding holds_below digit
digit_values = refl

digit_ten : (negative : Bool) (d : ℕ) → d < 10 → digit negative d ≡ 48 + d
digit_ten true d lt =
    let both =
      holds_below-at 10 (λ d. (digit true d == 48 + d) && (digit false d == 48 + d)) d digit_values
        lt in
    ground (arith, both)
digit_ten false d lt =
    let both =
      holds_below-at 10 (λ d. (digit true d == 48 + d) && (digit false d == 48 + d)) d digit_values
        lt in
    ground (arith, both)

AreDigits-append : (s t : List ℕ) → AreDigits s → AreDigits t → AreDigits (s ++ t)
AreDigits-append [] t ds dt = dt
AreDigits-append (c ∷ s) t (d, ds) dt = (d, AreDigits-append s t ds dt)

-- After digits the loop goes on with the rest of the string.
number-append : (n : ℕ) (s t : List ℕ) → AreDigits s → number n (s ++ t) ≡ number (number n s) t
unfolding number
number-append n [] t ds = refl
number-append n (c ∷ s) t ((lo, hi), ds) =
    let inside : ltb c 48 || ltb 57 c ≡ false = ground (arith, lo, hi) in
    rw inside (number-append ((n * 10 + (c - 48)) % 2 ^ 64) s t ds)

number_one : (n c : ℕ) → IsDigit c → number n (c ∷ []) ≡ (n * 10 + (c - 48)) % 2 ^ 64
unfolding number
number_one n c (lo, hi) =
    let inside : ltb c 48 || ltb 57 c ≡ false = ground (arith, lo, hi) in rw inside refl

digits_lem :
    (negative : Bool) (fuel value : ℕ)
    → value < fuel
    → value < 2 ^ 64
    → AreDigits (reverse (digits negative 10 fuel value))
      × (number 0 (reverse (digits negative 10 fuel value)) ≡ value)
unfolding digits reverse
digits_lem negative zero value lt small = absurd (omega (arith, lt))
digits_lem negative (suc fuel) value lt small =
    let c = digit negative (value % 10) in
    let at : c ≡ 48 + value % 10 = digit_ten negative (value % 10) (omega arith) in
    let is : IsDigit c = (omega (arith, at), omega (arith, at)) in
    elim (Bool-cases (value / 10 == 0)) [
      | inl e ↦
          (let small_value : value / 10 ≡ 0 = ground (arith, e) in
            let v : (0 * 10 + (c - 48)) % 2 ^ 64 ≡ value = omega (arith, at, small_value) in
            rw e ((is, tt), number_one 0 c is ∙ v))
      | inr e ↦
          (let nz : 1 ≤ value / 10 = ground (arith, e) in
            let (ds, v) =
              digits_lem negative fuel (value / 10) (omega (arith, lt, nz))
                (omega (arith, small)) in
            let whole : (value / 10 * 10 + (c - 48)) % 2 ^ 64 ≡ value = omega (arith, at, small) in
            let front = reverse (digits negative 10 fuel (value / 10)) in
            rw e (
              AreDigits-append front (c ∷ []) ds (is, tt),
              number-append 0 front (c ∷ []) ds
                  ∙ ap (λ n. number n (c ∷ [])) v
                  ∙ number_one (value / 10) c is
                  ∙ whole,
            ))
    ]

-- A string of digits has no sign.
atoi-digits : (s : List ℕ) → AreDigits s → atoi s ≡ number 0 s
unfolding atoi number
atoi-digits [] ds = refl
atoi-digits (c ∷ s) ((lo, hi), ds) = rw (==_of_ne c 45 (omega (arith, lo))) refl

-- `atoi` reads back every unsigned 64-bit number that `utoa` writes in base 10.
pub atoi-utoa : (value : ℕ) → value < 2 ^ 64 → atoi (utoa value 10) ≡ value
unfolding utoa
atoi-utoa value lt =
    let (ds, v) = digits_lem false (suc value) value (omega arith) lt in
    atoi-digits (reverse (digits false 10 (suc value) value)) ds ∙ v

reverse-last : (s : List ℕ) (x : ℕ) → reverse (s ++ x ∷ []) ≡ x ∷ reverse s
unfolding reverse
reverse-last [] x = refl
reverse-last (c ∷ s) x = ap (λ r. r ++ c ∷ []) (reverse-last s x)

reverse_whole : (s : List ℕ) → reverse (s ++ []) ≡ reverse s
unfolding reverse
reverse_whole [] = refl
reverse_whole (c ∷ s) = ap (λ r. r ++ c ∷ []) (reverse_whole s)

-- The sign in front of the digits
atoi-sign :
    (s : List ℕ) (value n : ℕ)
    → AreDigits (reverse s)
    → number 0 (reverse s) ≡ n
    → n ≡ magnitude value
    → value < 2 ^ 64
    → atoi (reverse (s ++ sign value)) ≡ value
unfolding atoi
atoi-sign s value n ds v e lt = elim (Bool-cases (is_negative value)) [
  | inl neg ↦
      (let low : 2 ^ 63 ≤ value = leb→le (2 ^ 63) value neg in
        let mag : n ≡ 2 ^ 64 - value = e ∙ rw neg refl in
        rw neg (ap atoi (reverse-last s 45) ∙ ap negate v ∙ omega (arith, mag, low, lt)))
  | inr pos ↦
      (let mag : n ≡ value = e ∙ rw pos refl in
        rw pos (ap atoi (reverse_whole s) ∙ atoi-digits (reverse s) ds ∙ v ∙ mag))
]

magnitude_small : (value : ℕ) → value < 2 ^ 64 → magnitude value < 2 ^ 64
magnitude_small value lt = ground (arith, lt)

-- `atoi` reads back every signed 64-bit number that `itoa` writes in base 10.
pub atoi-itoa : (value : ℕ) → value < 2 ^ 64 → atoi (itoa value 10) ≡ value
unfolding itoa
atoi-itoa value lt =
    let m = magnitude value in
    let (ds, v) =
      digits_lem (is_negative value) (suc m) m (omega arith) (magnitude_small value lt) in
    atoi-sign (digits (is_negative value) 10 (suc m) m) value m ds v refl lt
