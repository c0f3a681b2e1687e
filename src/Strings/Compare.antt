-- ===== src/Strings/Compare.antt =====
-- What `strcmp` and `strchr` of kernel/lib/string.cpp find.
use mathlib.Core.Bool.{true≢false}
use sepples_os.Prelude.{
  ℕ, ◌≤◌, ◌<◌, ◌≡◌, ◌↔◌, List, [], ◌∷◌, refl, subst, arith, ==_refl, Bool-cases, ◌==◌, inl, sym,
  ◌∙◌, ap₂, inr,
}
use sepples_os.Strings.{strcmp, difference}

-- A string has no character 0, and no character above 255.
abbrev pub IsString : List ℕ → Type 0
IsString [] = Unit
IsString (c ∷ s) = (1 ≤ c) × (c < 256) × IsString s

strcmp_self : (s : List ℕ) → strcmp s s ≡ 0
unfolding strcmp
strcmp_self [] = refl
strcmp_self (c ∷ s) = rw (==_refl c) (strcmp_self s)

differs : (a b : ℕ) → a < 256 → b < 256 → difference a b ≡ 0 → a ≡ b
differs a b la lb e = omega (arith, la, lb, e)

strcmp-equal : (s t : List ℕ) → IsString s → IsString t → strcmp s t ≡ 0 → s ≡ t
unfolding strcmp
strcmp-equal [] [] ss st e = refl
strcmp-equal [] (d ∷ t) ss (ld, hd, st) e = absurd (omega (arith, e, ld, hd))
strcmp-equal (c ∷ s) [] (lc, hc, ss) st e = absurd (omega (arith, e, lc, hc))
strcmp-equal (c ∷ s) (d ∷ t) (lc, hc, ss) (ld, hd, st) e = elim (Bool-cases (c == d)) [
  | inl same ↦
      (let e' : strcmp s t ≡ 0 = sym (rw same refl) ∙ e in
        let head : c ≡ d = ground (arith, same) in
        ap₂ (λ x y. x ∷ y) head (strcmp-equal s t ss st e'))
  | inr other ↦
      (let e' : difference c d ≡ 0 = sym (rw other refl) ∙ e in
        absurd (true≢false (sym (rw (differs c d hc hd e') (==_refl d)) ∙ other)))
]

-- For strings of characters from 1 to 255, `strcmp` answers 0 when they are equal, and only then.
pub strcmp-equal_iff : (s t : List ℕ) → IsString s → IsString t → (strcmp s t ≡ 0) ↔ (s ≡ t)
strcmp-equal_iff s t ss st =
    (strcmp-equal s t ss st, λ e. subst (λ x. strcmp s x ≡ 0) e (strcmp_self s))
