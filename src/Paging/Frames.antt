-- ===== src/Paging/Frames.antt =====
-- The allocation of physical pages: `getFreePhysPage`, `markPhysPageUsed` and `markPhysPageFree`
-- of kernel/mm/paging.cpp.
use sepples_os.Prelude.{
  refl, sym, ◌∙◌, ℕ, zero, suc, ◌+◌, ◌*◌, ◌/◌, ◌%◌, ◌≡◌, ◌<◌, ◌≤◌, ◌⊎◌, inl, inr, Bool, true, false,
  ◌&&◌, Option, none, some, ltb, ◌==◌, if◌then◌else◌, arith, Bool-cases, Option-cases, ◌≢◌,
}
use sepples_os.Paging.{
  Machine, IsBytes, page_size, test_bit, mark_used, mark_free, free_bit, is_used, free_page,
  get_free_phys_page,
}
use sepples_os.Paging.Bits.{
  set_bit-lt, clear_bit-lt, test_bit-set_bit, test_bit-clear_bit, test_bit_full,
}

pub mark_used-IsBytes : (page : ℕ) (m : Machine) → IsBytes m → IsBytes (mark_used page m)
unfolding mark_used
mark_used-IsBytes page m v = record {
  byte = λ i.
      ground (arith, v.byte i, set_bit-lt (m.bitmap (page / 8)) (page % 8) (v.byte (page / 8)));
}

pub mark_free-IsBytes : (page : ℕ) (m : Machine) → IsBytes m → IsBytes (mark_free page m)
unfolding mark_free
mark_free-IsBytes page m v = record {
  byte = λ i.
      ground (arith, v.byte i, clear_bit-lt (m.bitmap (page / 8)) (page % 8) (v.byte (page / 8)));
}

-- Marking a page as used sets the bit of that page, if the page exists, and no other bit.
pub is_used-mark_used :
    (page q : ℕ) (m : Machine)
    → IsBytes m
    → is_used (mark_used page m) q
      ≡ (if (page == q) && ltb page m.max_pages then true else is_used m q)
unfolding is_used mark_used
is_used-mark_used page q m v =
    let t =
      test_bit-set_bit (m.bitmap (page / 8)) (page % 8) (q % 8) (v.byte (page / 8)) (omega arith)
        (omega arith) in
    elim (Bool-cases (page / 8 == q / 8)) [ inl e ↦ ground arith | inr n ↦ ground arith ]

-- Marking a page as free clears the bit of that page, if the page exists, and no other bit.
pub is_used-mark_free :
    (page q : ℕ) (m : Machine)
    → IsBytes m
    → is_used (mark_free page m) q
      ≡ (if (page == q) && ltb page m.max_pages then false else is_used m q)
unfolding is_used mark_free
is_used-mark_free page q m v =
    let t =
      test_bit-clear_bit (m.bitmap (page / 8)) (page % 8) (q % 8) (v.byte (page / 8)) (omega arith)
        (omega arith) in
    elim (Bool-cases (page / 8 == q / 8)) [ inl e ↦ ground arith | inr n ↦ ground arith ]

-- The first clear bit from `bit` on.
abbrev FirstClear : ℕ → ℕ → Option ℕ → Type 0
FirstClear x bit none = (c : ℕ) → bit ≤ c → c < 8 → test_bit x c ≡ true
FirstClear x bit (some b) =
    (bit ≤ b) × (b < 8) × (test_bit x b ≡ false) × ((c : ℕ) → bit ≤ c → c < b → test_bit x c ≡ true)

FirstClear-step :
    (x bit : ℕ) (r : Option ℕ)
    → test_bit x bit ≡ true
    → FirstClear x (bit + 1) r
    → FirstClear x bit r
FirstClear-step x bit none h f = λ c lo hi. ground (arith, f c)
FirstClear-step x bit (some b) h (lo, hi, z, f) = (omega arith, hi, z, λ c p q. ground (arith, f c))

free_bit-FirstClear : (x n bit : ℕ) → bit + n ≡ 8 → FirstClear x bit (free_bit x n bit)
unfolding free_bit
free_bit-FirstClear x zero bit e = λ c lo hi. absurd (omega arith)
free_bit-FirstClear x (suc n) bit e = elim (Bool-cases (test_bit x bit)) [
  | inl h ↦ rw h (FirstClear-step x bit _ h (free_bit-FirstClear x n (bit + 1) (omega arith)))
  | inr h ↦ rw h (omega arith, omega arith, h, λ c lo hi. absurd (omega arith))
]

-- The address of the first free page among the bytes from `byte` on, or 0 if there is none.
abbrev pub FirstFree : (ℕ → Bool) → ℕ → ℕ → ℕ → Type 0
FirstFree used lo hi a =
    ((a ≡ 0) × ((q : ℕ) → lo ≤ q → q < hi → used q ≡ true))
    ⊎ ((page : ℕ) × ((a ≡ page * page_size)
          × (lo ≤ page)
          × (page < hi)
          × (used page ≡ false)
          × ((q : ℕ) → lo ≤ q → q < page → used q ≡ true)))

FirstFree-step :
    (bitmap : ℕ → ℕ) (byte hi a : ℕ)
    → ((c : ℕ) → c < 8 → test_bit (bitmap byte) c ≡ true)
    → FirstFree (λ q. test_bit (bitmap (q / 8)) (q % 8)) (8 * (byte + 1)) hi a
    → FirstFree (λ q. test_bit (bitmap (q / 8)) (q % 8)) (8 * byte) hi a
FirstFree-step bitmap byte hi a full (inl (z, f)) = inl (z, λ q lo h. below_or_above q lo (f q) h)
  where
    below_or_above :
        (q : ℕ)
        → 8 * byte ≤ q
        → (8 * (byte + 1) ≤ q → q < hi → test_bit (bitmap (q / 8)) (q % 8) ≡ true)
        → q < hi
        → test_bit (bitmap (q / 8)) (q % 8) ≡ true
    below_or_above q lo rest h = ground (arith, full (q % 8))
FirstFree-step bitmap byte hi a full (inr (page, (e, lo, h, z, f))) =
    inr (page, (e, omega arith, h, z, λ q l k. ground (arith, f q, full (q % 8))))

free_page-FirstFree :
    (bitmap : ℕ → ℕ) (n byte hi : ℕ)
    → ((i : ℕ) → bitmap i < 256)
    → 8 * (byte + n) ≡ hi
    → FirstFree (λ q. test_bit (bitmap (q / 8)) (q % 8)) (8 * byte) hi (free_page bitmap n byte)
unfolding free_page
free_page-FirstFree bitmap zero byte hi v e = inl (refl, λ q lo h. absurd (omega arith))
free_page-FirstFree bitmap (suc n) byte hi v e =
    let rest = free_page-FirstFree bitmap n (byte + 1) hi v (omega arith) in
    elim (Bool-cases (bitmap byte == 0xFF)) [
      | inl full ↦
          let x : bitmap byte ≡ 0xFF = ground arith in
          rw full (FirstFree-step bitmap byte hi _ (λ c h. rw x (test_bit_full c h)) rest)
      | inr some_clear ↦ rw some_clear (elim (Option-cases (free_bit (bitmap byte) 8 0)) [
        | inl none_clear ↦
            let f : FirstClear (bitmap byte) 0 none =
              rw none_clear at (free_bit-FirstClear (bitmap byte) 8 0 refl) in
            rw none_clear (FirstFree-step bitmap byte hi _ (λ c h. f c (omega arith) h) rest)
        | inr (b, found) ↦
            let f : FirstClear (bitmap byte) 0 (some b) =
              rw found at (free_bit-FirstClear (bitmap byte) 8 0 refl) in
            rw found (
              inr (
                8 * byte + b,
                (
                  refl,
                  omega arith,
                  ground (arith, f.1),
                  ground (arith, f.2, f.1),
                  λ q lo h. ground (arith, f.3 (q % 8), f.1),
                ),
              ))
      ])
    ]

-- The address that is given out is that of the first page whose bit is clear, among the pages that
-- whole bytes of the bitmap stand for; it is a null pointer if all of these are used (or if page 0
-- is free).
pub get_free_phys_page-FirstFree :
    (m : Machine)
    → IsBytes m
    → FirstFree (is_used m) 0 (8 * (m.max_pages / 8)) (get_free_phys_page m)
unfolding get_free_phys_page is_used
get_free_phys_page-FirstFree m v =
    free_page-FirstFree m.bitmap (m.max_pages / 8) 0 _ v.byte (omega arith)

-- A page that was given out and marked is not given out again.
pub get_free_phys_page_fresh :
    (m : Machine)
    → IsBytes m
    → get_free_phys_page m ≢ 0
    → let a = get_free_phys_page m in get_free_phys_page (mark_used (a / page_size) m) ≢ a
get_free_phys_page_fresh m v ne e = elim (get_free_phys_page-FirstFree m v) [
  | inl (z, _) ↦ ne z
  | inr (page, (a, _, h, _, _)) ↦
      let p : get_free_phys_page m / page_size ≡ page = omega arith in
      let m' = mark_used (get_free_phys_page m / page_size) m in
      elim (get_free_phys_page-FirstFree m' (mark_used-IsBytes _ m v)) [
        | inl (z, _) ↦ ne (sym e ∙ z)
        | inr (page', (a', _, _, clear, _)) ↦
            let u = is_used-mark_used (get_free_phys_page m / page_size) page' m v in
            let same : page' ≡ page = omega arith in ground arith
      ]
]
