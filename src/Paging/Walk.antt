-- ===== src/Paging/Walk.antt =====
-- Page tables by level: what `mapPage` of kernel/mm/paging.cpp relies on and keeps. The level of a
-- physical page is 4 for a PML4, down to 1 for a page table, and 0 for any other page.
use sepples_os.Prelude.{
  ℕ, ◌+◌, ◌*◌, ◌/◌, ◌%◌, ◌^◌, ◌≡◌, ◌<◌, refl, ◌≢◌, true, false, ◌&&◌, some, ltb, ◌==◌,
  if◌then◌else◌, update, arith, holds_below, holds_below-at, Bool-cases, inl, inr, ◌∙◌,
}
use sepples_os.Paging.{
  Machine, IsBytes, page_size, is_used, mark_used, mark_used_page_of, get_free_phys_page,
}
use sepples_os.Paging.Frames.{mark_used-IsBytes, is_used-mark_used, get_free_phys_page-FirstFree}
use sepples_os.Paging.Tables.{present, write, zero_page, attributes, ensure_table}

attributes_table : holds_below 2048 (λ f. (attributes f % 2 == 1) && ltb (attributes f) 2048) ≡ true
unfolding holds_below
attributes_table = refl

pub attributes_lem : (f : ℕ) → f < 2048 → (attributes f % 2 ≡ 1) × (attributes f < 2048)
attributes_lem f h =
    let t =
      holds_below-at 2048 (λ f. (attributes f % 2 == 1) && ltb (attributes f) 2048) f
        attributes_table h in
    ground arith

abbrev pub Levels : Type 0
Levels = ℕ → ℕ

-- Tables are marked as used, a present entry of a table points to a table one level below, and no
-- present entry has bit 11 set.
pub record IsTyped (lvl : Levels) (m : Machine) : Type 0 where
  pub bytes : IsBytes m
  pub small : m.max_pages < 2 ^ 32
  pub used : (p : ℕ) → lvl p ≢ 0 → is_used m p ≡ true
  pub points :
      (a k : ℕ)
      → lvl (a / page_size) ≡ k + 2
      → present (m.mem a) ≡ true
      → lvl (m.mem a / page_size) ≡ k + 1
  pub clean : (a : ℕ) → lvl (a / page_size) ≢ 0 → present (m.mem a) ≡ true → m.mem a / 2048 % 2 ≡ 0

-- A page that is given out is no table.
pub fresh-level :
    (lvl : Levels) (m : Machine)
    → IsTyped lvl m
    → get_free_phys_page m ≢ 0
    → (page : ℕ) × ((get_free_phys_page m ≡ page * page_size)
        × (page < m.max_pages)
        × (lvl page ≡ 0)
        × (page ≢ 0))
fresh-level lvl m v ne = elim (get_free_phys_page-FirstFree m v.bytes) [
  | inl (z, _) ↦ absurd (ne z)
  | inr (page, (a, _, h, clear, _)) ↦ (page, (a, omega arith, level_zero page clear, omega arith))
]
  where
    level_zero : (page : ℕ) → is_used m page ≡ false → lvl page ≡ 0
    level_zero page clear = ground (arith, v.used page)

-- What a step may do to the tables: new tables may appear, and no word of an old table changes but
-- the entry at `entry`; used pages stay used.
pub record Grows (lvl lvl' : Levels) (entry : ℕ) (m m' : Machine) : Type 0 where
  pub typed : IsTyped lvl' m'
  pub keeps : (p : ℕ) → lvl p ≢ 0 → lvl' p ≡ lvl p
  pub same : (a : ℕ) → a ≢ entry → lvl (a / page_size) ≢ 0 → m'.mem a ≡ m.mem a
  pub marks : (q : ℕ) → is_used m q ≡ true → is_used m' q ≡ true
  pub pages : m'.max_pages ≡ m.max_pages

module _ (lvl : Levels) (entry flags k page : ℕ) (m : Machine) (v : IsTyped lvl m)
    (small : flags < 2048) (level : lvl (entry / page_size) ≡ k + 2) (free : lvl page ≡ 0)
    (exists : page < m.max_pages) where
  -- The machine after a table was built in `page`.
  abbrev built : Machine
  built =
      write entry (page * page_size + attributes flags)
        (zero_page (page * page_size) (mark_used page m))

  abbrev new_levels : Levels
  new_levels = update lvl page (k + 1)

  entry-ne-page : entry / page_size ≢ page
  entry-ne-page e = ground arith

  mark_used-mem : (mark_used page m).mem ≡ m.mem
  unfolding mark_used
  mark_used-mem = ground arith

  mark_used-max_pages : (mark_used page m).max_pages ≡ m.max_pages
  unfolding mark_used
  mark_used-max_pages = ground arith

  entry-present : present (page * page_size + attributes flags) ≡ true
  entry-present = ground (arith, attributes_lem flags small)

  built-used : (p : ℕ) → new_levels p ≢ 0 → is_used built p ≡ true
  unfolding is_used
  built-used p h = ground (arith, is_used-mark_used page p m v.bytes, v.used p)

  built-marks : (q : ℕ) → is_used m q ≡ true → is_used built q ≡ true
  unfolding is_used
  built-marks q h = ground (arith, is_used-mark_used page q m v.bytes)

  -- A word of the new machine: the new entry, a word of the new table, or an old word.
  built-mem :
      (a : ℕ)
      → built.mem a ≡ (
          if entry == a
          then page * page_size + attributes flags
          else if a / page_size == page
          then 0
          else m.mem a)
  built-mem a = rw mark_used-mem (ground arith)

  built-points :
      (a j : ℕ)
      → new_levels (a / page_size) ≡ j + 2
      → present (built.mem a) ≡ true
      → new_levels (built.mem a / page_size) ≡ j + 1
  built-points a j h q = elim (Bool-cases (entry == a)) [
    | inl e ↦
        let w : built.mem a ≡ page * page_size + attributes flags = built-mem a ∙ rw e in
        rw w (ground (arith, attributes_lem flags small))
    | inr n ↦ elim (Bool-cases (a / page_size == page)) [
      | inl e ↦ let w : built.mem a ≡ 0 = built-mem a ∙ rw (n, e) in let q' = rw w at q in cc
      | inr n' ↦
          let w : built.mem a ≡ m.mem a = built-mem a ∙ rw (n, n') in
          let q' = rw w at q in rw w (ground (arith, v.points a j))
    ]
  ]

  built-clean :
      (a : ℕ)
      → new_levels (a / page_size) ≢ 0
      → present (built.mem a) ≡ true
      → built.mem a / 2048 % 2 ≡ 0
  built-clean a h q = elim (Bool-cases (entry == a)) [
    | inl e ↦
        let w : built.mem a ≡ page * page_size + attributes flags = built-mem a ∙ rw e in
        rw w (ground (arith, attributes_lem flags small))
    | inr n ↦ elim (Bool-cases (a / page_size == page)) [
      | inl e ↦ let w : built.mem a ≡ 0 = built-mem a ∙ rw (n, e) in let q' = rw w at q in cc
      | inr n' ↦
          let w : built.mem a ≡ m.mem a = built-mem a ∙ rw (n, n') in
          let q' = rw w at q in rw w (ground (arith, v.clean a))
    ]
  ]

  built-Grows : Grows lvl new_levels entry m built
  built-Grows = record {
    typed = record {
      bytes = record { byte = (mark_used-IsBytes page m v.bytes).byte };
      small = rw mark_used-max_pages v.small;
      used = built-used;
      points = built-points;
      clean = built-clean;
    };
    keeps = λ p h. ground arith;
    same = λ a n h. built-mem a ∙ ground arith;
    marks = built-marks;
    pages = mark_used-max_pages;
  }

  ensure_table-built :
      present (m.mem entry) ≡ false
      → get_free_phys_page m ≡ page * page_size
      → page ≢ 0
      → ensure_table entry flags m ≡ some (page * page_size + attributes flags, built)
  unfolding ensure_table mark_used_page_of
  ensure_table-built p a ne =
      let small = v.small in
      let z : (page * page_size == 0) ≡ false = ground arith in
      let b : page * page_size / page_size ≡ page = omega arith in
      let d : page % 2 ^ 32 ≡ page = omega arith in rw (p, a, z, b, b, d)

-- Walking into a table, present or not: the entry that is read or written is present, points one
-- level below, and holds in the new machine; old tables are kept.
pub ensure_table-Grows :
    (lvl : Levels) (entry flags k : ℕ) (m : Machine)
    → IsTyped lvl m
    → flags < 2048
    → lvl (entry / page_size) ≡ k + 2
    → (e : ℕ) (m' : Machine) → ensure_table entry flags m ≡ some (e, m')
    → (lvl' : Levels) × (Grows lvl lvl' entry m m'
        × (lvl' (e / page_size) ≡ k + 1)
        × (present e ≡ true)
        × (m'.mem entry ≡ e))
unfolding ensure_table mark_used_page_of
ensure_table-Grows lvl entry flags k m v small level e m' h =
    elim (Bool-cases (present (m.mem entry))) [
      | inl p ↦
          let e_eq : m.mem entry ≡ e = ground arith in
          let m_eq : m ≡ m' = ground arith in
          (
            lvl,
            (
              rw (← m_eq) (record {
                typed = v;
                keeps = λ q n. refl;
                same = λ a n l. refl;
                marks = λ q h. h;
                pages = refl;
              }),
              rw (← e_eq) (v.points entry k level p),
              rw (← e_eq) p,
              rw (← m_eq) e_eq,
            ),
          )
      | inr p ↦ elim (Bool-cases (get_free_phys_page m == 0)) [
        | inl z ↦ ground arith
        | inr ne ↦ build p (fresh-level lvl m v (ground arith))
      ]
    ]
  where
    Goal : Type 0
    Goal =
        (lvl' : Levels) × (Grows lvl lvl' entry m m'
          × (lvl' (e / page_size) ≡ k + 1)
          × (present e ≡ true)
          × (m'.mem entry ≡ e))

    build :
        present (m.mem entry) ≡ false
        → (page : ℕ) × ((get_free_phys_page m ≡ page * page_size)
            × (page < m.max_pages)
            × (lvl page ≡ 0)
            × (page ≢ 0))
        → Goal
    build p (page, (a, lt, free, nz)) =
        let made = ensure_table-built lvl entry flags k page m v small level free lt p a nz in
        let e_eq : page * page_size + attributes flags ≡ e = ground arith in
        let m_eq : built lvl entry flags k page m v small level free lt ≡ m' = ground arith in
        (
          new_levels lvl entry flags k page m v small level free lt,
          (
            rw (← m_eq) (built-Grows lvl entry flags k page m v small level free lt),
            rw (← e_eq) (ground (arith, attributes_lem flags small)),
            rw (← e_eq) (entry-present lvl entry flags k page m v small level free lt),
            rw (← m_eq) (ground arith),
          ),
        )
