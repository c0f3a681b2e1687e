-- ===== src/Paging/Mapping.antt =====
-- `mapPage`, `getPAddr` and `unmapPage` of kernel/mm/paging.cpp on page tables with levels.
use sepples_os.Prelude.{
  ℕ, ◌+◌, ◌*◌, ◌/◌, ◌%◌, ◌^◌, ◌≡◌, ◌<◌, refl, ◌≢◌, true, false, ◌&&◌, Option, none, some, ◌==◌,
  if◌then◌else◌, arith, Bool-cases, Option-cases, ◌⊎◌, inl, inr, ◌∙◌, ==_of_ne, ==_refl, ==_iff,
  subst, sym, lt→ltb,
}
use mathlib.Core.Bool.{true≢false}
use sepples_os.Paging.{
  Machine, IsBytes, page_size, is_used, mark_used, mark_used_page_of, get_free_phys_page,
}
use sepples_os.Paging.Frames.{mark_used-IsBytes, is_used-mark_used, get_free_phys_page-FirstFree}
use sepples_os.Paging.Tables.{
  present, base, write, attributes, ensure_table, map_entry, map_at, pml4_index, pdpt_index,
  pd_index, pt_index, ◌>>=◌,
}
use sepples_os.Paging.Walk.{Levels, IsTyped, ensure_table-Grows, attributes_lem}

-- The page table entry of `v` under a PML4, if all tables on the way are present.
unfoldable pub lookup : (pml4 v : ℕ) → Machine → Option ℕ
lookup pml4 v m =
    let e4 = m.mem (pml4 + pml4_index v * 8) in
    let e3 = m.mem (base e4 + pdpt_index v * 8) in
    let e2 = m.mem (base e3 + pd_index v * 8) in
    if present e4 && (present e3 && present e2)
    then some (m.mem (base e2 + pt_index v * 8))
    else none

-- The tables on the way to the page table `e2` of `v`.
record Way (lvl : Levels) (pml4 v e4 e3 e2 : ℕ) (m : Machine) : Type 0 where
  typed : IsTyped lvl m
  mem4 : m.mem (pml4 + pml4_index v * 8) ≡ e4
  mem3 : m.mem (base e4 + pdpt_index v * 8) ≡ e3
  mem2 : m.mem (base e3 + pd_index v * 8) ≡ e2
  present4 : present e4 ≡ true
  present3 : present e3 ≡ true
  present2 : present e2 ≡ true
  level4 : lvl (pml4 / page_size) ≡ 4
  level3 : lvl (e4 / page_size) ≡ 3
  level2 : lvl (e3 / page_size) ≡ 2
  level1 : lvl (e2 / page_size) ≡ 1

-- Used pages stay used, and there are as many pages.
abbrev KeepsUsed : Machine → Machine → Type 0
KeepsUsed m m' = ((q : ℕ) → is_used m q ≡ true → is_used m' q ≡ true) × (m'.max_pages ≡ m.max_pages)

pub page_of_entry : (e i : ℕ) → (base e + i % 512 * 8) / page_size ≡ e / page_size
page_of_entry e i = omega arith

pub page_of_root : (e i : ℕ) → e % page_size ≡ 0 → (e + i % 512 * 8) / page_size ≡ e / page_size
page_of_root e i h = omega arith

-- Addresses in pages of different levels differ.
pub apart : (lvl : Levels) (a b : ℕ) → lvl (a / page_size) ≢ lvl (b / page_size) → a ≢ b
apart lvl a b h e = h (rw e refl)

module _ (lvl : Levels) (pml4 v flags : ℕ) (m : Machine) (t : IsTyped lvl m) (small : flags < 2048)
    (root : lvl (pml4 / page_size) ≡ 4) (aligned : pml4 % page_size ≡ 0) where
  abbrev e4 : ℕ
  e4 = m.mem (pml4 + pml4_index v * 8)

  descend :
      (e3 e2 : ℕ) (m1 m2 : Machine)
      → present e4 ≡ true
      → ensure_table (base e4 + pdpt_index v * 8) flags m ≡ some (e3, m1)
      → ensure_table (base e3 + pd_index v * 8) flags m1 ≡ some (e2, m2)
      → (lvl' : Levels) × (Way lvl' pml4 v e4 e3 e2 m2 × KeepsUsed m m2)
  descend e3 e2 m1 m2 p h1 h2 =
      let a4 = pml4 + pml4_index v * 8 in
      let a3 = base e4 + pdpt_index v * 8 in
      let a2 = base e3 + pd_index v * 8 in
      let l4 : lvl (a4 / page_size) ≡ 4 = rw (page_of_root pml4 (v / 2 ^ 39) aligned) root in
      let l3 : lvl (e4 / page_size) ≡ 3 = t.points a4 2 l4 p in
      let l3' : lvl (a3 / page_size) ≡ 3 = rw (page_of_entry e4 (v / 2 ^ 30)) l3 in
      let (lvl1, (g1, up3, p3, w3)) = ensure_table-Grows lvl a3 flags 1 m t small l3' e3 m1 h1 in
      let l2' : lvl1 (a2 / page_size) ≡ 2 = rw (page_of_entry e3 (v / 2 ^ 21)) up3 in
      let (lvl2, (g2, up2, p2, w2)) =
        ensure_table-Grows lvl1 a2 flags 0 m1 g1.typed small l2' e2 m2 h2 in
      let k4 : lvl1 (a4 / page_size) ≡ 4 = g1.keeps _ (omega arith) ∙ l4 in
      let k3 : lvl1 (a3 / page_size) ≡ 3 = g1.keeps _ (omega arith) ∙ l3' in
      (
        lvl2,
        (
          record {
            typed = g2.typed;
            mem4 =
                g2.same a4 (apart lvl1 a4 a2 (omega arith)) (omega arith)
                ∙ g1.same a4 (apart lvl a4 a3 (omega arith)) (omega arith);
            mem3 = g2.same a3 (apart lvl1 a3 a2 (omega arith)) (omega arith) ∙ w3;
            mem2 = w2;
            present4 = p;
            present3 = p3;
            present2 = p2;
            level4 =
                g2.keeps _ (ground (arith, g1.keeps (pml4 / page_size)))
                ∙ (g1.keeps _ (omega arith) ∙ root);
            level3 =
                g2.keeps _ (ground (arith, g1.keeps (e4 / page_size)))
                ∙ (g1.keeps _ (omega arith) ∙ l3);
            level2 = g2.keeps _ (omega arith) ∙ up3;
            level1 = up2;
          },
          (λ q h. g2.marks q (g1.marks q h), g2.pages ∙ g1.pages),
        ),
      )

mem-mark_used_page_of : (p : ℕ) (m : Machine) → (mark_used_page_of p m).mem ≡ m.mem
unfolding mark_used_page_of mark_used
mem-mark_used_page_of p m = ground arith

max_pages-mark_used_page_of :
    (p : ℕ) (m : Machine) → (mark_used_page_of p m).max_pages ≡ m.max_pages
unfolding mark_used_page_of mark_used
max_pages-mark_used_page_of p m = ground arith

is_used-mark_used_page_of :
    (p : ℕ) (m : Machine)
    → IsBytes m
    → p / page_size < m.max_pages
    → m.max_pages < 2 ^ 32
    → is_used (mark_used_page_of (base p) m) (p / page_size) ≡ true
unfolding mark_used_page_of
is_used-mark_used_page_of p m v lt small =
    let index : base p / page_size % 2 ^ 32 ≡ p / page_size = omega arith in
    rw index (
      is_used-mark_used (p / page_size) (p / page_size) m v
      ∙ rw (==_refl (p / page_size), lt→ltb (p / page_size) m.max_pages lt) refl)

mark_used_page_of-IsTyped :
    (lvl : Levels) (p : ℕ) (m : Machine) → IsTyped lvl m → IsTyped lvl (mark_used_page_of p m)
unfolding mark_used_page_of
mark_used_page_of-IsTyped lvl p m t = record {
  bytes = mark_used-IsBytes (p / page_size % 2 ^ 32) m t.bytes;
  small = rw (max_pages-mark_used_page_of p m) t.small;
  used = λ q h. is_used-mark_used (p / page_size % 2 ^ 32) q m t.bytes ∙ ground (arith, t.used q h);
  points = rw (mem-mark_used_page_of p m) t.points;
  clean = rw (mem-mark_used_page_of p m) t.clean;
}

module _ (lvl : Levels) (pml4 v paddr flags e4 e3 e2 : ℕ) (m : Machine)
    (w : Way lvl pml4 v e4 e3 e2 m) (small : flags < 2048) (aligned : pml4 % page_size ≡ 0) where
  abbrev pte : ℕ
  pte = base e2 + pt_index v * 8

  pte-level : lvl (pte / page_size) ≡ 1
  pte-level = rw (page_of_entry e2 (v / 2 ^ 12)) w.level1

  abbrev mapped : ℕ → Machine
  mapped p = mark_used_page_of (base p) (write pte (base p + attributes flags) m)

  write-IsTyped : (p : ℕ) → IsTyped lvl (write pte (base p + attributes flags) m)
  unfolding is_used
  write-IsTyped p =
      let t = w.typed in
      let l = pte-level in
      record {
        bytes = record { byte = t.bytes.byte };
        small = t.small;
        used = t.used;
        points = λ a k h q. ground (arith, t.points a k);
        clean = λ a h q. ground (arith, t.clean a, attributes_lem flags small);
      }

  mapped-IsTyped : (p : ℕ) → IsTyped lvl (mapped p)
  mapped-IsTyped p = mark_used_page_of-IsTyped lvl _ _ (write-IsTyped p)

  -- The three upper entries stand in pages of other levels, so the new entry leaves them alone.
  lookup-mapped : (p : ℕ) → lookup pml4 v (mapped p) ≡ some (base p + attributes flags)
  unfolding lookup
  lookup-mapped p =
      let a4 = pml4 + pml4_index v * 8 in
      let a3 = base e4 + pdpt_index v * 8 in
      let a2 = base e3 + pd_index v * 8 in
      let l = pte-level in
      let l4 : lvl (a4 / page_size) ≡ 4 = rw (page_of_root pml4 (v / 2 ^ 39) aligned) w.level4 in
      let l3 : lvl (a3 / page_size) ≡ 3 = rw (page_of_entry e4 (v / 2 ^ 30)) w.level3 in
      let l2 : lvl (a2 / page_size) ≡ 2 = rw (page_of_entry e3 (v / 2 ^ 21)) w.level2 in
      let n4 : (pte == a4) ≡ false = ==_of_ne _ _ (apart lvl pte a4 (omega arith)) in
      let n3 : (pte == a3) ≡ false = ==_of_ne _ _ (apart lvl pte a3 (omega arith)) in
      let n2 : (pte == a2) ≡ false = ==_of_ne _ _ (apart lvl pte a2 (omega arith)) in
      let same : (pte == pte) ≡ true = ==_refl pte in
      rw (mem-mark_used_page_of (base p) (write pte (base p + attributes flags) m))
        (rw (n4, w.mem4, n3, w.mem3, n2, w.mem2, same, w.present4, w.present3, w.present2) refl)

module _ (lvl : Levels) (pml4 v paddr flags : ℕ) (m : Machine) (t : IsTyped lvl m)
    (small : flags < 2048) (root : lvl (pml4 / page_size) ≡ 4)
    (aligned : pml4 % page_size ≡ 0) where
  -- A whole frame that was free is in use.
  abbrev WasFree : ℕ → Machine → Type 0
  WasFree p m' =
      (p % page_size ≡ 0)
      × (p / page_size < m.max_pages)
      × (is_used m (p / page_size) ≡ false)
      × (is_used m' (p / page_size) ≡ true)

  -- What a call that returns has done: the tables are well formed; if it returns the address, the
  -- entry of the address is the frame with its attributes.
  abbrev Mapped : ℕ → Machine → Type 0
  Mapped r m' =
      ((lvl' : Levels) × (IsTyped lvl' m' × (lvl' (pml4 / page_size) ≡ 4)))
      × ((r ≡ 0)
          ⊎ ((r ≡ v)
              × ((p : ℕ) × ((lookup pml4 v m' ≡ some (base p + attributes flags))
                    × (p ≢ 0)
                    × ((p ≡ paddr) ⊎ ((paddr ≡ 0) × WasFree p m'))))))

  map_entry-Mapped :
      (lvl' : Levels) (e4 e3 e2 : ℕ) (m2 : Machine)
      → Way lvl' pml4 v e4 e3 e2 m2
      → KeepsUsed m m2
      → (r : ℕ) (m' : Machine) → map_entry v paddr flags e2 m2 ≡ some (r, m')
      → Mapped r m'
  unfolding map_entry
  map_entry-Mapped lvl' e4 e3 e2 m2 w kept r m' h =
      elim (Bool-cases
        (present (m2.mem (pte lvl' pml4 v paddr flags e4 e3 e2 m2 w small aligned)))) [
          | inl there ↦ stay (ground arith)
          | inr gap ↦
              elim (Bool-cases ((if paddr == 0 then get_free_phys_page m2 else paddr) == 0)) [
                | inl no_frame ↦ stay (ground arith)
                | inr frame ↦
                    done (if paddr == 0 then get_free_phys_page m2 else paddr) (ground arith)
                      (ground arith) origin
              ]
        ]
    where
      origin :
          let p = if paddr == 0 then get_free_phys_page m2 else paddr in
          (p ≡ paddr) ⊎ ((paddr ≡ 0) × (p ≡ get_free_phys_page m2))
      origin = elim (Bool-cases (paddr == 0)) [
        | inl e ↦ rw e (inr ((==_iff _ _).0 e, refl))
        | inr e ↦ rw e (inl refl)
      ]

      was_free :
          (p : ℕ)
          → mapped lvl' pml4 v paddr flags e4 e3 e2 m2 w small aligned p ≡ m'
          → p ≢ 0
          → p ≡ get_free_phys_page m2
          → WasFree p m'
      was_free p e ne f = elim (get_free_phys_page-FirstFree m2 w.typed.bytes) [
        | inl (z, _) ↦ absurd (ne (f ∙ z))
        | inr (page, (a, _, lt, clear, _)) ↦
            let at : p / page_size ≡ page = omega (arith, f, a) in
            let here : p / page_size < m2.max_pages = omega (arith, at, lt) in
            (
              omega (arith, f, a),
              subst (λ n. p / page_size < n) kept.1 here,
              rw at (elim (Bool-cases (is_used m page)) [
                | inl before ↦ absurd (true≢false (sym (kept.0 page before) ∙ clear))
                | inr free ↦ free
              ]),
              subst (λ x. is_used x (p / page_size) ≡ true) e
                  (is_used-mark_used_page_of p
                    (write (pte lvl' pml4 v paddr flags e4 e3 e2 m2 w small aligned)
                      (base p + attributes flags) m2)
                    (write-IsTyped lvl' pml4 v paddr flags e4 e3 e2 m2 w small aligned p).bytes here
                    w.typed.small),
            )
      ]

      stay : (r ≡ 0) × (m2 ≡ m') → Mapped r m'
      stay (z, e) = ((lvl', (rw (← e) w.typed, w.level4)), inl z)

      done :
          (p : ℕ)
          → (r ≡ v) × (mapped lvl' pml4 v paddr flags e4 e3 e2 m2 w small aligned p ≡ m')
          → p ≢ 0
          → (p ≡ paddr) ⊎ ((paddr ≡ 0) × (p ≡ get_free_phys_page m2))
          → Mapped r m'
      done p (r_eq, e) ne given =
          let from_free : (p ≡ paddr) ⊎ ((paddr ≡ 0) × (p ≡ get_free_phys_page m2))
              → (p ≡ paddr) ⊎ ((paddr ≡ 0) × WasFree p m') =
            λ o. elim o [ inl same ↦ inl same | inr (z, f) ↦ inr (z, was_free p e ne f) ] in
          (
            (
              lvl',
              (
                rw (← e) (mapped-IsTyped lvl' pml4 v paddr flags e4 e3 e2 m2 w small aligned p),
                w.level4,
              ),
            ),
            inr (
              r_eq,
              (
                p,
                (
                  rw (← e) (lookup-mapped lvl' pml4 v paddr flags e4 e3 e2 m2 w small aligned p),
                  ne,
                  from_free given,
                ),
              ),
            ),
          )

  -- `mapPage` at an address that is not null, on well-formed tables, with attributes below 2048:
  -- whenever it returns the tables are well formed again; it returns null or the address, and in
  -- the second case the page table entry of the address is the given frame (if none is given, one that was free and
  -- is in use now) with the attributes present, writable and the given ones.
  pub map_at-Mapped :
      (r : ℕ) (m' : Machine) → map_at v paddr flags pml4 m ≡ some (r, m') → Mapped r m'
  unfolding map_at
  map_at-Mapped r m' h =
      let top = e4 lvl pml4 v flags m t small root aligned in
      elim (Bool-cases (present top)) [
        | inr absent ↦ ground arith
        | inl there ↦ elim (Option-cases (ensure_table (base top + pdpt_index v * 8) flags m)) [
          | inl full ↦ let h' = rw (there, full, ◌>>=◌) at h in cc
          | inr ((e3, m1), h1) ↦
              elim (Option-cases (ensure_table (base e3 + pd_index v * 8) flags m1)) [
                | inl full ↦ let h' = rw (there, h1, ◌>>=◌, full) at h in cc
                | inr ((e2, m2), h2) ↦
                    let (lvl', (w, kept)) =
                      descend lvl pml4 v flags m t small root aligned e3 e2 m1 m2 there h1 h2 in
                    map_entry-Mapped lvl' top e3 e2 m2 w kept r m'
                      (rw (there, h1, ◌>>=◌, h2, ◌>>=◌) at h)
              ]
        ]
      ]
