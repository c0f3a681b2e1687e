-- ===== src/Paging/Translate.antt =====
-- `getPAddr` and `unmapPage` of kernel/mm/paging.cpp against the entries that `mapPage` writes.
use sepples_os.Prelude.{
  ℕ, ◌+◌, ◌*◌, ◌/◌, ◌%◌, ◌^◌, ◌≡◌, ◌<◌, refl, ◌≢◌, true, false, none, some, ◌==◌, arith, ◌⊎◌, inl,
  inr, ◌∙◌, ==_of_ne, ==_refl, if◌then◌else◌, sym,
}
use sepples_os.Paging.{Machine, IsBytes, page_size, is_used, pml4_addr, mark_free_addr, mark_free}
use sepples_os.Paging.Frames.{is_used-mark_free}
use sepples_os.Paging.Tables.{
  present, base, base_7ff, write, attributes, map_at, get_paddr, pml4_index, pdpt_index, pd_index,
  pt_index, unmap_page,
}
use sepples_os.Paging.Walk.{Levels, IsTyped, attributes_lem}
use sepples_os.Paging.Mapping.{lookup, map_at-Mapped, page_of_entry, page_of_root, apart}

base_7ff-eq-base : (e : ℕ) → e / 2048 % 2 ≡ 0 → base_7ff e ≡ base e
base_7ff-eq-base e h = omega arith

-- On well-formed tables the narrower mask of `getPAddr` finds the same tables.
get_paddr-lookup :
    (lvl : Levels) (v e : ℕ) (m : Machine)
    → IsTyped lvl m
    → lvl (pml4_addr / page_size) ≡ 4
    → lookup pml4_addr v m ≡ some e
    → present e ≡ true
    → get_paddr v m ≡ base_7ff e
unfolding lookup get_paddr
get_paddr-lookup lvl v e m t root h p =
    let a4 = pml4_addr + pml4_index v * 8 in
    let x4 = m.mem a4 in
    let a3 = base x4 + pdpt_index v * 8 in
    let x3 = m.mem a3 in
    let a2 = base x3 + pd_index v * 8 in
    let x2 = m.mem a2 in
    let p4 : present x4 ≡ true = ground arith in
    let p3 : present x3 ≡ true = ground arith in
    let p2 : present x2 ≡ true = ground arith in
    let l4 : lvl (a4 / page_size) ≡ 4 =
      rw (page_of_root pml4_addr (v / 2 ^ 39) (omega arith)) root in
    let l3 : lvl (a3 / page_size) ≡ 3 = rw (page_of_entry x4 (v / 2 ^ 30)) (t.points a4 2 l4 p4) in
    let l2 : lvl (a2 / page_size) ≡ 2 = rw (page_of_entry x3 (v / 2 ^ 21)) (t.points a3 1 l3 p3) in
    let b4 : base_7ff x4 ≡ base x4 = base_7ff-eq-base _ (t.clean a4 (omega arith) p4) in
    let b3 : base_7ff x3 ≡ base x3 = base_7ff-eq-base _ (t.clean a3 (omega arith) p3) in
    let b2 : base_7ff x2 ≡ base x2 = base_7ff-eq-base _ (t.clean a2 (omega arith) p2) in
    let leaf : m.mem (base x2 + pt_index v * 8) ≡ e = ground arith in
    rw (b4, b3, b2, p4, p3, p2, leaf, p) refl

-- Round trip in the kernel's address space: after `mapPage` of an address to a page-aligned frame
-- that returned the address, `getPAddr` of it gives the frame.
pub get_paddr-map_at :
    (lvl : Levels) (v paddr flags : ℕ) (m m' : Machine)
    → IsTyped lvl m
    → flags < 2048
    → lvl (pml4_addr / page_size) ≡ 4
    → v ≢ 0
    → paddr ≢ 0
    → paddr % page_size ≡ 0
    → map_at v paddr flags pml4_addr m ≡ some (v, m')
    → get_paddr v m' ≡ paddr
get_paddr-map_at lvl v paddr flags m m' t small root v_ne p_ne aligned h =
    let ((lvl', (t', root')), outcome) =
      map_at-Mapped lvl pml4_addr v paddr flags m t small root (omega arith) v m' h in
    elim outcome [
      | inl z ↦ absurd (v_ne z)
      | inr (_, (p, (look, _, given))) ↦
          let same : p ≡ paddr = elim given [
            | inl frame ↦ frame
            | inr (no_frame, _) ↦ absurd (p_ne no_frame)
          ] in
          let a = attributes_lem flags small in
          get_paddr-lookup lvl' v (base p + attributes flags) m' t' root' look (ground arith)
          ∙ omega arith
    ]

mem-mark_free_addr : (p : ℕ) (m : Machine) → (mark_free_addr p m).mem ≡ m.mem
unfolding mark_free_addr mark_free
mem-mark_free_addr p m = ground arith

freed-write :
    (a e : ℕ) (m : Machine)
    → IsBytes m
    → e / page_size < m.max_pages
    → is_used (write a 0 (mark_free_addr (base e) m)) (e / page_size) ≡ false
unfolding is_used mark_free_addr
freed-write a e m v h =
    let same : base e / page_size ≡ e / page_size = omega arith in
    rw same (is_used-mark_free (e / page_size) (e / page_size) m v ∙ ground arith)

kept-write :
    (a e : ℕ) (m : Machine)
    → IsBytes m
    → (q : ℕ) → q ≢ e / page_size
    → is_used (write a 0 (mark_free_addr (base e) m)) q ≡ is_used m q
unfolding is_used mark_free_addr
kept-write a e m v q ne =
    let same : base e / page_size ≡ e / page_size = omega arith in
    let other : (e / page_size == q) ≡ false = ==_of_ne (e / page_size) q (λ h. ne (sym h)) in
    rw same (is_used-mark_free (e / page_size) q m v ∙ rw other refl)

-- Unmapping a mapped address clears its page table entry, and no other word of the memory changes;
-- it marks the frame as free, and no other page of the bitmap changes.
pub unmap_page-mapped :
    (lvl : Levels) (v e : ℕ) (m : Machine)
    → IsTyped lvl m
    → lvl (pml4_addr / page_size) ≡ 4
    → lookup pml4_addr v m ≡ some e
    → present e ≡ true
    → e / page_size < m.max_pages
    → (lookup pml4_addr v (unmap_page v m) ≡ some 0)
      × (get_paddr v (unmap_page v m) ≡ 0)
      × (is_used (unmap_page v m) (e / page_size) ≡ false)
      × ((q : ℕ) → q ≢ e / page_size → is_used (unmap_page v m) q ≡ is_used m q)
      × ((place : ℕ) × ((m.mem place ≡ e)
            × ((a : ℕ) → (unmap_page v m).mem a ≡ (if place == a then 0 else m.mem a))))
unfolding lookup get_paddr unmap_page mark_free_addr is_used
unmap_page-mapped lvl v e m t root h p lt =
    let a4 = pml4_addr + pml4_index v * 8 in
    let x4 = m.mem a4 in
    let a3 = base x4 + pdpt_index v * 8 in
    let x3 = m.mem a3 in
    let a2 = base x3 + pd_index v * 8 in
    let x2 = m.mem a2 in
    let a1 = base x2 + pt_index v * 8 in
    let p4 : present x4 ≡ true = ground arith in
    let p3 : present x3 ≡ true = ground arith in
    let p2 : present x2 ≡ true = ground arith in
    let l4 : lvl (a4 / page_size) ≡ 4 =
      rw (page_of_root pml4_addr (v / 2 ^ 39) (omega arith)) root in
    let l3 : lvl (a3 / page_size) ≡ 3 = rw (page_of_entry x4 (v / 2 ^ 30)) (t.points a4 2 l4 p4) in
    let l2 : lvl (a2 / page_size) ≡ 2 = rw (page_of_entry x3 (v / 2 ^ 21)) (t.points a3 1 l3 p3) in
    let l1 : lvl (a1 / page_size) ≡ 1 = rw (page_of_entry x2 (v / 2 ^ 12)) (t.points a2 0 l2 p2) in
    let b4 : base_7ff x4 ≡ base x4 = base_7ff-eq-base _ (t.clean a4 (omega arith) p4) in
    let b3 : base_7ff x3 ≡ base x3 = base_7ff-eq-base _ (t.clean a3 (omega arith) p3) in
    let b2 : base_7ff x2 ≡ base x2 = base_7ff-eq-base _ (t.clean a2 (omega arith) p2) in
    let n4 : (a1 == a4) ≡ false = ==_of_ne _ _ (apart lvl a1 a4 (omega arith)) in
    let n3 : (a1 == a3) ≡ false = ==_of_ne _ _ (apart lvl a1 a3 (omega arith)) in
    let n2 : (a1 == a2) ≡ false = ==_of_ne _ _ (apart lvl a1 a2 (omega arith)) in
    let same : (a1 == a1) ≡ true = ==_refl a1 in
    let leaf : m.mem a1 ≡ e = ground arith in
    let gone : unmap_page v m ≡ write a1 0 (mark_free_addr (base e) m) = rw (p4, p3, p2, leaf, p) in
    rw (gone, mem-mark_free_addr (base e) m)
      (
        rw (n4, n3, n2, same, p4, p3, p2) refl,
        rw (n4, b4, n3, b3, n2, b2, same, p4, p3, p2) refl,
        freed-write a1 e m t.bytes lt,
        kept-write a1 e m t.bytes,
        (a1, (leaf, λ a. refl)),
      )

-- Unmapping an address that has no present entry changes nothing.
pub unmap_page-unmapped :
    (v : ℕ) (m : Machine)
    → ((lookup pml4_addr v m ≡ none)
        ⊎ ((e : ℕ) × ((lookup pml4_addr v m ≡ some e) × (present e ≡ false))))
    → unmap_page v m ≡ m
unfolding lookup unmap_page
unmap_page-unmapped v m h = ground arith
