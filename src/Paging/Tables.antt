-- ===== src/Paging/Tables.antt =====
-- The walks over the page tables of kernel/mm/paging.cpp: `getPAddr`, `mapPage`, `unmapPage`,
-- `getUnmappedVAddr`, `createPageDir` and `destroyPageDir`.
use sepples_os.Prelude.{
  ℕ, zero, suc, ◌+◌, ◌-◌, ◌*◌, ◌/◌, ◌%◌, ◌^◌, Bool, ◌&&◌, not, Option, none, some, ◌==◌,
  if◌then◌else◌, update, bit_or,
}
use sepples_os.Paging.{
  Machine, page_size, free_pages_start, pml4_addr, pd0_addr, pt0_addr, mark_used_page_of,
  mark_used_addr, mark_free_addr, get_free_phys_page,
}

-- `none` is `fatalError`, which halts.
abbrev pub M : Type 0 → Type 0
M A = Machine → Option (A × Machine)

abbrev pub pure : {A : Type 0} → A → M A
pure a m = some (a, m)

infixl 5 ◌>>=◌
abbrev pub ◌>>=◌ : {A B : Type 0} → M A → (A → M B) → M B
◌>>=◌ x f m = elim (x m) [ none ↦ none | some (a, m') ↦ f a m' ]

-- entry & PAGE_ATTR_PRESENT, entry & ~0xFFF, and the entry & ~0x7FF of `getPAddr`
abbrev pub present : ℕ → Bool
present e = e % 2 == 1

abbrev pub base : ℕ → ℕ
base e = e / page_size * page_size

abbrev pub base_7ff : ℕ → ℕ
base_7ff e = e / 0x800 * 0x800

-- vaddr >> 39 & 0x1FF, and so on down
abbrev pub pml4_index : ℕ → ℕ
pml4_index v = v / 2 ^ 39 % 512

abbrev pub pdpt_index : ℕ → ℕ
pdpt_index v = v / 2 ^ 30 % 512

abbrev pub pd_index : ℕ → ℕ
pd_index v = v / 2 ^ 21 % 512

abbrev pub pt_index : ℕ → ℕ
pt_index v = v / 2 ^ 12 % 512

abbrev pub write : ℕ → ℕ → Machine → Machine
write a e m = record m { mem = update m.mem a e }

-- `phyzero` of a page
abbrev pub zero_page : ℕ → Machine → Machine
zero_page p m = record m { mem = λ a. if a / page_size == p / page_size then 0 else m.mem a }

-- The attributes that every new entry has, with the caller's.
abbrev pub attributes : ℕ → ℕ
attributes flags = bit_or 3 flags

unfoldable pub get_paddr : ℕ → Machine → ℕ
get_paddr v m =
    let e4 = m.mem (pml4_addr + pml4_index v * 8) in
    let e3 = m.mem (base_7ff e4 + pdpt_index v * 8) in
    let e2 = m.mem (base_7ff e3 + pd_index v * 8) in
    let e1 = m.mem (base_7ff e2 + pt_index v * 8) in
    if not (present e4)
    then 0
    else if not (present e3)
    then 0
    else if not (present e2)
    then 0
    else if not (present e1)
    then 0
    else base_7ff e1

-- The table that an entry points to; a missing one is built in a free physical page.
unfoldable pub ensure_table : ℕ → ℕ → M ℕ
ensure_table entry flags m =
    if present (m.mem entry)
    then some (m.mem entry, m)
    else if get_free_phys_page m == 0
    then none
    else let p = base (get_free_phys_page m) in
      let e = base p + attributes flags in
      some (e, write entry e (zero_page p (mark_used_page_of p m)))

-- The last step of `mapPage`, once the page table `e2` is there.
unfoldable pub map_entry : (v paddr flags e2 : ℕ) → M ℕ
map_entry v paddr flags e2 m =
    let entry = base e2 + pt_index v * 8 in
    if present (m.mem entry)
    then some (0, m)
    else let p = if paddr == 0 then get_free_phys_page m else paddr in
      if p == 0
      then some (0, m)
      else some (v, mark_used_page_of (base p) (write entry (base p + attributes flags) m))

-- `mapPage` at an address that is not null
unfoldable pub map_at : (v paddr flags pml4 : ℕ) → M ℕ
map_at v paddr flags pml4 m =
    let e4 = m.mem (pml4 + pml4_index v * 8) in
    if not (present e4)
    then none
    else (ensure_table (base e4 + pdpt_index v * 8) flags >>= λ e3.
          ensure_table (base e3 + pd_index v * 8) flags >>= λ e2. map_entry v paddr flags e2)
        m

unfoldable pub unmap_page : ℕ → Machine → Machine
unmap_page v m =
    let e4 = m.mem (pml4_addr + pml4_index v * 8) in
    let e3 = m.mem (base e4 + pdpt_index v * 8) in
    let e2 = m.mem (base e3 + pd_index v * 8) in
    let entry = base e2 + pt_index v * 8 in
    if not (present e4)
    then m
    else if not (present e3)
    then m
    else if not (present e2)
    then m
    else if not (present (m.mem entry))
    then m
    else write entry 0 (mark_free_addr (base (m.mem entry)) m)

-- `getUnmappedVAddr`: the first entry that is not present, among the `n` from `i` on
unfoldable pub scan_pt : (table n i : ℕ) → Machine → Option ℕ
scan_pt table zero i m = none
scan_pt table (suc n) i m =
    if present (m.mem (table + i * 8)) then scan_pt table n (i + 1) m else some i

abbrev pub first_pt_index : ℕ → ℕ
first_pt_index e = if base e == pt0_addr then free_pages_start / page_size else 0

unfoldable pub scan_pd : (table n i : ℕ) → M (Option (ℕ × ℕ))
scan_pd table zero i = pure none
scan_pd table (suc n) i = ensure_table (table + i * 8) 0 >>= λ e m.
    let start = first_pt_index e in
    elim (scan_pt (base e) (512 - start) start m) [
      | none ↦ scan_pd table n (i + 1) m
      | some j ↦ some (some (i, j), m)
    ]

unfoldable pub scan_pdpt : (table n i : ℕ) → M (Option (ℕ × ℕ × ℕ))
scan_pdpt table zero i m = some (none, m)
scan_pdpt table (suc n) i m =
    let rest = scan_pdpt table n (i + 1) in
    if not (present (m.mem (table + i * 8)))
    then none
    else (scan_pd (base (m.mem (table + i * 8))) 512 0
          >>= elim [ none ↦ rest | some (j, k) ↦ pure (some (i, j, k)) ])
        m

unfoldable pub scan_pml4 : (n i : ℕ) → M (Option (ℕ × ℕ × ℕ × ℕ))
scan_pml4 zero i m = some (none, m)
scan_pml4 (suc n) i m =
    let rest = scan_pml4 n (i + 1) in
    if not (present (m.mem (pml4_addr + i * 8)))
    then none
    else (scan_pdpt (base (m.mem (pml4_addr + i * 8))) 512 0
          >>= elim [ none ↦ rest | some (j, k, l) ↦ pure (some (i, j, k, l)) ])
        m

unfoldable pub get_unmapped_vaddr : M ℕ
get_unmapped_vaddr = scan_pml4 512 0 >>= elim [
  | none ↦ pure 0
  | some (i, j, k, l) ↦ pure (i * 2 ^ 39 + j * 2 ^ 30 + k * 2 ^ 21 + l * 2 ^ 12)
]

unfoldable pub map_page : (v paddr flags pml4 : ℕ) → M ℕ
map_page v paddr flags pml4 m =
    let flags' = flags % 0x1000 in
    if v == 0
    then (get_unmapped_vaddr >>= λ u m'.
          if u == 0 then some (0, m') else map_at u paddr flags' pml4 m')
        m
    else map_at v paddr flags' pml4 m

unfoldable pub create_page_dir : Machine → ℕ × Machine
create_page_dir m =
    let pml4 = get_free_phys_page m in
    let m1 = mark_used_addr pml4 m in
    let pdpt = get_free_phys_page m1 in
    let m2 = mark_used_addr pdpt m1 in
    if pml4 == 0 then (0, m) else if pdpt == 0 then (0, mark_free_addr pml4 m1) else (
      pml4,
      write pdpt (pd0_addr + 7) (zero_page pdpt (write pml4 (pdpt + 7) (zero_page pml4 m2))),
    )

-- `for (i = …; i < 512; ++i)`, with the rounds that are left
unfoldable pub for_entries : (ℕ → Machine → Machine) → ℕ → ℕ → Machine → Machine
for_entries body zero i m = m
for_entries body (suc n) i m = for_entries body n (i + 1) (body i m)

unfoldable pub destroy_pt : ℕ → ℕ → Machine → Machine
destroy_pt table i m =
    let e = m.mem (table + i * 8) in if present e then mark_free_addr (base e) m else m

unfoldable pub destroy_pd : ℕ → ℕ → Machine → Machine
unfolding destroy_pt for_entries
destroy_pd table i m =
    let e = m.mem (table + i * 8) in
    if present e then mark_free_addr (base e) (for_entries (destroy_pt (base e)) 512 0 m) else m

unfoldable pub destroy_pdpt : ℕ → ℕ → Machine → Machine
unfolding destroy_pd
destroy_pdpt table i m =
    let e = m.mem (table + i * 8) in
    if present e && not (base e == pd0_addr)
    then mark_free_addr (base e) (for_entries (destroy_pd (base e)) 512 0 m)
    else m

unfoldable pub destroy_pml4 : ℕ → ℕ → Machine → Machine
unfolding destroy_pdpt
destroy_pml4 table i m =
    let e = m.mem (table + i * 8) in
    if present e then mark_free_addr (base e) (for_entries (destroy_pdpt (base e)) 512 0 m) else m

unfoldable pub destroy_page_dir : ℕ → Machine → Machine
unfolding destroy_pml4
destroy_page_dir pml4 m = mark_free_addr pml4 (for_entries (destroy_pml4 pml4) 512 0 m)
