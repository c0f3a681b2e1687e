-- ===== src/Malloc/Free.antt =====
-- What `free` of kernel/mm/malloc.cpp makes of the list of chunks.
use sepples_os.Prelude.{
  ℕ, suc, ◌+◌, ◌≤◌, ◌<◌, ◌≡◌, List, [], ◌∷◌, ◌++◌, true, false, refl, arith, ◌^◌, ◌∙◌, ==_refl,
  ltb_of_le, ap, ==_of_ne, subst, lt→ltb, ◌-◌, ◌*◌, if◌then◌else◌, ◌/◌, ◌==◌, ◌%◌, sym, le-or-lt,
  inr, ap₂, zero, leb_of_lt, inl, le→leb, Bool-cases, ◌≢◌,
}
use sepples_os.Malloc.{
  ChunkHeader, Pager, Heap, Run, ok, hsize, page_size, size_at, used_at, merge, release, free,
  sub64, magic, set_size, magic_at, ltb, leb, unmap_pages, free_chunk_at, unused, check, ◌>>◌,
  ◌>>=◌,
}
use sepples_os.Malloc.Chunks.{
  Chunks, sizes, Chunks-le, Chunks-frame, Chunks-second, Chunks-lt, Chunks-first, Chunks-append,
  Chunks-end,
}
use sepples_os.Malloc.Merge.{AreFree, IsStop, IsMerged-here, merge-run, sizes-append, length-sizes}

-- What is left of the freed chunk, and how many bytes are given back: a last chunk loses its whole
-- pages.
unfoldable pub left_over : List ChunkHeader → ChunkHeader → List ChunkHeader
left_over [] c =
    if ltb c.size page_size
    then c ∷ []
    else if c.size % page_size == 0
    then []
    else record c { size = c.size % page_size } ∷ []
left_over (d ∷ ds) c = c ∷ []

unfoldable pub given_back : List ChunkHeader → ℕ → ℕ
given_back [] n = page_size * (n / page_size)
given_back (d ∷ ds) n = 0

-- `n` pages from an address on are unmapped, the lowest first.
abbrev pub unmapped : {S : Type 0} → Pager S → ℕ → ℕ → S → S
unmapped pg zero a s = s
unmapped pg (suc n) a s = pg.unmap_at_page (a + page_size * n) (unmapped pg n a s)

unmapped_first :
    {S : Type 0} (pg : Pager S) (n a : ℕ) (s : S)
    → unmapped pg n (a + page_size) (pg.unmap_at_page a s) ≡ unmapped pg (suc n) a s
unmapped_first pg zero a s = ap (λ x. pg.unmap_at_page x s) (omega arith)
unmapped_first pg (suc n) a s =
    let place : a + page_size + page_size * n ≡ a + page_size * suc n = omega arith in
    ap₂ (λ x t. pg.unmap_at_page x t) place (unmapped_first pg n a s)

unmap_pages-unmapped :
    {S : Type 0} (pg : Pager S) (n a : ℕ) (s : S) → unmap_pages pg n a s ≡ unmapped pg n a s
unfolding unmap_pages
unmap_pages-unmapped pg zero a s = refl
unmap_pages-unmapped pg (suc n) a s =
    unmap_pages-unmapped pg n (a + page_size) (pg.unmap_at_page a s) ∙ unmapped_first pg n a s

-- A chunk that has lost its whole pages ends the list, or is gone.
trimmed-Chunks :
    (hdr : ℕ → ChunkHeader) (a b : ℕ) (cs : List ChunkHeader) (t : ChunkHeader)
    → Chunks hdr a b cs
    → page_size ≤ t.size
    → t.size < 2 ^ 48
    → t.magic_value ≡ magic
    → hdr b ≡ record t { size = t.size % page_size }
    → Chunks hdr a (b + t.size % page_size) (cs ++ (left_over [] t ++ []))
unfolding left_over
trimmed-Chunks hdr a b cs t h big lt m e = elim (Bool-cases (t.size % page_size == 0)) [
  | inl z ↦
      (let zero_left : t.size % page_size ≡ 0 = ground (arith, z) in
        rw (ltb_of_le t.size page_size big, z)
          (Chunks-append hdr a b (b + t.size % page_size) cs [] h (omega (arith, zero_left))))
  | inr z ↦
      (let some_left : 1 ≤ t.size % page_size = ground (arith, z) in
        rw (ltb_of_le t.size page_size big, z)
          (Chunks-append hdr a b (b + t.size % page_size) cs
            (record t { size = t.size % page_size } ∷ []) h (e, some_left, omega arith, m, refl)))
]

module _ {S : Type 0} where
  pub record IsReleased (pg : Pager S) (cs ds : List ChunkHeader) (t : ChunkHeader) (g g' : Heap S)
      : Type 0 where
    pub chunks : Chunks g'.hdr g'.first g'.end (cs ++ (left_over ds t ++ ds))
    pub first : g'.first ≡ g.first
    pub end : g'.end ≡ g.end - given_back ds t.size
    pub mem_used : g'.mem_used ≡ sub64 g.mem_used (given_back ds t.size)
    pub mem_allocated : g'.mem_allocated ≡ g.mem_allocated
    pub paging :
        g'.paging ≡ unmapped pg (given_back ds t.size / page_size) (g'.end + hsize) g.paging

  pub release-IsReleased :
      (pg : Pager S) (cs ds : List ChunkHeader) (t : ChunkHeader) (g : Heap S)
      → Chunks g.hdr g.first g.end (cs ++ t ∷ ds)
      → g.mem_used < 2 ^ 64
      → IsReleased pg cs ds t g (release pg (g.first + sizes cs) g)
  unfolding release left_over given_back
  release-IsReleased pg cs (d ∷ ds) t g hc mu =
      let a = g.first + sizes cs in
      let (e, pos, lt, m, r) = Chunks-second g.hdr g.first g.end cs (t ∷ d ∷ ds) hc in
      let inner = Chunks-lt g.hdr (a + t.size) g.end [] ds d r in
      let last : (a + size_at g a == g.end) ≡ false =
        ==_of_ne (a + size_at g a) g.end (omega (arith, inner, ap (λ x. x.size) e)) in
      let same : release pg a g ≡ g = rw last refl in
      subst (IsReleased pg cs (d ∷ ds) t g) (sym same) (record {
        chunks = hc;
        first = refl;
        end = omega arith;
        mem_used = omega (arith, mu);
        mem_allocated = refl;
        paging = refl;
      })
  release-IsReleased pg cs [] t g hc mu =
      let a = g.first + sizes cs in
      let (e, pos, lt, m, r) = Chunks-second g.hdr g.first g.end cs (t ∷ []) hc in
      let front = Chunks-first g.hdr g.first g.end cs (t ∷ []) hc in
      let se : size_at g a ≡ t.size = ap (λ x. x.size) e in
      let last : (a + size_at g a == g.end) ≡ true = rw (se, r) (==_refl g.end) in
      elim (le-or-lt page_size t.size) [
        | inr small ↦
            (let few : leb page_size (size_at g a) ≡ false =
                leb_of_lt page_size (size_at g a) (omega (arith, se, small)) in
              let same : release pg a g ≡ g = rw (last, few) refl in
              subst (IsReleased pg cs [] t g) (sym same) (record {
                chunks = rw (lt→ltb t.size page_size small) hc;
                first = refl;
                end = omega (arith, small);
                mem_used = omega (arith, mu, small);
                mem_allocated = refl;
                paging =
                    let no_page : 0 ≡ page_size * (t.size / page_size) / page_size =
                      omega (arith, small) in
                    ap (λ n. unmapped pg n (g.end + hsize) g.paging) no_page;
              }))
        | inl big ↦
            (let many : leb page_size (size_at g a) ≡ true =
                le→leb page_size (size_at g a) (omega (arith, se, big)) in
              let k = size_at g a / page_size in
              let g2 = record (set_size a (size_at g a - page_size * k) g) {
                end = g.end - page_size * k;
                mem_used = sub64 g.mem_used (page_size * k);
                paging = unmap_pages pg k (g.end - page_size * k + hsize) g.paging;
              } in
              let cut : release pg a g ≡ g2 = rw (last, many) refl in
              subst (IsReleased pg cs [] t g) (sym cut) (record {
                chunks =
                    subst (λ x. Chunks g2.hdr g.first x (cs ++ (left_over [] t ++ [])))
                      (omega (arith, r, se, big))
                      (trimmed-Chunks g2.hdr g.first a cs t
                        (Chunks-frame g.hdr g2.hdr g.first a cs front
                          (λ x lo hi. ground (arith, ==_of_ne a x)))
                        big lt m
                        (rw (==_refl a) (
                          ap {A = ChunkHeader} {B = ChunkHeader}
                            (λ c. record c {
                              size = (c.size - page_size * (c.size / page_size)) % 2 ^ 48;
                            })
                            e
                          ∙ ap {B = ChunkHeader} (λ n. record t { size = n })
                              (omega (arith, lt)))));
                first = refl;
                end = ap (λ x. g.end - page_size * (x / page_size)) se;
                mem_used = ap (λ x. sub64 g.mem_used (page_size * (x / page_size))) se;
                mem_allocated = refl;
                paging =
                    let count : k ≡ page_size * (t.size / page_size) / page_size =
                      omega (arith, se) in
                    unmap_pages-unmapped pg k (g.end - page_size * k + hsize) g.paging
                    ∙ ap (λ n. unmapped pg n (g.end - page_size * k + hsize) g.paging) count;
              }))
      ]

  free-chunk :
      (pg : Pager S) (a : ℕ) (h : Heap S)
      → h.ready ≡ true
      → free pg (a + hsize) h ≡ free_chunk_at pg a h
  unfolding free
  free-chunk pg a h rdy =
      rw (rdy, ==_of_ne (a + hsize) 0 (omega arith)) (ap (λ x. free_chunk_at pg x h) (omega arith))

  chunk-run :
      (pg : Pager S) (a : ℕ) (h g : Heap S)
      → magic_at h a ≡ true
      → used_at h a ≡ true
      → merge (suc h.end) a (unused a h) ≡ ok g
      → free_chunk_at pg a h ≡ ok (record (release pg a g) { ready = true })
  unfolding free_chunk_at
  chunk-run pg a h g mb ub run =
      let last : Heap S → Run (Heap S) = λ x. ok (record (release pg a x) { ready = true }) in
      let loop = merge (suc h.end) a (unused a h) in
      ap (λ b. check b >> (check (used_at h a) >> (loop >>= last))) mb
      ∙ ap (λ b. check b >> (loop >>= last)) ub
      ∙ ap (λ r. r >>= last) run

  -- On a heap that is ready, with the end of the chunks below 2^48: `free` of a used chunk merges
  -- it with the run of free chunks behind it, and where the run ends the list, its whole pages
  -- are unmapped, from behind the new end on, and the end moves down. The count of allocated bytes falls by what the chunk held; the
  -- heap is ready again.
  pub free-merges :
      (pg : Pager S) (cs fs ds : List ChunkHeader) (c : ChunkHeader) (h : Heap S)
      → h.ready ≡ true
      → h.end < 2 ^ 48
      → h.mem_used < 2 ^ 64
      → Chunks h.hdr h.first h.end (cs ++ c ∷ (fs ++ ds))
      → c.used ≡ true
      → AreFree fs
      → IsStop ds
      → let t = record c { size = c.size + sizes fs; used = false } in
        (h' : Heap S) × (free pg (h.first + sizes cs + hsize) h ≡ ok h')
        × Chunks h'.hdr h'.first h'.end (cs ++ (left_over ds t ++ ds))
        × (h'.end ≡ h.end - given_back ds t.size)
        × (h'.mem_used ≡ sub64 h.mem_used (given_back ds t.size))
        × (h'.mem_allocated ≡ sub64 h.mem_allocated (sub64 c.size hsize))
        × (h'.ready ≡ true)
        × (h'.paging ≡ unmapped pg (given_back ds t.size / page_size) (h'.end + hsize) h.paging)
  free-merges pg cs fs ds c h rdy small mu hc us fr st =
      let a = h.first + sizes cs in
      let (e, pos, lt, m, r) = Chunks-second h.hdr h.first h.end cs (c ∷ (fs ++ ds)) hc in
      let h1 = unused a h in
      let t = record c { size = c.size + sizes fs; used = false } in
      let at1 : h1.hdr a ≡ record c { used = false } =
        rw (==_refl a)
          (ap {A = ChunkHeader} {B = ChunkHeader} (λ x. record x { used = false }) e) in
      let s1 : size_at h1 a ≡ c.size = ap (λ x. x.size) at1 in
      let r1 =
        subst (λ x. Chunks h1.hdr x h1.end (fs ++ ds)) (ap (λ x. a + x) (sym s1))
          (Chunks-frame h.hdr h1.hdr (a + c.size) h.end (fs ++ ds) r
            (λ x lo hi. ground (arith, ==_of_ne a x))) in
      let (g, run, mg) =
        merge-run (suc h.end) a fs ds h1 (omega (arith, s1, pos)) (ap (λ x. x.magic_value) at1 ∙ m)
          r1 fr st small
          (omega (
            arith,
            length-sizes h.hdr (a + c.size) h.end fs ds r,
            Chunks-end h.hdr (a + c.size) h.end (fs ++ ds) r,
            sizes-append fs ds,
          )) in
      let others : (x : ℕ) → a ≢ x → g.hdr x ≡ h.hdr x =
        λ x ne. mg.hdr x ∙ ground (arith, ==_of_ne a x ne) in
      let at : g.hdr a ≡ t =
        IsMerged-here a (size_at h1 a + sizes fs) h1 g (record c { used = false }) mg at1
        ∙ ap {B = ChunkHeader} (λ x. record t { size = x + sizes fs }) s1 in
      let front = Chunks-first h.hdr h.first h.end cs (c ∷ (fs ++ ds)) hc in
      let back = Chunks-second h.hdr (a + c.size) h.end fs ds r in
      let le = Chunks-le h.hdr (a + c.size + sizes fs) h.end ds back in
      let back' : Chunks g.hdr (a + t.size) h.end ds =
        subst (λ x. Chunks g.hdr x h.end ds) (omega arith)
          (Chunks-frame h.hdr g.hdr (a + c.size + sizes fs) h.end ds back
            (λ x lo hi. others x (omega (arith, lo, pos)))) in
      let whole : Chunks g.hdr h.first h.end (cs ++ t ∷ ds) =
        Chunks-append g.hdr h.first a h.end cs (t ∷ ds)
          (Chunks-frame h.hdr g.hdr h.first a cs front (λ x lo hi. others x (omega (arith, hi))))
          (at, omega (arith, pos), omega (arith, le, small), m, back') in
      let gl : Chunks g.hdr g.first g.end (cs ++ t ∷ ds) =
        subst (λ x. Chunks g.hdr g.first x (cs ++ t ∷ ds)) (sym mg.end)
          (subst (λ x. Chunks g.hdr x h.end (cs ++ t ∷ ds)) (sym mg.first) whole) in
      let mu' : g.mem_used < 2 ^ 64 = omega (arith, mg.mem_used, mu) in
      let rel = release-IsReleased pg cs ds t g gl mu' in
      let mb : magic_at h a ≡ true = ground (arith, m, ap (λ x. x.magic_value) e) in
      let ub : used_at h a ≡ true = ap (λ x. x.used) e ∙ us in
      (
        record (release pg (g.first + sizes cs) g) { ready = true },
        free-chunk pg a h rdy
            ∙ chunk-run pg a h g mb ub run
            ∙ ap (λ x. ok (record (release pg (x + sizes cs) g) { ready = true })) (sym mg.first),
        rel.chunks,
        rel.end ∙ ap (λ x. x - given_back ds t.size) mg.end,
        rel.mem_used ∙ ap (λ x. sub64 x (given_back ds t.size)) mg.mem_used,
        rel.mem_allocated
            ∙ mg.mem_allocated
            ∙ ap (λ x. sub64 h.mem_allocated (sub64 x.size hsize)) e,
        refl,
        rel.paging
            ∙ ap
                (unmapped pg (given_back ds t.size / page_size)
                  ((release pg (g.first + sizes cs) g).end + hsize))
                mg.paging,
      )
