-- ===== src/Malloc/RoundTrip.antt =====
-- `free` after `malloc` in kernel/mm/malloc.cpp.
use sepples_os.Prelude.{
  ℕ, ◌+◌, ◌≤◌, ◌<◌, ◌≡◌, List, [], ◌∷◌, ◌++◌, true, false, refl, ◌^◌, le-or-lt, arith, inr, subst,
  ◌∙◌, inl, ◌-◌, ap, sym, length, ◌%◌,
}
use sepples_os.Malloc.{
  ChunkHeader, Pager, Heap, ok, hsize, size_at, free, add64, sub64, free_chunk, minsize,
}
use sepples_os.Malloc.Chunks.{Chunks, sizes, Chunks-second}
use sepples_os.Malloc.Search.{malloc, real_size}
use sepples_os.Malloc.Alloc.{IsSkipped, IsFit, carve, carve_one, carve_two, malloc-fits}
use sepples_os.Malloc.Free.{left_over, given_back, free-merges}

pub sub64-add64 : (a x : ℕ) → a < 2 ^ 64 → x < 2 ^ 64 → sub64 (add64 a x) x ≡ a
sub64-add64 a x la lx = omega arith

restored :
    (c : ChunkHeader) (n : ℕ)
    → n ≡ c.size
    → c.used ≡ false
    → record c { size = n; used = false } ≡ c
restored c n e us =
    ap {B = ChunkHeader} (λ x. record c { size = x; used = false }) e
    ∙ ap {B = ChunkHeader} (λ b. record c { used = b }) (sym us)

module _ {S : Type 0} where
  -- `free` of what the search has carved gives the chunk back as it was.
  free-carve :
      (pg : Pager S) (n : ℕ) (cs ds : List ChunkHeader) (c d : ChunkHeader) (h : Heap S)
      → h.ready ≡ true
      → h.end < 2 ^ 48
      → h.mem_used < 2 ^ 64
      → IsFit n c
      → c.size < 2 ^ 48
      → d.used ≡ true
      → Chunks h.hdr h.first h.end (cs ++ (carve n c ++ d ∷ ds))
      → (h' : Heap S) × (free pg (h.first + sizes cs + hsize) h ≡ ok h')
        × Chunks h'.hdr h'.first h'.end (cs ++ c ∷ d ∷ ds)
        × (h'.mem_used ≡ h.mem_used)
        × (h'.mem_allocated ≡ sub64 h.mem_allocated (sub64 (size_at h (h.first + sizes cs)) hsize))
  unfolding left_over given_back sizes
  free-carve pg n cs ds c d h rdy small mu ft lt du hc = elim (le-or-lt (minsize + n) c.size) [
    | inr one ↦
        (let hc1 =
            subst (λ x. Chunks h.hdr h.first h.end (cs ++ (x ++ d ∷ ds))) (carve_one n c one) hc in
          let (h', run, list, en, used, alloc, _, _) =
            free-merges pg cs [] (d ∷ ds) (record c { used = true }) h rdy small mu hc1 refl tt
              du in
          let (at, _, _, _, _) =
            Chunks-second h.hdr h.first h.end cs (record c { used = true } ∷ d ∷ ds) hc1 in
          (
            h',
            run,
            subst (λ x. Chunks h'.hdr h'.first h'.end (cs ++ x ∷ d ∷ ds))
                (restored c (c.size + 0) (omega arith) ft.unused_now) list,
            used ∙ omega (arith, mu),
            alloc ∙ ap (λ x. sub64 h.mem_allocated (sub64 x.size hsize)) (sym at),
          ))
    | inl two ↦
        (let hc1 =
            subst (λ x. Chunks h.hdr h.first h.end (cs ++ (x ++ d ∷ ds))) (carve_two n c two) hc in
          let u : ChunkHeader = record c { size = n; used = true } in
          let r = free_chunk (c.size - n) in
          let (h', run, list, en, used, alloc, _, _) =
            free-merges pg cs (r ∷ []) (d ∷ ds) u h rdy small mu hc1 refl (refl, tt) du in
          let (at, _, _, _, _) = Chunks-second h.hdr h.first h.end cs (u ∷ r ∷ d ∷ ds) hc1 in
          (
            h',
            run,
            subst (λ x. Chunks h'.hdr h'.first h'.end (cs ++ x ∷ d ∷ ds))
                (restored c (n + ((c.size - n) % 2 ^ 48 + 0)) (omega (arith, two, lt))
                  ft.unused_now)
                list,
            used ∙ omega (arith, mu),
            alloc ∙ ap (λ x. sub64 h.mem_allocated (sub64 x.size hsize)) (sym at),
          ))
  ]

  -- Under the conditions of `malloc-fits`, with the end of the chunks below 2^48 and both counters
  -- 64-bit numbers: a block from a chunk that a used one follows, freed at once, leaves the list of
  -- chunks and the two counters as they were.
  pub free-malloc :
      (pg : Pager S) (size fuel next : ℕ) (s : S) (cs ds : List ChunkHeader) (c d : ChunkHeader)
      (h : Heap S)
      → h.ready ≡ true
      → h.end < 2 ^ 48
      → h.mem_used < 2 ^ 64
      → h.mem_allocated < 2 ^ 64
      → 1 ≤ size
      → pg.get_unmapped h.paging ≡ ok (next, s)
      → Chunks h.hdr h.first h.end (cs ++ c ∷ d ∷ ds)
      → IsSkipped false (real_size size) cs
      → IsFit (real_size size) c
      → d.used ≡ true
      → length cs < fuel
      → (p : ℕ) × (h' : Heap S) × (h'' : Heap S) × (malloc pg fuel size h ≡ ok (p, h'))
        × (free pg p h' ≡ ok h'')
        × Chunks h''.hdr h''.first h''.end (cs ++ c ∷ d ∷ ds)
        × (h''.mem_used ≡ h.mem_used)
        × (h''.mem_allocated ≡ h.mem_allocated)
  free-malloc pg size fuel next s cs ds c d h rdy small mu ma pos gu hc sk ft du lt =
      let n = real_size size in
      let (h', run, list, fi, en, used, alloc, rdy') =
        malloc-fits pg size fuel next s cs (d ∷ ds) c h rdy pos gu hc sk ft lt in
      let (_, _, lt', _, _) = Chunks-second h.hdr h.first h.end cs (c ∷ d ∷ ds) hc in
      let (h'', run', list', used', alloc') =
        free-carve pg n cs ds c d h' rdy' (omega (arith, en, small)) (omega (arith, used, mu)) ft
          lt' du list in
      let p = h.first + sizes cs + hsize in
      (
        p,
        h',
        h'',
        run,
        ap (λ x. free pg (x + sizes cs + hsize) h') (sym fi) ∙ run',
        list',
        used' ∙ used,
        alloc'
            ∙ ap (λ x. sub64 h'.mem_allocated (sub64 (size_at h' (x + sizes cs)) hsize)) fi
            ∙ ap (λ x. sub64 x (sub64 (size_at h' (h.first + sizes cs)) hsize)) alloc
            ∙ sub64-add64 h.mem_allocated (sub64 (size_at h' (h.first + sizes cs)) hsize) ma
                (omega arith),
      )
