-- ===== src/Malloc/Pages.antt =====
-- The pages that `malloc` of kernel/mm/malloc.cpp fetches at the end of the chunks.
use sepples_os.Prelude.{
  ℕ, zero, suc, ◌+◌, ◌≤◌, ◌<◌, ◌≡◌, List, [], ◌∷◌, ◌++◌, true, false, refl, ◌^◌, ==_refl, ◌*◌,
  arith, ◌-◌, Bool-cases, ◌==◌, inl, inr, ap, le-or-lt, ◌%◌, ◌∙◌, ==_of_ne, subst,
}
use sepples_os.Malloc.{
  ChunkHeader, Pager, Heap, ok, halted, hsize, size_at, used_at, free_chunk, page_size, minsize,
  add64, update, write, min, ltb,
}
use sepples_os.Malloc.Chunks.{Chunks, sizes, Chunks-second, Chunks-append, Chunks-frame}
use sepples_os.Malloc.Search.{Fetch, fetch, fetch_page, fetch_more, real_size, pages_of}
use sepples_os.Malloc.Alloc.{IsFit}

-- `n` pages from an address on can be mapped there, one after another.
abbrev pub MapsFrom : {S : Type 0} → Pager S → ℕ → ℕ → S → Type 0
MapsFrom pg zero v s = Unit
MapsFrom {S} pg (suc n) v s =
    (s' : S) × ((pg.map_at_page v s ≡ ok (v, s')) × MapsFrom pg n (v + page_size) s')

pages_of_step :
    (n : ℕ) → 1 ≤ n → page_size * pages_of n ≡ page_size + page_size * pages_of (n - page_size)
pages_of_step n pos = elim (le-or-lt page_size n) [
  | inl big ↦ ground (arith, big)
  | inr small ↦ ground (arith, small)
]

pages_count : (n : ℕ) → 1 ≤ n → pages_of n ≡ suc (pages_of (n - page_size))
pages_count n pos = let step = pages_of_step n pos in omega (arith, step)

pages_of_zero : (n : ℕ) → (n == 0) ≡ true → pages_of n ≡ 0
pages_of_zero n z = ap pages_of (of_zero n z)
  where
    of_zero : (n : ℕ) → (n == 0) ≡ true → n ≡ 0
    of_zero n z = ground (arith, z)

pages_of_bounds :
    (n : ℕ)
    → 1 ≤ n
    → (n ≤ page_size * pages_of n)
      × (page_size * pages_of n ≤ n + page_size)
      × (page_size ≤ page_size * pages_of n)
pages_of_bounds n pos = (ground (arith, pos), ground (arith, pos), ground (arith, pos))

-- A chunk is put behind the last one.
appended :
    (hdr : ℕ → ChunkHeader) (a b n : ℕ) (cs : List ChunkHeader)
    → Chunks hdr a b cs
    → 1 ≤ n
    → n < 2 ^ 48
    → Chunks (update hdr b (free_chunk n)) a (b + n) (cs ++ free_chunk n ∷ [])
appended hdr a b n cs h pos lt =
    Chunks-append (update hdr b (free_chunk n)) a b (b + n) cs (free_chunk n ∷ [])
      (Chunks-frame hdr (update hdr b (free_chunk n)) a b cs h
        (λ x lo hi. ground (arith, ==_of_ne b x)))
      (rw (==_refl b) refl, omega arith, omega arith, refl, omega arith)

module _ {S : Type 0} where
  record IsFetched (n : ℕ) (st st' : Fetch S) : Type 0 where
    hdr : st'.heap.hdr ≡ st.heap.hdr
    first : st'.heap.first ≡ st.heap.first
    end : st'.heap.end ≡ st.heap.end + n
    total : st'.total ≡ st.total + n
    other : st'.other ≡ st.other
    old_end : st'.old_end ≡ st.old_end
    mem_used : st'.heap.mem_used ≡ st.heap.mem_used + n

  more : Fetch S → S → Fetch S
  more st s = record st {
    total = add64 st.total page_size;
    need = st.need - page_size;
    heap = record (st.heap) {
      paging = s;
      mem_used = add64 st.heap.mem_used page_size;
      end = st.heap.end + page_size;
    };
  }

  fetch_page-more :
      (pg : Pager S) (size : ℕ) (st : Fetch S) (s' : S)
      → pg.map_at_page (st.heap.end + hsize) st.heap.paging ≡ ok (st.heap.end + hsize, s')
      → used_at st.heap st.other ≡ true
      → fetch_page pg size st ≡ ok (more st s')
  unfolding fetch_page more
  fetch_page-more pg size st s' got us = rw (got, ==_refl (st.heap.end + hsize), us) refl

  more-IsFetched :
      (st : Fetch S) (s : S) (n k : ℕ) (st' : Fetch S)
      → st.total + page_size < 2 ^ 64
      → st.heap.mem_used + page_size < 2 ^ 64
      → k ≡ page_size + n
      → IsFetched n (more st s) st'
      → IsFetched k st st'
  unfolding more
  more-IsFetched st s n k st' tot mem e ft = record {
    hdr = ft.hdr;
    first = ft.first;
    end = omega (arith, ft.end, e);
    total = omega (arith, ft.total, e, tot);
    other = ft.other;
    old_end = ft.old_end;
    mem_used = omega (arith, ft.mem_used, e, mem);
  }

  -- With enough fuel the loop ends, and has fetched the pages that are needed.
  fetch-IsFetched :
      (pg : Pager S) (size fuel : ℕ) (st : Fetch S)
      → MapsFrom pg (pages_of st.need) (st.heap.end + hsize) st.heap.paging
      → used_at st.heap st.other ≡ true
      → st.need < fuel
      → st.total + page_size * pages_of st.need < 2 ^ 64
      → st.heap.mem_used + page_size * pages_of st.need < 2 ^ 64
      → (st' : Fetch S) × (fetch pg size fuel st ≡ ok st')
        × IsFetched (page_size * pages_of st.need) st st'
  unfolding fetch more
  fetch-IsFetched pg size zero st all us lt tot mem = absurd (omega (arith, lt))
  fetch-IsFetched pg size (suc fuel) st all us lt tot mem = elim (Bool-cases (st.need == 0)) [
    | inl z ↦
        let nil = pages_of_zero st.need z in
        (
          st,
          rw z refl,
          record {
            hdr = refl;
            first = refl;
            end = omega (arith, nil);
            total = omega (arith, nil);
            other = refl;
            old_end = refl;
            mem_used = omega (arith, nil);
          },
        )
    | inr z ↦
        (let z' : 1 ≤ st.need = ground (arith, z) in
          let (s', (got, others)) =
            subst (λ n. MapsFrom pg n (st.heap.end + hsize) st.heap.paging) (pages_count st.need z')
              all in
          let step = pages_of_step st.need z' in
          let st1 = more st s' in
          let behind : st.heap.end + hsize + page_size ≡ st.heap.end + page_size + hsize =
            omega arith in
          let (st', run, ft) =
            fetch-IsFetched pg size fuel st1
              (subst (λ v. MapsFrom pg (pages_of (st.need - page_size)) v s') behind others) us
              (omega (arith, lt, z')) (omega (arith, step, tot)) (omega (arith, step, mem)) in
          (
            st',
            rw (z, fetch_page-more pg size st s' got us) run,
            more-IsFetched st s' (page_size * pages_of st1.need) (page_size * pages_of st.need) st'
                (omega (arith, step, tot)) (omega (arith, step, mem)) step ft,
          ))
  ]

  fetched-run :
      (pg : Pager S) (size realsize a : ℕ) (h : Heap S) (st' : Fetch S)
      → used_at h a ≡ true
      → fetch pg size
          (2 * add64 size hsize + 1)
          (record { other = a; old_end = h.end; total = 0; need = add64 size hsize; heap = h })
        ≡ ok st'
      → (st'.heap.end % 0x1000 == 0xFF8) ≡ true
      → used_at st'.heap st'.other ≡ true
      → fetch_more pg size realsize a h
        ≡ ok (st'.old_end, write st'.old_end (free_chunk st'.total) st'.heap)
  unfolding fetch_more
  fetched-run pg size realsize a h st' ub run en us' = rw (ub, run, en, us') refl

  -- Where the pages that are needed can be mapped behind the end, one after another, with the end
  -- 8 bytes below a page and a size that keeps clear of the 48-bit and 64-bit limits: when the last chunk is used, the fetched
  -- pages become one free chunk behind it, which is large enough, and the end and the count of used
  -- bytes grow by its size.
  pub fetch_more-Chunks :
      (pg : Pager S) (size : ℕ) (cs : List ChunkHeader) (o : ChunkHeader) (h : Heap S)
      → MapsFrom pg (pages_of (add64 size hsize)) (h.end + hsize) h.paging
      → Chunks h.hdr h.first h.end (cs ++ o ∷ [])
      → o.used ≡ true
      → h.end % page_size ≡ page_size - hsize
      → size + 2 * page_size < 2 ^ 48
      → h.mem_used + size + 2 * page_size < 2 ^ 64
      → let n = page_size * pages_of (add64 size hsize) in
        (h' : Heap S) × (fetch_more pg size (real_size size) (h.first + sizes cs) h
          ≡ ok (h.end, h'))
        × Chunks h'.hdr h'.first h'.end ((cs ++ o ∷ []) ++ free_chunk n ∷ [])
        × IsFit (real_size size) (free_chunk n)
        × (h'.end ≡ h.end + n)
        × (h'.mem_used ≡ h.mem_used + n)
  unfolding fetch_more
  fetch_more-Chunks pg size cs o h all hc us al lt mem =
      let a = h.first + sizes cs in
      let need = add64 size hsize in
      let n = page_size * pages_of need in
      let (e, _, _, _, r) = Chunks-second h.hdr h.first h.end cs (o ∷ []) hc in
      let ub : used_at h a ≡ true = ap (λ x. x.used) e ∙ us in
      let st : Fetch S = record { other = a; old_end = h.end; total = 0; need = need; heap = h } in
      let big : (need ≤ n) × (n ≤ need + page_size) × (page_size ≤ n) =
        pages_of_bounds need (omega arith) in
      let (st', run, ft) =
        fetch-IsFetched pg size (2 * need + 1) st all ub (omega arith) (omega (arith, big, lt))
          (omega (arith, big, mem)) in
      let tot : st'.total ≡ n = omega (arith, ft.total) in
      let h' = write st'.old_end (free_chunk st'.total) st'.heap in
      let en : (st'.heap.end % 0x1000 == 0xFF8) ≡ true = ground (arith, ft.end, al) in
      let us' : used_at st'.heap st'.other ≡ true =
        ap (λ f. (f st'.other).used) ft.hdr ∙ ap (λ x. used_at h x) ft.other ∙ ub in
      (
        h',
        fetched-run pg size (real_size size) a h st' ub run en us'
            ∙ (ap (λ x. ok (x, h')) ft.old_end),
        rw (ft.hdr, ft.first, ft.end, ft.old_end, tot)
            (appended h.hdr h.first h.end n (cs ++ o ∷ []) hc (omega (arith, big))
              (omega (arith, big, lt))),
        record { unused_now = refl; fits = ground (arith, big, lt) },
        ft.end,
        ft.mem_used,
      )

  halts-run :
      (pg : Pager S) (size realsize other : ℕ) (h : Heap S) (st : Fetch S)
      → used_at h other ≡ false
      → fetch pg size (2 * add64 size hsize + 1) (record {
        other = other;
        old_end = h.end;
        total = 0;
        need = add64 size hsize - min (add64 size hsize) (size_at h other);
        heap = h;
      })
        ≡ ok st
      → (st.heap.end % 0x1000 == 0xFF8) ≡ true
      → used_at st.heap st.other ≡ false
      → ltb (size_at st.heap st.other) realsize ≡ true
      → fetch_more pg size realsize other h ≡ halted
  unfolding fetch_more
  halts-run pg size realsize other h st us run en us' small = rw (us, run, en, us', small) refl

  fetch-nothing :
      (pg : Pager S) (size fuel : ℕ) (st : Fetch S)
      → st.need ≡ 0
      → 1 ≤ fuel
      → fetch pg size fuel st ≡ ok st
  unfolding fetch
  fetch-nothing pg size zero st z pos = absurd (omega (arith, pos))
  fetch-nothing pg size (suc fuel) st z pos =
      let zb : (st.need == 0) ≡ true = ground (arith, z) in rw zb refl

  -- With the end 8 bytes below a page: once the search of `malloc` has come to the last chunk, and
  -- that one is free, with room for the header and the block but smaller than the smallest chunk, the
  -- step that fetches pages halts, since it fetches no page and finds the chunk too small.
  pub fetch_more-halts :
      (pg : Pager S) (size other : ℕ) (h : Heap S)
      → used_at h other ≡ false
      → 1 ≤ size
      → size + hsize ≤ size_at h other
      → size_at h other < minsize
      → h.end % page_size ≡ page_size - hsize
      → fetch_more pg size (real_size size) other h ≡ halted
  fetch_more-halts pg size other h us pos fits small al =
      let st : Fetch S = record {
        other = other;
        old_end = h.end;
        total = 0;
        need = add64 size hsize - min (add64 size hsize) (size_at h other);
        heap = h;
      } in
      halts-run pg size (real_size size) other h st us
        (fetch-nothing pg size (2 * add64 size hsize + 1) st (omega (arith, fits)) (omega arith))
        (ground (arith, al)) us (ground (arith, small))
