-- ===== src/Malloc/Search.antt =====
-- `malloc` of kernel/mm/malloc.cpp: the search for a chunk, the pages it fetches, and the split.
use sepples_os.Prelude.{zero, suc}
use sepples_os.Malloc.{
  ◌>>◌, ◌>>=◌, ChunkHeader, Pager, Heap, Run, ok, halted, out_of_fuel, check, sub64, add64,
  page_size, minsize, hsize, magic, write, set_size, set_used, free_chunk, size_at, used_at,
  magic_at, ℕ, if◌then◌else◌, Option, suc, ltb, ◌*◌, Bool, true, ◌+◌, ◌/◌, not, false, ◌&&◌, ◌>>=◌,
  ◌==◌, ◌-◌, ◌||◌, leb, ◌%◌, ◌^◌, none, some, min,
}

-- The locals of the loop that fetches pages: `other`, `oldEndOfChunks`, `totalAlloced` and
-- `needToAlloc`, with the heap.
pub record Fetch (S : Type 0) : Type 0 where
  pub other : ℕ
  pub old_end : ℕ
  pub total : ℕ
  pub need : ℕ
  pub heap : Heap S

-- diff / PAGESIZE + (bool) (diff % PAGESIZE)
abbrev pub pages_of : ℕ → ℕ
pages_of n = n / page_size + (if n % page_size == 0 then 0 else 1)

abbrev pub wrap_chunk : ℕ → ChunkHeader
wrap_chunk n = record { size = n; magic_value = magic; used = true; not_ours = true }

-- realsize
abbrev pub real_size : ℕ → ℕ
real_size size = if ltb (add64 hsize size) minsize then minsize else add64 hsize size

module _ {S : Type 0} where
  -- The pages from the end on are not ours: a used chunk wraps the `n` of them.
  abbrev pub wrap : ℕ → S → ℕ → Fetch S → Fetch S
  wrap n s size st =
      let h = st.heap in
      let len = (page_size * n + hsize) % 2 ^ 48 in
      record {
        other = h.end;
        old_end = h.end + len;
        total = sub64 0 hsize;
        need = add64 size hsize;
        heap = record (write h.end (wrap_chunk len) h) { end = h.end + page_size * n; paging = s };
      }

  -- One page more at the end
  abbrev pub grow : Fetch S → Fetch S
  grow st =
      let h = st.heap in
      let h' =
        if used_at h st.other then h else set_size st.other (size_at h st.other + page_size) h in
      record st {
        total = add64 st.total page_size;
        need = st.need - page_size;
        heap = record h' { mem_used = add64 h.mem_used page_size; end = h.end + page_size };
      }

  unfoldable pub fetch_page : Pager S → ℕ → Fetch S → Run (Fetch S)
  fetch_page pg size st =
      let h = st.heap in
      pg.map_at_page (h.end + hsize) h.paging >>= λ (v, s).
      if v == h.end + hsize
      then ok (grow (record st { heap = record h { paging = s } }))
      else (pg.get_unmapped s >>= λ (u, s'). pg.map_at_page u s' >>= λ (_, s2).
          ok (grow (wrap (pages_of (sub64 (sub64 u h.end) hsize)) s2 size st)))

  -- while (needToAlloc > 0)
  unfoldable pub fetch : Pager S → ℕ → ℕ → Fetch S → Run (Fetch S)
  unfolding fetch_page
  fetch pg size zero st = out_of_fuel
  fetch pg size (suc fuel) st =
      let rest = fetch pg size fuel in
      if st.need == 0 then ok st else fetch_page pg size st >>= rest

  -- The end of the chunks is reached; `other` is the last chunk.
  unfoldable pub fetch_more : Pager S → ℕ → ℕ → ℕ → Heap S → Run (ℕ × Heap S)
  unfolding fetch
  fetch_more pg size realsize other h = do
    let need = add64 size hsize
    st ← fetch pg size (2 * need + 1) (record {
      other = other;
      old_end = h.end;
      total = 0;
      need = (if used_at h other then need else need - min need (size_at h other));
      heap = h;
    })
    check (st.heap.end % 0x1000 == 0xFF8)
    if used_at st.heap st.other
        then ok (st.old_end, write st.old_end (free_chunk st.total) st.heap)
        else do check (not (ltb (size_at st.heap st.other) realsize)); ok (st.other, st.heap)

  -- A chunk that wraps pages of others is taken over when its page is the next unmapped one.
  unfoldable pub reclaim : Pager S → ℕ → ℕ → Heap S → Run (ℕ × Heap S)
  reclaim pg chunk next h =
      if not ((h.hdr chunk).not_ours && (chunk + hsize == next)) then ok (next, h) else do
        check (size_at h chunk == page_size + hsize)
        (v, s) ← pg.map_at_page next h.paging
        let h1 =
            if v == 0
            then h
            else write chunk (record (h.hdr chunk) { used = false; not_ours = false }) h
        (next', s') ← pg.get_unmapped s
        ok (next', record h1 { paging = s' })

  -- other && !other->used && !chunk->used && chunk < endOfChunks
  abbrev pub joins : Heap S → Option ℕ → ℕ → Bool
  joins h none chunk = false
  joins h (some other) chunk = not (used_at h other) && (not (used_at h chunk) && ltb chunk h.end)

  -- The search goes on at `other`, to which the chunk is added.
  abbrev pub join :
      (Option ℕ → ℕ → ℕ → Heap S → Run (ℕ × Heap S)) → Option ℕ → ℕ → ℕ → Heap S → Run (ℕ × Heap S)
  join go none chunk next h = halted
  join go (some o) chunk next h = go none o next (set_size o (size_at h o + size_at h chunk) h)

  -- while (chunk->used || chunk->size < realsize)
  unfoldable pub search_chunk : Pager S → ℕ → ℕ → ℕ → Option ℕ → ℕ → ℕ → Heap S → Run (ℕ × Heap S)
  unfolding fetch_more reclaim
  search_chunk pg size realsize zero other chunk next h = out_of_fuel
  search_chunk pg size realsize (suc fuel) other chunk next h =
      let rest = search_chunk pg size realsize fuel in
      if not (used_at h chunk || ltb (size_at h chunk) realsize) then ok (chunk, h) else do
        check (magic_at h chunk)
        check (not (size_at h chunk == 0))
        if joins h other chunk then join rest other chunk next h else do
          (next', h') ← reclaim pg chunk next h
          let chunk' = chunk + size_at h' chunk
          if chunk' == h'.end
              then fetch_more pg size realsize chunk h'
              else if ltb h'.end chunk'
              then halted
              else rest (some chunk) chunk' next' h'

  -- The chunk is used; what it has more than `realsize` becomes a chunk behind it, if that is not
  -- too small.
  unfoldable pub split : ℕ → ℕ → Heap S → Heap S
  split realsize chunk h =
      let h' = set_used chunk true h in
      if leb minsize (sub64 (size_at h' chunk) realsize)
      then set_size chunk realsize
          (write (chunk + realsize) (free_chunk (sub64 (size_at h' chunk) realsize)) h')
      else h'

  -- `malloc`; 0 is the null pointer.
  unfoldable pub malloc : Pager S → ℕ → ℕ → Heap S → Run (ℕ × Heap S)
  unfolding search_chunk split
  malloc pg fuel size h = if not h.ready then ok (0, h) else if size == 0 then ok (0, h) else do
    (next, s) ← pg.get_unmapped h.paging
    (chunk, h1) ←
        search_chunk pg size (real_size size) fuel none h.first next
          (record h { ready = false; paging = s })
    let h2 = split (real_size size) chunk h1
    ok (
      chunk + hsize,
      record h2 {
        mem_allocated = add64 h2.mem_allocated (sub64 (size_at h2 chunk) hsize);
        ready = true;
      },
    )
