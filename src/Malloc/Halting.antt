-- ===== src/Malloc/Halting.antt =====
-- A heap on which `malloc` of kernel/mm/malloc.cpp halts.
use sepples_os.Prelude.{
  refl, subst, sym, ℕ, zero, suc, ◌+◌, ◌≤◌, ◌<◌, ◌≡◌, List, [], ◌∷◌, ◌++◌, Option, none, some, true,
  false, not, ◌&&◌, ltb_of_le, ==_refl, ==_of_ne, ◌∙◌, ◌-◌, ap, length, arith, ◌==◌, ◌%◌,
}
use sepples_os.Malloc.{ChunkHeader, Pager, Heap, ok, halted, hsize, minsize, page_size, magic}
use sepples_os.Malloc.Chunks.{Chunks, Chunks-lt}
use sepples_os.Malloc.Search.{search_chunk, malloc, real_size, fetch_more}
use sepples_os.Malloc.Alloc.{IsSkipped, is_free, joins-not}
use sepples_os.Malloc.Pages.{fetch_more-halts}

-- A last chunk that holds the block and its header, but is smaller than the smallest chunk.
pub record IsTight (size : ℕ) (c : ChunkHeader) : Type 0 where
  pub unused_now : c.used ≡ false
  pub some_bytes : 1 ≤ size
  pub holds : size + hsize ≤ c.size
  pub too_small : c.size < minsize

module _ {S : Type 0} where
  search_chunk-halts :
      (pg : Pager S) (size fuel : ℕ) (other : Option ℕ) (cs : List ChunkHeader) (c : ChunkHeader)
      (a next : ℕ) (h : Heap S)
      → Chunks h.hdr a h.end (cs ++ c ∷ [])
      → IsSkipped (is_free h other) (real_size size) (cs ++ c ∷ [])
      → IsTight size c
      → h.end % page_size ≡ page_size - hsize
      → length cs < fuel
      → search_chunk pg size (real_size size) fuel other a next h ≡ halted
  unfolding search_chunk
  search_chunk-halts pg size zero other cs c a next h hc sk ti al lt = absurd (omega (arith, lt))
  search_chunk-halts pg size (suc fuel) other [] c a next h (e, pos, _, m, r) (sk, ours, jn, _) ti
        al lt =
      let jn' =
        joins-not h other a (subst (λ x. is_free h other && not x.used ≡ false) (sym e) jn) in
      let step : search_chunk pg size (real_size size) (suc fuel) other a next h
          ≡ fetch_more pg size (real_size size) a h =
        ground (arith, e, sk, m, ours, jn', ==_refl magic, ==_of_ne c.size 0, r, ==_refl h.end) in
      step
      ∙ fetch_more-halts pg size a h (ap (λ x. x.used) e ∙ ti.unused_now) ti.some_bytes
          (subst (λ x. size + hsize ≤ x.size) (sym e) ti.holds)
          (subst (λ x. x.size < minsize) (sym e) ti.too_small) al
  search_chunk-halts pg size (suc fuel) other (d ∷ cs) c a next h (e, pos, _, m, r)
        (sk, ours, jn, sks) ti al lt =
      let rest = Chunks-lt h.hdr (a + d.size) h.end cs [] c r in
      let ih =
        search_chunk-halts pg size fuel (some a) cs c (a + d.size) next h r
          (subst (λ x. IsSkipped (not x.used) (real_size size) (cs ++ c ∷ [])) (sym e) sks) ti al
          (omega (arith, lt)) in
      let jn' =
        joins-not h other a (subst (λ x. is_free h other && not x.used ≡ false) (sym e) jn) in
      let step : search_chunk pg size (real_size size) (suc fuel) other a next h
          ≡ search_chunk pg size (real_size size) fuel (some a) (a + d.size) next h =
        ground (
          arith,
          e,
          sk,
          m,
          ours,
          jn',
          ==_refl magic,
          ==_of_ne d.size 0,
          ==_of_ne (a + d.size) h.end,
          ltb_of_le h.end (a + d.size),
        ) in
      step ∙ ih

  -- On a heap that is ready, with the end of the chunks 8 bytes below a page, and when the search
  -- passes over every chunk without joining two: `malloc` halts the kernel if the last chunk is free,
  -- with room for the header and the block but smaller than the smallest chunk, since no page is
  -- fetched and the chunk is found to be too small.
  pub malloc-halts :
      (pg : Pager S) (size fuel next : ℕ) (s : S) (cs : List ChunkHeader) (c : ChunkHeader)
      (h : Heap S)
      → h.ready ≡ true
      → pg.get_unmapped h.paging ≡ ok (next, s)
      → Chunks h.hdr h.first h.end (cs ++ c ∷ [])
      → IsSkipped false (real_size size) (cs ++ c ∷ [])
      → IsTight size c
      → h.end % page_size ≡ page_size - hsize
      → length cs < fuel
      → malloc pg fuel size h ≡ halted
  unfolding malloc
  malloc-halts pg size fuel next s cs c h rdy gu hc sk ti al lt =
      let searching = record h { ready = false; paging = s } in
      let stops = search_chunk-halts pg size fuel none cs c h.first next searching hc sk ti al lt in
      let nz : (size == 0) ≡ false = ==_of_ne size 0 (λ z. omega (arith, z, ti.some_bytes)) in
      rw (rdy, nz, gu, stops) refl
