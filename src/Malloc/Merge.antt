-- ===== src/Malloc/Merge.antt =====
-- The loop of `free` in kernel/mm/malloc.cpp that takes in the free chunks behind the freed one.
use sepples_os.Prelude.{
  ℕ, zero, suc, ◌+◌, ◌≤◌, ◌<◌, ◌≡◌, List, [], ◌∷◌, ◌++◌, true, false, refl, length, arith, ◌^◌, ◌∙◌,
  ==_refl, ltb_of_le, ap, ==_of_ne, subst, lt→ltb,
}
use sepples_os.Malloc.{
  ChunkHeader, Heap, ok, size_at, used_at, merge, update, magic, set_size, magic_at,
}
use sepples_os.Malloc.Chunks.{Chunks, sizes, Chunks-le, Chunks-frame}

abbrev pub AreFree : List ChunkHeader → Type 0
AreFree [] = Unit
AreFree (c ∷ cs) = (c.used ≡ false) × AreFree cs

-- Where the run of free chunks stops
abbrev pub IsStop : List ChunkHeader → Type 0
IsStop [] = Unit
IsStop (c ∷ cs) = c.used ≡ true

pub sizes-append : (cs ds : List ChunkHeader) → sizes (cs ++ ds) ≡ sizes cs + sizes ds
unfolding sizes
sizes-append [] ds = omega arith
sizes-append (c ∷ cs) ds = omega (arith, sizes-append cs ds)

pub length-sizes :
    (hdr : ℕ → ChunkHeader) (a b : ℕ) (cs ds : List ChunkHeader)
    → Chunks hdr a b (cs ++ ds)
    → length cs ≤ sizes cs
unfolding sizes
length-sizes hdr a b [] ds h = omega arith
length-sizes hdr a b (c ∷ cs) ds (_, pos, _, _, r) =
    omega (arith, pos, length-sizes hdr (a + c.size) b cs ds r)

module _ {S : Type 0} where
  -- The loop has changed nothing but the size at `chunk`.
  pub record IsMerged (chunk size : ℕ) (h h' : Heap S) : Type 0 where
    pub hdr : (x : ℕ) → h'.hdr x ≡ update h.hdr chunk (record (h.hdr chunk) { size = size }) x
    pub first : h'.first ≡ h.first
    pub end : h'.end ≡ h.end
    pub mem_used : h'.mem_used ≡ h.mem_used
    pub mem_allocated : h'.mem_allocated ≡ h.mem_allocated
    pub paging : h'.paging ≡ h.paging

  IsMerged-self : (chunk n : ℕ) (h : Heap S) → n ≡ size_at h chunk → IsMerged chunk n h h
  IsMerged-self chunk n h e = record {
    hdr = λ x. ground (arith, e);
    first = refl;
    end = refl;
    mem_used = refl;
    mem_allocated = refl;
    paging = refl;
  }

  pub IsMerged-here :
      (chunk n : ℕ) (h h' : Heap S) (c : ChunkHeader)
      → IsMerged chunk n h h'
      → h.hdr chunk ≡ c
      → h'.hdr chunk ≡ record c { size = n }
  IsMerged-here chunk n h h' c mg e = mg.hdr chunk ∙ rw (==_refl chunk, e) refl

  IsMerged-step :
      (chunk m n : ℕ) (h h' : Heap S)
      → IsMerged chunk n (set_size chunk m h) h'
      → IsMerged chunk n h h'
  IsMerged-step chunk m n h h' mg = record {
    hdr = λ x. mg.hdr x ∙ ground (arith, ==_refl chunk);
    first = mg.first;
    end = mg.end;
    mem_used = mg.mem_used;
    mem_allocated = mg.mem_allocated;
    paging = mg.paging;
  }

  -- The loop takes in the whole run of free chunks behind `chunk`, and stops there.
  pub merge-run :
      (fuel chunk : ℕ) (fs ds : List ChunkHeader) (h : Heap S)
      → 1 ≤ size_at h chunk
      → (h.hdr chunk).magic_value ≡ magic
      → Chunks h.hdr (chunk + size_at h chunk) h.end (fs ++ ds)
      → AreFree fs
      → IsStop ds
      → h.end < 2 ^ 48
      → length fs < fuel
      → (h' : Heap S) × (merge fuel chunk h ≡ ok h')
        × IsMerged chunk (size_at h chunk + sizes fs) h h'
  unfolding merge sizes
  merge-run zero chunk fs ds h pos m r fr st small lt = absurd (omega (arith, lt))
  merge-run (suc fuel) chunk [] [] h pos m r fr st small lt = (
    h,
    rw (ltb_of_le (chunk + size_at h chunk) h.end (omega (arith, r))) refl,
    IsMerged-self chunk (size_at h chunk + 0) h (omega arith),
  )
  merge-run (suc fuel) chunk [] (d ∷ ds) h pos m (e, _, _, _, r) fr st small lt =
      (h, ground (arith, e, st), IsMerged-self chunk (size_at h chunk + 0) h (omega arith))
  merge-run (suc fuel) chunk (f ∷ fs) ds h pos m (e, pos', lt', m', r) (fr, frs) st small lt =
      let h1 = set_size chunk (size_at h chunk + size_at h (chunk + size_at h chunk)) h in
      let s = size_at h chunk in
      let le = Chunks-le h.hdr (chunk + s + f.size) h.end (fs ++ ds) r in
      let tot : size_at h1 chunk ≡ s + f.size =
        ground (arith, ==_refl chunk, ap (λ x. x.size) e, le) in
      let same : (x : ℕ) → chunk + s + f.size ≤ x → x < h.end → h1.hdr x ≡ h.hdr x =
        λ x lo hi. ground (arith, ==_of_ne chunk x) in
      let r1 =
        subst (λ x. Chunks h1.hdr x h.end (fs ++ ds)) (omega (arith, tot))
          (Chunks-frame h.hdr h1.hdr (chunk + s + f.size) h.end (fs ++ ds) r same) in
      let (h', run, mg) =
        merge-run fuel chunk fs ds h1 (omega (arith, tot, pos)) (rw (==_refl chunk) m) r1 frs st
          small (omega (arith, lt)) in
      let go = lt→ltb (chunk + s) h.end (omega (arith, le, pos')) in
      let us : used_at h (chunk + s) ≡ false = ap (λ x. x.used) e ∙ fr in
      let oth : size_at h1 (chunk + s) ≡ f.size =
        ground (arith, ==_of_ne chunk (chunk + s) (omega (arith, pos)), ap (λ x. x.size) e) in
      let mb : magic_at h chunk ≡ true = rw m refl in
      let z1 = ==_of_ne (size_at h1 chunk) 0 (omega (arith, tot, pos)) in
      let z2 = ==_of_ne (size_at h1 (chunk + s)) 0 (omega (arith, oth, pos')) in
      (
        h',
        rw (go, us, mb, z1, z2) run,
        IsMerged-step chunk (size_at h chunk + size_at h (chunk + size_at h chunk))
            (size_at h chunk + (f.size + sizes fs)) h h'
            (subst (λ x. IsMerged chunk x h1 h') (omega (arith, tot)) mg),
      )
