-- ===== src/Malloc/Alloc.antt =====
-- What `malloc` of kernel/mm/malloc.cpp does when a chunk in the list is large enough.
use sepples_os.Prelude.{
  refl, subst, sym, ℕ, zero, suc, ◌+◌, ◌≤◌, ◌<◌, ◌≡◌, List, [], ◌∷◌, ◌++◌, Option, none, some, Bool,
  true, false, not, ◌||◌, ◌&&◌, ltb, ltb_of_le, ==_refl, ==_of_ne, ◌∙◌, ◌^◌, if◌then◌else◌, ◌-◌,
  le→leb, ◌⊎◌, ap, le-or-lt, leb_of_lt, inr, inl, Bool-cases,
}
use sepples_os.Malloc.{
  ChunkHeader, Pager, Heap, ok, hsize, minsize, used_at, free_chunk, Option, ℕ, Bool, List, ◌≡◌,
  false, some, ◌∷◌, not, ltb, true, suc, magic, leb, sub64, update, size_at, set_used, add64,
}
use sepples_os.Malloc.Chunks.{Chunks, sizes, Chunks-second, Chunks-lt, Chunks-replace}
use sepples_os.Malloc.Search.{search_chunk, split, malloc, real_size, joins}
use sepples_os.Prelude.{◌++◌, ◌≤◌, ◌||◌, length, ◌<◌, ◌+◌, ◌&&◌, arith}

-- Chunks that the search passes over, the one before them free or not: each is used or too small,
-- none wraps pages of others, and no two free ones follow each other.
abbrev pub IsSkipped : Bool → ℕ → List ChunkHeader → Type 0
IsSkipped prev n [] = Unit
IsSkipped prev n (c ∷ cs) =
    (c.used || ltb c.size n ≡ true)
    × (c.not_ours ≡ false)
    × (prev && not c.used ≡ false)
    × IsSkipped (not c.used) n cs

-- A chunk that the search takes
pub record IsFit (n : ℕ) (c : ChunkHeader) : Type 0 where
  pub unused_now : c.used ≡ false
  pub fits : n ≤ c.size

module _ {S : Type 0} where
  abbrev pub is_free : Heap S → Option ℕ → Bool
  is_free h none = false
  is_free h (some o) = not (used_at h o)

  pub joins-not :
      (h : Heap S) (other : Option ℕ) (a : ℕ)
      → is_free h other && not (used_at h a) ≡ false
      → joins h other a ≡ false
  joins-not h none a e = refl
  joins-not h (some o) a e = ground (arith, e)

  -- The search stops at the first chunk that fits.
  pub search_chunk-fits :
      (pg : Pager S) (size n fuel : ℕ) (other : Option ℕ) (cs ds : List ChunkHeader)
      (c : ChunkHeader) (a next : ℕ) (h : Heap S)
      → Chunks h.hdr a h.end (cs ++ c ∷ ds)
      → IsSkipped (is_free h other) n cs
      → IsFit n c
      → length cs < fuel
      → search_chunk pg size n fuel other a next h ≡ ok (a + sizes cs, h)
  unfolding search_chunk sizes
  search_chunk-fits pg size n zero other cs ds c a next h hc sk ft lt = absurd (omega (arith, lt))
  search_chunk-fits pg size n (suc fuel) other [] ds c a next h (e, pos, _, m, r) sk ft lt =
      ground (arith, ltb_of_le c.size n ft.fits, ft.unused_now, e)
  search_chunk-fits pg size n (suc fuel) other (d ∷ cs) ds c a next h (e, pos, _, m, r)
        (sk, ours, jn, sks) ft lt =
      let rest = Chunks-lt h.hdr (a + d.size) h.end cs ds c r in
      let ih =
        search_chunk-fits pg size n fuel (some a) cs ds c (a + d.size) next h r
          (subst (λ x. IsSkipped (not x.used) n cs) (sym e) sks) ft (omega (arith, lt)) in
      let jn' =
        joins-not h other a (subst (λ x. is_free h other && not x.used ≡ false) (sym e) jn) in
      let step : search_chunk pg size n (suc fuel) other a next h
          ≡ search_chunk pg size n fuel (some a) (a + d.size) next h =
        ground (
          arith,
          e,
          sk,
          m,
          ours,
          jn',
          ==_refl magic,
          ==_of_ne d.size 0,
          ==_of_ne (a + d.size) h.end,
          ltb_of_le h.end (a + d.size),
        ) in
      step ∙ ih ∙ ap (λ x. ok (x, h)) (omega arith)

-- What the search makes of the chunk it takes
unfoldable pub carve : ℕ → ChunkHeader → List ChunkHeader
carve n c =
    if leb minsize (c.size - n)
    then record c { size = n; used = true } ∷ free_chunk (c.size - n) ∷ []
    else record c { used = true } ∷ []

pub sub64_of_le : (a b : ℕ) → b ≤ a → a < 2 ^ 64 → sub64 a b ≡ a - b
sub64_of_le a b le lt = omega arith

pub carve_one :
    (n : ℕ) (c : ChunkHeader) → c.size < minsize + n → carve n c ≡ record c { used = true } ∷ []
unfolding carve
carve_one n c one = rw (leb_of_lt minsize (c.size - n) (omega arith)) refl

pub carve_two :
    (n : ℕ) (c : ChunkHeader)
    → minsize + n ≤ c.size
    → carve n c ≡ record c { size = n; used = true } ∷ free_chunk (c.size - n) ∷ []
unfolding carve
carve_two n c two = rw (le→leb minsize (c.size - n) (omega arith)) refl

module _ {S : Type 0} where
  -- The headers after the split, when the rest is large enough and when it is not
  split_two :
      (h : Heap S) (a n x : ℕ) (c : ChunkHeader)
      → h.hdr a ≡ c
      → 1 ≤ n
      → minsize + n ≤ c.size
      → c.size < 2 ^ 48
      → (split n a h).hdr x
        ≡ update
            (update h.hdr (a + n) (free_chunk (c.size - n)))
            a
            (record c { size = n; used = true })
            x
  unfolding split
  split_two h a n x c e pos two lt = ground (
    arith,
    e,
    ==_refl a,
    sub64_of_le c.size n (omega arith),
    le→leb minsize (c.size - n) (omega arith),
    ==_of_ne (a + n) a (omega arith),
  )

  split_one :
      (h : Heap S) (a n x : ℕ) (c : ChunkHeader)
      → h.hdr a ≡ c
      → n ≤ c.size
      → c.size < minsize + n
      → c.size < 2 ^ 48
      → (split n a h).hdr x ≡ update h.hdr a (record c { used = true }) x
  unfolding split
  split_one h a n x c e fits one lt = ground (
    arith,
    e,
    ==_refl a,
    sub64_of_le c.size n (omega arith),
    leb_of_lt minsize (c.size - n) (omega arith),
  )

  -- Only headers of the chunk taken are written.
  split-frame :
      (h : Heap S) (a n x : ℕ) (c : ChunkHeader)
      → h.hdr a ≡ c
      → 1 ≤ n
      → IsFit n c
      → 1 ≤ c.size
      → c.size < 2 ^ 48
      → (x < a) ⊎ (a + c.size ≤ x)
      → (split n a h).hdr x ≡ h.hdr x
  split-frame h a n x c e pos ft pos' lt out = elim (le-or-lt (minsize + n) c.size) [
    | inr one ↦ split_one h a n x c e ft.fits one lt ∙ ground (arith, out, ==_of_ne a x)
    | inl two ↦
        split_two h a n x c e pos two lt ∙ ground (arith, out, ==_of_ne a x, ==_of_ne (a + n) x)
  ]

  split-Chunks :
      (h : Heap S) (a n : ℕ) (c : ChunkHeader)
      → h.hdr a ≡ c
      → 1 ≤ n
      → IsFit n c
      → c.size < 2 ^ 48
      → c.magic_value ≡ magic
      → Chunks (split n a h).hdr a (a + c.size) (carve n c)
  split-Chunks h a n c e pos ft lt m = elim (le-or-lt (minsize + n) c.size) [
    | inr one ↦
        (let at = split_one h a n a c e ft.fits one lt ∙ rw (==_refl a) refl in
          subst (Chunks (split n a h).hdr a (a + c.size)) (sym (carve_one n c one))
            (at, omega (arith, ft.fits), lt, m, refl))
    | inl two ↦
        (let at = split_two h a n a c e pos two lt ∙ rw (==_refl a) refl in
          let behind =
            split_two h a n (a + n) c e pos two lt
            ∙ rw (==_of_ne a (a + n) (omega (arith, pos)), ==_refl (a + n)) refl in
          subst (Chunks (split n a h).hdr a (a + c.size)) (sym (carve_two n c two))
            (at, pos, omega arith, m, (behind, omega arith, omega arith, refl, omega arith)))
  ]

  split-rest :
      (h : Heap S) (a n : ℕ)
      → ((split n a h).first ≡ h.first)
        × ((split n a h).end ≡ h.end)
        × ((split n a h).mem_used ≡ h.mem_used)
        × ((split n a h).mem_allocated ≡ h.mem_allocated)
        × ((split n a h).paging ≡ h.paging)
  unfolding split
  split-rest h a n = elim (Bool-cases (leb minsize (sub64 (size_at (set_used a true h) a) n))) [
    | inl e ↦ (rw e refl, rw e refl, rw e refl, rw e refl, rw e refl)
    | inr e ↦ (rw e refl, rw e refl, rw e refl, rw e refl, rw e refl)
  ]

  -- On a heap that is ready, for a size other than 0 and with more fuel than there are chunks
  -- before: if the list of chunks has one that is free and large enough, and those before it are
  -- each used or too small, none wraps pages of others and no two free ones follow each other, then
  -- `malloc` takes that chunk. It returns the address behind its header, the list is as before but
  -- for the chunk, which is carved, and the count of allocated bytes grows by what the taken chunk
  -- holds; the heap is ready again.
  pub malloc-fits :
      (pg : Pager S) (size fuel next : ℕ) (s : S) (cs ds : List ChunkHeader) (c : ChunkHeader)
      (h : Heap S)
      → h.ready ≡ true
      → 1 ≤ size
      → pg.get_unmapped h.paging ≡ ok (next, s)
      → Chunks h.hdr h.first h.end (cs ++ c ∷ ds)
      → IsSkipped false (real_size size) cs
      → IsFit (real_size size) c
      → length cs < fuel
      → (h' : Heap S) × (malloc pg fuel size h ≡ ok (h.first + sizes cs + hsize, h'))
        × Chunks h'.hdr h'.first h'.end (cs ++ (carve (real_size size) c ++ ds))
        × (h'.first ≡ h.first)
        × (h'.end ≡ h.end)
        × (h'.mem_used ≡ h.mem_used)
        × (h'.mem_allocated ≡ add64 h.mem_allocated (sub64 (size_at h' (h.first + sizes cs)) hsize))
        × (h'.ready ≡ true)
  unfolding malloc
  malloc-fits pg size fuel next s cs ds c h rdy pos gu hc sk ft lt =
      let n = real_size size in
      let a = h.first + sizes cs in
      let h1 = record h { ready = false; paging = s } in
      let found = search_chunk-fits pg size n fuel none cs ds c h.first next h1 hc sk ft lt in
      let h2 = split n a h1 in
      let (e, pos', lt', m, _) = Chunks-second h.hdr h.first h.end cs (c ∷ ds) hc in
      let (f, en, mu, ma, pa) = split-rest h1 a n in
      let npos : 1 ≤ n = ground arith in
      let list =
        Chunks-replace h.hdr h2.hdr h.first h.end cs (carve n c) ds c hc
          (split-Chunks h1 a n c e npos ft lt' m)
          (λ x. split-frame h1 a n x c e npos ft pos' lt') in
      (
        record h2 {
          mem_allocated = add64 h2.mem_allocated (sub64 (size_at h2 a) hsize);
          ready = true;
        },
        rw (rdy, ==_of_ne size 0 (omega (arith, pos)), gu, found) refl,
        subst (λ x. Chunks h2.hdr x h2.end (cs ++ (carve n c ++ ds))) (sym f)
            (subst (λ x. Chunks h2.hdr h.first x (cs ++ (carve n c ++ ds))) (sym en) list),
        f,
        en,
        mu,
        ap (λ x. add64 x (sub64 (size_at h2 a) hsize)) ma,
        refl,
      )
