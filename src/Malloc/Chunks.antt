-- ===== src/Malloc/Chunks.antt =====
-- The list of chunks that the headers of kernel/mm/malloc.cpp describe.
use sepples_os.Prelude.{
  ℕ, ◌+◌, ◌≤◌, ◌<◌, ◌≡◌, List, [], ◌∷◌, ◌++◌, arith, ◌^◌, subst, ◌⊎◌, inl, inr,
}
use sepples_os.Malloc.{ChunkHeader, magic}

-- From `a` on the headers are those of the list, each behind the chunk before it, up to `b`. Every
-- chunk has a size other than 0 that its field holds, and the magic value.
abbrev pub Chunks : (ℕ → ChunkHeader) → ℕ → ℕ → List ChunkHeader → Type 0
Chunks hdr a b [] = a ≡ b
Chunks hdr a b (c ∷ cs) =
    (hdr a ≡ c)
    × (1 ≤ c.size)
    × (c.size < 2 ^ 48)
    × (c.magic_value ≡ magic)
    × Chunks hdr (a + c.size) b cs

unfoldable pub sizes : List ChunkHeader → ℕ
sizes [] = 0
sizes (c ∷ cs) = c.size + sizes cs

pub Chunks-end :
    (hdr : ℕ → ChunkHeader) (a b : ℕ) (cs : List ChunkHeader) → Chunks hdr a b cs → a + sizes cs ≡ b
unfolding sizes
Chunks-end hdr a b [] h = omega arith
Chunks-end hdr a b (c ∷ cs) (_, _, _, _, h) = omega (arith, Chunks-end hdr (a + c.size) b cs h)

pub Chunks-le :
    (hdr : ℕ → ChunkHeader) (a b : ℕ) (cs : List ChunkHeader) → Chunks hdr a b cs → a ≤ b
Chunks-le hdr a b cs h = omega (arith, Chunks-end hdr a b cs h)

-- A change of headers outside the range does not touch the list.
pub Chunks-frame :
    (hdr hdr' : ℕ → ChunkHeader) (a b : ℕ) (cs : List ChunkHeader)
    → Chunks hdr a b cs
    → ((x : ℕ) → a ≤ x → x < b → hdr' x ≡ hdr x)
    → Chunks hdr' a b cs
Chunks-frame hdr hdr' a b [] h same = h
Chunks-frame hdr hdr' a b (c ∷ cs) (e, pos, lt, m, h) same =
    let le = Chunks-le hdr (a + c.size) b cs h in
    (
      ground (arith, same a),
      pos,
      lt,
      m,
      Chunks-frame hdr hdr' (a + c.size) b cs h (λ x lo hi. same x (omega arith) hi),
    )

pub Chunks-append :
    (hdr : ℕ → ChunkHeader) (a m b : ℕ) (cs ds : List ChunkHeader)
    → Chunks hdr a m cs
    → Chunks hdr m b ds
    → Chunks hdr a b (cs ++ ds)
Chunks-append hdr a m b [] ds e h = rw e h
Chunks-append hdr a m b (c ∷ cs) ds (e, pos, lt, g, r) h =
    (e, pos, lt, g, Chunks-append hdr (a + c.size) m b cs ds r h)

-- The list is read in two parts.
pub Chunks-first :
    (hdr : ℕ → ChunkHeader) (a b : ℕ) (cs ds : List ChunkHeader)
    → Chunks hdr a b (cs ++ ds)
    → Chunks hdr a (a + sizes cs) cs
unfolding sizes
Chunks-first hdr a b [] ds h = omega arith
Chunks-first hdr a b (c ∷ cs) ds (e, pos, lt, g, h) =
    let r = Chunks-first hdr (a + c.size) b cs ds h in
    (e, pos, lt, g, subst (λ x. Chunks hdr (a + c.size) x cs) (omega arith) r)

pub Chunks-second :
    (hdr : ℕ → ChunkHeader) (a b : ℕ) (cs ds : List ChunkHeader)
    → Chunks hdr a b (cs ++ ds)
    → Chunks hdr (a + sizes cs) b ds
unfolding sizes
Chunks-second hdr a b [] ds h = subst (λ x. Chunks hdr x b ds) (omega arith) h
Chunks-second hdr a b (c ∷ cs) ds (e, pos, lt, g, h) =
    subst (λ x. Chunks hdr x b ds) (omega arith) (Chunks-second hdr (a + c.size) b cs ds h)

-- A list that is not empty ends above its first chunk.
pub Chunks-lt :
    (hdr : ℕ → ChunkHeader) (a b : ℕ) (cs ds : List ChunkHeader) (c : ChunkHeader)
    → Chunks hdr a b (cs ++ c ∷ ds)
    → a < b
Chunks-lt hdr a b [] ds c (_, pos, _, _, r) = omega (arith, Chunks-le hdr (a + c.size) b ds r)
Chunks-lt hdr a b (d ∷ cs) ds c (_, pos, _, _, r) =
    omega (arith, Chunks-lt hdr (a + d.size) b cs ds c r)

-- The part for one chunk of the list is replaced.
pub Chunks-replace :
    (hdr hdr' : ℕ → ChunkHeader) (a b : ℕ) (cs new ds : List ChunkHeader) (c : ChunkHeader)
    → Chunks hdr a b (cs ++ c ∷ ds)
    → Chunks hdr' (a + sizes cs) (a + sizes cs + c.size) new
    → ((x : ℕ) → (x < a + sizes cs) ⊎ (a + sizes cs + c.size ≤ x) → hdr' x ≡ hdr x)
    → Chunks hdr' a b (cs ++ (new ++ ds))
Chunks-replace hdr hdr' a b cs new ds c h mid same =
    let m = a + sizes cs in
    let (_, _, _, _, after) = Chunks-second hdr a b cs (c ∷ ds) h in
    let front =
      Chunks-frame hdr hdr' a m cs (Chunks-first hdr a b cs (c ∷ ds) h)
        (λ x _ lt. same x (inl lt)) in
    let back = Chunks-frame hdr hdr' (m + c.size) b ds after (λ x le _. same x (inr le)) in
    Chunks-append hdr' a m b cs (new ++ ds) front
      (Chunks-append hdr' m (m + c.size) b new ds mid back)
