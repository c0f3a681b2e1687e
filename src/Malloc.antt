-- ===== src/Malloc.antt =====
-- The kernel heap of kernel/mm/malloc.cpp. The state holds the chunk headers, by address; the bytes
-- that a chunk holds for its user are not part of it, so `memcpy` of them does nothing here.
pub mod Chunks
pub mod Search
pub mod Merge
pub mod Free
pub mod RoundTrip
pub mod Pages
pub mod Halting
pub mod Alloc
pub mod Checks
use sepples_os.Prelude.{
  ℕ, zero, suc, ◌+◌, ◌-◌, ◌*◌, ◌/◌, ◌%◌, ◌^◌, ◌≡◌, Bool, true, false, not, ◌&&◌, ◌||◌, Option, none,
  some, List, [], ◌∷◌, ltb, leb, ◌==◌, if◌then◌else◌, update, min,
}

abbrev pub page_size : ℕ
page_size = 0x1000

abbrev pub minsize : ℕ
minsize = 0x20

abbrev pub magic : ℕ
magic = 0x2B4F

-- sizeof(ChunkHeader)
abbrev pub hsize : ℕ
hsize = 8

pub record ChunkHeader : Type 0 where
  pub size : ℕ
  pub magic_value : ℕ
  pub used : Bool
  pub not_ours : Bool

-- `halted` is `halt` or `fatalError`.
pub data Run {ℓ} (A : Type ℓ) : Type ℓ where
  ok : A → Run A
  halted : Run A
  out_of_fuel : Run A

infixl 5 ◌>>=◌
abbrev pub ◌>>=◌ {ℓ κ} : {A : Type ℓ} {B : Type κ} → Run A → (A → Run B) → Run B
ok a >>= f = f a
halted >>= f = halted
out_of_fuel >>= f = out_of_fuel

infixl 5 ◌>>◌
abbrev pub ◌>>◌ {ℓ} : {B : Type ℓ} → Run (Unit {0}) → Run B → Run B
m >> k = m >>= λ _. k

-- What malloc uses of kernel/mm/paging.cpp, on a state of its own.
pub record Pager (S : Type 0) : Type 0 where
  pub map_at_page : ℕ → S → Run (ℕ × S)
  pub unmap_at_page : ℕ → S → S
  pub get_unmapped : S → Run (ℕ × S)

pub record Heap (S : Type 0) : Type 0 where
  pub hdr : ℕ → ChunkHeader
  pub first : ℕ
  pub end : ℕ
  pub mem_used : ℕ
  pub mem_allocated : ℕ
  pub ready : Bool
  pub paging : S

-- A check that halts when it fails.
abbrev pub check : Bool → Run (Unit {0})
check true = ok tt
check false = halted

abbrev pub sub64 : ℕ → ℕ → ℕ
sub64 a b = (a + 2 ^ 64 - b) % 2 ^ 64

abbrev pub add64 : ℕ → ℕ → ℕ
add64 a b = (a + b) % 2 ^ 64

abbrev pub free_chunk : ℕ → ChunkHeader
free_chunk n = record { size = n % 2 ^ 48; magic_value = magic; used = false; not_ours = false }

module _ {S : Type 0} where
  abbrev pub write : ℕ → ChunkHeader → Heap S → Heap S
  write a c h = record h { hdr = update h.hdr a c }

  -- The field holds 48 bits.
  abbrev pub set_size : ℕ → ℕ → Heap S → Heap S
  set_size a n h = write a (record (h.hdr a) { size = n % 2 ^ 48 }) h

  abbrev pub set_used : ℕ → Bool → Heap S → Heap S
  set_used a b h = write a (record (h.hdr a) { used = b }) h

  abbrev pub size_at : Heap S → ℕ → ℕ
  size_at h a = (h.hdr a).size

  abbrev pub used_at : Heap S → ℕ → Bool
  used_at h a = (h.hdr a).used

  abbrev pub magic_at : Heap S → ℕ → Bool
  magic_at h a = (h.hdr a).magic_value == magic

  -- `init`, once `mapPage` has returned
  abbrev pub init_at : ℕ → S → Heap S → Heap S
  init_at page s h = write page (free_chunk (page_size - hsize)) (record h {
    first = page;
    end = page + page_size - hsize;
    mem_used = add64 h.mem_used page_size;
    ready = true;
    paging = s;
  })

  unfoldable pub init : Pager S → Heap S → Run (Heap S)
  init pg h = pg.map_at_page 0 h.paging >>= λ (page, s). ok (init_at page s h)

  -- The loop of `free` that merges `chunk` with the free chunks behind it.
  unfoldable pub merge : ℕ → ℕ → Heap S → Run (Heap S)
  merge zero chunk h = out_of_fuel
  merge (suc fuel) chunk h =
      let other = chunk + size_at h chunk in
      let h' = set_size chunk (size_at h chunk + size_at h other) h in
      let rest = merge fuel chunk h' in
      if not (ltb other h.end && not (used_at h other)) then ok h else do
        check (magic_at h chunk)
        check (not (size_at h' chunk == 0))
        check (not (size_at h' other == 0))
        rest

  -- `for (i = …; i < nPages; ++i) Paging::unmapPage(endOfChunks + sizeof(ChunkHeader) + PAGESIZE*i)`
  unfoldable pub unmap_pages : Pager S → ℕ → ℕ → S → S
  unmap_pages pg zero addr s = s
  unmap_pages pg (suc n) addr s = unmap_pages pg n (addr + page_size) (pg.unmap_at_page addr s)

  -- The pages at the end that a last, free chunk holds are given back.
  unfoldable pub release : Pager S → ℕ → Heap S → Heap S
  unfolding unmap_pages
  release pg chunk h =
      let n = size_at h chunk / page_size in
      if (chunk + size_at h chunk == h.end) && leb page_size (size_at h chunk)
      then record (set_size chunk (size_at h chunk - page_size * n) h) {
        end = h.end - page_size * n;
        mem_used = sub64 h.mem_used (page_size * n);
        paging = unmap_pages pg n (h.end - page_size * n + hsize) h.paging;
      }
      else h

  -- The chunk is marked unused and taken off the count.
  abbrev pub unused : ℕ → Heap S → Heap S
  unused chunk h = record (set_used chunk false (record h { ready = false })) {
    mem_allocated = sub64 h.mem_allocated (sub64 (size_at h chunk) hsize);
  }

  -- `free`, from the chunk's checks on; the fuel covers one round for each byte up to the end.
  unfoldable pub free_chunk_at : Pager S → ℕ → Heap S → Run (Heap S)
  unfolding merge release
  free_chunk_at pg chunk h = do
    check (magic_at h chunk)
    check (used_at h chunk)
    h' ← merge (suc h.end) chunk (unused chunk h)
    ok (record (release pg chunk h') { ready = true })

  unfoldable pub free : Pager S → ℕ → Heap S → Run (Heap S)
  unfolding free_chunk_at
  free pg vaddr h =
      if not h.ready then ok h else if vaddr == 0 then ok h else free_chunk_at pg (vaddr - hsize) h
