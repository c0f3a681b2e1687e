-- ===== src/Elf/Memory.antt =====
-- What a segment of kernel/proc/elf.cpp leaves in memory.
use sepples_os.Prelude.{
  ℕ, zero, suc, ◌+◌, ◌-◌, ◌≤◌, ◌<◌, ◌≡◌, ◌≢◌, refl, sym, ap, ◌∙◌, ◌==◌, if◌then◌else◌, ◌⊎◌, inl,
  inr, update, arith, ==_refl, ==_of_ne, le-or-lt,
}
use sepples_os.Elf.{Segment, copy_bytes, zero_bytes, load_memory}

update_ne : (m : ℕ → ℕ) (p v q : ℕ) → p ≢ q → update m p v q ≡ m q
update_ne m p v q ne = ap (λ b. if b then v else m q) (==_of_ne p q ne)

update_at : (m : ℕ → ℕ) (p v q : ℕ) → p ≡ q → update m p v q ≡ v
update_at m p v q e = ap (λ b. if b then v else m q) (ap (λ x. p == x) (sym e) ∙ ==_refl p)

copy_bytes-before :
    (n : ℕ) (file : ℕ → ℕ) (src dst : ℕ) (m : ℕ → ℕ) (a : ℕ)
    → a < dst
    → copy_bytes n file src dst m a ≡ m a
unfolding copy_bytes
copy_bytes-before zero file src dst m a lt = refl
copy_bytes-before (suc n) file src dst m a lt =
    copy_bytes-before n file (suc src) (suc dst) _ a (omega arith)
    ∙ update_ne m dst (file src) a (omega arith)

copy_bytes-behind :
    (n : ℕ) (file : ℕ → ℕ) (src dst : ℕ) (m : ℕ → ℕ) (a : ℕ)
    → dst + n ≤ a
    → copy_bytes n file src dst m a ≡ m a
unfolding copy_bytes
copy_bytes-behind zero file src dst m a le = refl
copy_bytes-behind (suc n) file src dst m a le =
    copy_bytes-behind n file (suc src) (suc dst) _ a (omega arith)
    ∙ update_ne m dst (file src) a (omega arith)

copy_bytes-inside :
    (n : ℕ) (file : ℕ → ℕ) (src dst : ℕ) (m : ℕ → ℕ) (a k : ℕ)
    → a ≡ dst + k
    → k < n
    → copy_bytes n file src dst m a ≡ file (src + k)
unfolding copy_bytes
copy_bytes-inside zero file src dst m a k e lt = absurd (omega arith)
copy_bytes-inside (suc n) file src dst m a zero e lt =
    let start : src ≡ src + 0 = omega arith in
    copy_bytes-before n file (suc src) (suc dst) _ a (omega (arith, e))
    ∙ (update_at m dst (file src) a (omega (arith, e)) ∙ ap file start)
copy_bytes-inside (suc n) file src dst m a (suc k) e lt =
    let place : suc src + k ≡ src + suc k = omega arith in
    copy_bytes-inside n file (suc src) (suc dst) _ a k (omega (arith, e)) (omega arith)
    ∙ ap file place

zero_bytes-before : (n dst : ℕ) (m : ℕ → ℕ) (a : ℕ) → a < dst → zero_bytes n dst m a ≡ m a
unfolding zero_bytes
zero_bytes-before zero dst m a lt = refl
zero_bytes-before (suc n) dst m a lt =
    zero_bytes-before n (suc dst) _ a (omega arith) ∙ update_ne m dst 0 a (omega arith)

zero_bytes-behind : (n dst : ℕ) (m : ℕ → ℕ) (a : ℕ) → dst + n ≤ a → zero_bytes n dst m a ≡ m a
unfolding zero_bytes
zero_bytes-behind zero dst m a le = refl
zero_bytes-behind (suc n) dst m a le =
    zero_bytes-behind n (suc dst) _ a (omega arith) ∙ update_ne m dst 0 a (omega arith)

zero_bytes-inside :
    (n dst : ℕ) (m : ℕ → ℕ) (a : ℕ) → dst ≤ a → a < dst + n → zero_bytes n dst m a ≡ 0
unfolding zero_bytes
zero_bytes-inside zero dst m a le lt = absurd (omega arith)
zero_bytes-inside (suc n) dst m a le lt = elim (le-or-lt a dst) [
  | inl at ↦ zero_bytes-before n (suc dst) _ a (omega arith) ∙ update_at m dst 0 a (omega arith)
  | inr more ↦ zero_bytes-inside n (suc dst) _ a (omega arith) (omega arith)
]

-- The memory once a segment is loaded: the bytes of the file at its address, zeros behind them up to
-- its size in memory, and what was there before elsewhere.
pub load_memory-parts :
    (file : ℕ → ℕ) (seg : Segment) (m : ℕ → ℕ) (a : ℕ)
    → ((k : ℕ)
        → k < seg.filesz
        → a ≡ seg.vaddr + k
        → load_memory file seg m a ≡ file (seg.offset + k))
      × (seg.vaddr + seg.filesz ≤ a → a < seg.vaddr + seg.memsz → load_memory file seg m a ≡ 0)
      × ((a < seg.vaddr) ⊎ ((seg.vaddr + seg.filesz ≤ a) × (seg.vaddr + seg.memsz ≤ a))
          → load_memory file seg m a ≡ m a)
unfolding load_memory
load_memory-parts file seg m a =
    let copied = copy_bytes seg.filesz file seg.offset seg.vaddr m in
    let start = seg.vaddr + seg.filesz in
    let rest = seg.memsz - seg.filesz in
    (
      λ k lt e.
          zero_bytes-before rest start copied a (omega (arith, e))
          ∙ copy_bytes-inside seg.filesz file seg.offset seg.vaddr m a k e lt,
      λ le lt. zero_bytes-inside rest start copied a le (omega arith),
      λ out. elim out [
        | inl lt ↦
            zero_bytes-before rest start copied a (omega arith)
            ∙ copy_bytes-before seg.filesz file seg.offset seg.vaddr m a lt
        | inr (le, le2) ↦
            zero_bytes-behind rest start copied a (omega arith)
            ∙ copy_bytes-behind seg.filesz file seg.offset seg.vaddr m a le
      ],
    )
