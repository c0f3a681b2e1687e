-- ===== src/Elf/Segments.antt =====
-- The addresses that the loader of kernel/proc/elf.cpp writes.
use sepples_os.Prelude.{
  ℕ, zero, suc, ◌+◌, ◌*◌, ◌%◌, ◌^◌, ◌≤◌, ◌<◌, ◌≡◌, refl, sym, ap, ◌∙◌, subst, ◌==◌, if◌then◌else◌,
  Bool, true, false, ◌&&◌, ◌⊎◌, inl, inr, Option, none, some, arith, Bool-cases, Option-cases,
  leb→le,
}
use mathlib.Core.Bool.{true≢false}
use mathlib.Core.Option.{some-injective, none-ne-some}
use sepples_os.Elf.{
  Segment, Pages, Loader, segment_at, end_of, is_accepted, load_memory, load_segment, take_segment,
  load_segments, go_on, load_elf, word_at, half_at, is_elf,
}
use sepples_os.Syscalls.{user_offset, user_stack}
use sepples_os.Elf.Memory.{load_memory-parts}

-- The sizes of a header do not wrap, and the file has no more bytes than the memory.
abbrev pub IsPlain : Segment → Type 0
IsPlain seg = (seg.vaddr + seg.memsz < 2 ^ 32) × (seg.filesz ≤ seg.memsz)

abbrev pub OutsideUser : ℕ → Type 0
OutsideUser a = (a < user_offset) ⊎ (user_stack ≤ a)

later : (at i : ℕ) → at + 32 * suc i ≡ at + 32 + 32 * i
later at i = omega arith

both_true : (a b : Bool) → (a && b) ≡ true → (a ≡ true) × (b ≡ true)
both_true true b e = (refl, e)
both_true false b e = absurd (true≢false (sym e))

accepted-bounds :
    (seg : Segment)
    → is_accepted seg ≡ true
    → (user_offset ≤ seg.vaddr) × ((seg.vaddr + seg.memsz) % 2 ^ 32 ≤ user_stack)
unfolding is_accepted end_of
accepted-bounds seg e =
    let (low, high) = both_true _ _ e in
    (leb→le user_offset seg.vaddr low, leb→le _ user_stack high)

load_memory-outside :
    (file : ℕ → ℕ) (seg : Segment) (m : ℕ → ℕ) (a : ℕ)
    → is_accepted seg ≡ true
    → IsPlain seg
    → OutsideUser a
    → load_memory file seg m a ≡ m a
load_memory-outside file seg m a ok (no_wrap, fewer) out =
    let (low, high) = accepted-bounds seg ok in
    let apart : (a < seg.vaddr) ⊎ ((seg.vaddr + seg.filesz ≤ a) × (seg.vaddr + seg.memsz ≤ a)) =
      elim out [ inl lt ↦ inl (omega arith) | inr le ↦ inr (omega arith, omega arith) ] in
    (load_memory-parts file seg m a).2 apart

module _ {T : Type 0} (P : Pages T) (file : ℕ → ℕ) where
  abbrev chosen : Segment → Loader T → Option (Loader T)
  chosen seg l = if is_accepted seg then some (load_segment P file seg l) else none

  take_segment-outside :
      (seg : Segment) (l next : Loader T) (a : ℕ)
      → IsPlain seg
      → OutsideUser a
      → take_segment P file seg l ≡ some next
      → next.memory a ≡ l.memory a
  unfolding take_segment load_segment
  take_segment-outside seg l next a plain out e = elim (Bool-cases (seg.type == 1)) [
    | inr other ↦
        let kept : some l ≡ some next =
          sym (ap (λ b. if b then chosen seg l else some l) other) ∙ e in
        ap (λ x. x.memory a) (sym (some-injective l next kept))
    | inl load ↦ elim (Bool-cases (is_accepted seg)) [
      | inr refused ↦
          let gone : none ≡ some next =
            sym (
              ap (λ b. if b then chosen seg l else some l) load
              ∙ ap (λ b. if b then some (load_segment P file seg l) else none) refused)
            ∙ e in
          absurd (none-ne-some next gone)
      | inl ok ↦
          let taken : some (load_segment P file seg l) ≡ some next =
            sym (
              ap (λ b. if b then chosen seg l else some l) load
              ∙ ap (λ b. if b then some (load_segment P file seg l) else none) ok)
            ∙ e in
          ap (λ x. x.memory a) (sym (some-injective _ next taken))
          ∙ load_memory-outside file seg l.memory a ok plain out
    ]
  ]

  load_segments-outside :
      (n at : ℕ) (l : Loader T) (a : ℕ)
      → ((i : ℕ) → i < n → IsPlain (segment_at file (at + 32 * i)))
      → OutsideUser a
      → (load_segments P n file at l).1.memory a ≡ l.memory a
  unfolding load_segments
  load_segments-outside zero at l a plain out = refl
  load_segments-outside (suc n) at l a plain out =
      let first : at + 32 * 0 ≡ at = omega arith in
      elim (Option-cases (take_segment P file (segment_at file at) l)) [
        | inl e ↦ ap (λ o. (go_on o l (load_segments P n file (at + 32))).1.memory a) e
        | inr (next, e) ↦
            let all = λ (i : ℕ) (lt : i < n).
              subst (λ x. IsPlain (segment_at file x)) (later at i) (plain (suc i) (omega arith)) in
            let now = subst (λ x. IsPlain (segment_at file x)) first (plain 0 (omega arith)) in
            ap (λ o. (go_on o l (load_segments P n file (at + 32))).1.memory a) e
            ∙ (load_segments-outside n (at + 32) next a all out
                ∙ take_segment-outside (segment_at file at) l next a now out e)
      ]

-- Whatever the answer, the loader writes nothing outside the memory of the user, if no program header
-- of the file has sizes that wrap or more bytes in the file than in memory.
pub load_elf-outside :
    {T : Type 0} (P : Pages T) (file : ℕ → ℕ) (l : Loader T) (a : ℕ)
    → ((i : ℕ) → i < half_at file 44 → IsPlain (segment_at file (word_at file 28 + 32 * i)))
    → OutsideUser a
    → (load_elf P file l).1.memory a ≡ l.memory a
unfolding load_elf
load_elf-outside P file l a plain out = elim (Bool-cases (is_elf file)) [
  | inl e ↦ rw e (load_segments-outside P file (half_at file 44) (word_at file 28) l a plain out)
  | inr e ↦ rw e refl
]
