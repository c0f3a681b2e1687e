-- ===== src/VgaText/Lines.antt =====
-- What `newLines` of kernel/vga/vgatext.cpp leaves in the framebuffer.
use sepples_os.Prelude.{
  ℕ, zero, suc, ◌+◌, ◌*◌, ◌%◌, ◌≤◌, ◌<◌, ◌≡◌, false, ltb, ◌==◌, if◌then◌else◌, refl, ◌⊎◌, arith,
  inl, subst, sym, inr, Bool-cases, ltb→lt, ap, le-or-lt, ◌∙◌, leb, ◌&&◌, min, ◌^◌, ◌-◌,
}
use sepples_os.VgaText.{
  mem_base, mem_lim, cur_white, width, height, shift_cell, shift_from, new_lines, VgaText,
  log_lines, byte, lt8,
}

-- The byte that an empty line has at an address
abbrev pub blank : ℕ → ℕ
blank q = if q % 2 == 0 then 0 else cur_white

-- The byte at `q` once the screen has moved up by `n` lines
abbrev pub moved : ℕ → (ℕ → ℕ) → ℕ → ℕ
moved n mem q = if ltb (q + n * 2 * width) mem_lim then mem (q + n * 2 * width) else blank q

cell_here :
    (n a q : ℕ) (mem : ℕ → ℕ)
    → a % 2 ≡ 0
    → (q ≡ a) ⊎ (q ≡ a + 1)
    → shift_cell n a mem q ≡ moved n mem q
cell_here n a q mem ev at = elim at [
  | inl e ↦ subst (λ x. shift_cell n a mem x ≡ moved n mem x) (sym e) (ground (arith, ev))
  | inr e ↦
      subst (λ x. shift_cell n a mem x ≡ moved n mem x) (sym e)
        (elim (Bool-cases (ltb (a + n * 2 * width) mem_lim)) [
          | inl lt ↦ rw lt (ground (arith, ev, ltb→lt (a + n * 2 * width) mem_lim lt, ap mem swap))
          | inr ge ↦ ground (arith, ev, ge)
        ])
]
  where
    swap : a + n * 2 * width + 1 ≡ a + 1 + n * 2 * width
    swap = omega arith

cell_else : (n a q : ℕ) (mem : ℕ → ℕ) → (q < a) ⊎ (a + 2 ≤ q) → shift_cell n a mem q ≡ mem q
cell_else n a q mem out = ground (arith, out)

moved_else : (n a q : ℕ) (mem : ℕ → ℕ) → a + 2 ≤ q → moved n (shift_cell n a mem) q ≡ moved n mem q
moved_else n a q mem le =
    ap (λ v. if ltb (q + n * 2 * width) mem_lim then v else blank q)
      (cell_else n a (q + n * 2 * width) mem (inr (omega (arith, le))))

shift_from-outside :
    (n k a q : ℕ) (mem : ℕ → ℕ) → (q < a) ⊎ (a + 2 * k ≤ q) → shift_from n k a mem q ≡ mem q
unfolding shift_from
shift_from-outside n zero a q mem out = refl
shift_from-outside n (suc k) a q mem out =
    shift_from-outside n k (a + 2) q (shift_cell n a mem)
      (elim out [ inl lt ↦ inl (omega (arith, lt)) | inr le ↦ inr (omega (arith, le)) ])
    ∙ cell_else n a q mem (elim out [ inl lt ↦ inl lt | inr le ↦ inr (omega (arith, le)) ])

shift_from-moved :
    (n k a q : ℕ) (mem : ℕ → ℕ)
    → a % 2 ≡ 0
    → a ≤ q
    → q < a + 2 * k
    → shift_from n k a mem q ≡ moved n mem q
unfolding shift_from
shift_from-moved n zero a q mem ev le lt = absurd (omega (arith, le, lt))
shift_from-moved n (suc k) a q mem ev le lt = elim (le-or-lt (a + 2) q) [
  | inl far ↦
      shift_from-moved n k (a + 2) q (shift_cell n a mem) (omega (arith, ev)) far
        (omega (arith, lt))
      ∙ moved_else n a q mem far
  | inr near ↦
      shift_from-outside n k (a + 2) q (shift_cell n a mem) (inl near)
      ∙ cell_here n a q mem ev (one_of q a le near)
]
  where
    one_of : (q a : ℕ) → a ≤ q → q < a + 2 → (q ≡ a) ⊎ (q ≡ a + 1)
    one_of q a le lt = elim (le-or-lt q a) [
      | inl e ↦ inl (omega (arith, e, le))
      | inr e ↦ inr (omega (arith, e, lt))
    ]

log_lines-mem : (n : ℕ) (t : VgaText) → (log_lines n t).mem ≡ t.mem
log_lines-mem n t = elim (Bool-cases t.log_enabled) [
  | inr off ↦ rw off refl
  | inl on ↦ elim (Bool-cases t.malloc_ready) [ inl r ↦ rw (on, r) refl | inr r ↦ rw (on, r) refl ]
]

new_lines-shift :
    (n : ℕ) (t : VgaText)
    → (new_lines n t).mem
      ≡ shift_from (if ltb height n then height else n) (width * height) mem_base t.mem
unfolding new_lines
new_lines-shift n t =
    let y = byte (t.cur_y + 2 ^ 8 - byte n) in
    log_lines-mem (if ltb height n then height else n) (record t {
      cur_y = if lt8 y 0 then 0 else if lt8 height y then height else y;
      mem = shift_from (if ltb height n then height else n) (width * height) mem_base t.mem;
    })

whole_screen :
    (n q : ℕ) (mem : ℕ → ℕ)
    → shift_from n (width * height) mem_base mem q
      ≡ (if leb mem_base q && ltb q mem_lim then moved n mem q else mem q)
whole_screen n q mem = elim (Bool-cases (leb mem_base q && ltb q mem_lim)) [
  | inl e ↦
      shift_from-moved n (width * height) mem_base q mem refl (ground (arith, e))
        (ground (arith, e))
      ∙ rw e refl
  | inr e ↦ shift_from-outside n (width * height) mem_base q mem (outside q e) ∙ rw e refl
]
  where
    outside :
        (q : ℕ)
        → leb mem_base q && ltb q mem_lim ≡ false
        → (q < mem_base) ⊎ (mem_base + 2 * (width * height) ≤ q)
    outside q e = elim (le-or-lt mem_base q) [
      | inl le ↦ inr (ground (arith, e, le))
      | inr lt ↦ inl lt
    ]

-- `newLines` moves the screen up by `n` lines, at most the whole screen, fills it with empty lines
-- from below, and writes no byte outside the framebuffer.
pub new_lines-mem :
    (n q : ℕ) (t : VgaText)
    → (new_lines n t).mem q
      ≡ (if leb mem_base q && ltb q mem_lim then moved (min n height) t.mem q else t.mem q)
new_lines-mem n q t =
    ap (λ f. f q) (new_lines-shift n t)
    ∙ ap (λ k. shift_from k (width * height) mem_base t.mem q) (capped n)
    ∙ whole_screen (min n height) q t.mem
  where
    capped : (n : ℕ) → (if ltb height n then height else n) ≡ min n height
    capped n = ground arith
