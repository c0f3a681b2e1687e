-- ===== src/VgaText/Steps.antt =====
-- What one character does to the cursor and the framebuffer in `put` of kernel/vga/vgatext.cpp, before
-- new lines are added, the log disabled.
use sepples_os.Prelude.{
  ℕ, ◌+◌, ◌≤◌, ◌<◌, ◌≡◌, true, false, refl, ◌*◌, ◌⊎◌, ◌^◌, arith, ◌-◌, ◌%◌, lt→ltb, subst, ◌==◌,
  Bool-cases, sym, inl, inr, ◌≢◌, ◌&&◌, Bool, le-or-lt, ◌∙◌, ltb→lt, le→leb,
}
use mathlib.Core.Bool.{true≢false}
use sepples_os.VgaText.{
  bias, byte, le8, lt8, tab_size, next_tab, cur_white, VgaText, mem_base, mem_lim, width, height,
  put_char, rubout, video_off, write_screen, byte, lt8, bias, le8, tab_size, next_tab,
}

pub record IsOnScreen (t : VgaText) : Type 0 where
  pub x : t.cur_x < width
  pub y : t.cur_y < height
  pub rubout_x : t.rubout_x < width
  pub log : t.log_enabled ≡ false

-- A step that wrote nothing outside the framebuffer, the cursor at most one line below it
pub record IsStep (t t' : VgaText) : Type 0 where
  pub x : t'.cur_x < width
  pub y : t'.cur_y ≤ height
  pub rubout_x : t'.rubout_x < width
  pub log : t'.log_enabled ≡ false
  pub outside : (q : ℕ) → (q < mem_base) ⊎ (mem_lim ≤ q) → t'.mem q ≡ t.mem q

unwritten :
    (t : VgaText) (x y : ℕ)
    → IsOnScreen t
    → x < width
    → y ≤ height
    → IsStep t (record t { cur_x = x; cur_y = y })
unwritten t x y s lx ly = record {
  x = lx;
  y = ly;
  rubout_x = s.rubout_x;
  log = s.log;
  outside = λ q out. refl;
}

-- The character at a place of the framebuffer
written :
    (t : VgaText) (off c style x y : ℕ)
    → IsOnScreen t
    → off + 1 < 2 * width * height
    → x < width
    → y ≤ height
    → IsStep t (record (write_screen off c style t) { cur_x = x; cur_y = y })
written t off c style x y s lo lx ly = record {
  x = lx;
  y = ly;
  rubout_x = s.rubout_x;
  log = s.log;
  outside = λ q out. ground (arith, lo, out);
}

pub video_off_lem : (t : VgaText) → IsOnScreen t → video_off t ≡ 2 * t.cur_x + 2 * width * t.cur_y
video_off_lem t s = ground (arith, s.x, s.y)

col_next : (x : ℕ) → x < width → le8 width (byte (x + 1)) ≡ false → byte (x + 1) < width
col_next x lt e = elim (le-or-lt width (x + 1)) [
  | inl ge ↦
      absurd
        (true≢false (sym (le→leb (bias width) (bias (byte (x + 1))) (omega (arith, ge, lt))) ∙ e))
  | inr small ↦ omega (arith, small)
]

col_left : (b : Bool) (a x : ℕ) → a < width → x < width → b && lt8 a x ≡ true → 1 ≤ x
col_left false a x la lx e = absurd (true≢false (sym e))
col_left true a x la lx e = omega (arith, ltb→lt (bias a) (bias x) e, la, lx)

col_tab : (c x : ℕ) → (c == 9) ≡ true → (c ≢ 9) ⊎ (x < width - tab_size) → next_tab x < width
col_tab c x e (inl ne) = absurd (ne (ground (arith, e)))
col_tab c x e (inr lt) = rw (lt→ltb x (2 ^ 7) (omega (arith, lt))) (omega (arith, lt))

rubout-IsStep : (t : VgaText) → IsOnScreen t → 1 ≤ t.cur_x → IsStep t (rubout t)
unfolding rubout
rubout-IsStep t s pos =
    let off = (video_off t + 2 ^ 64 - 2) % 2 ^ 64 in
    let x = byte (t.cur_x + 2 ^ 8 - 1) in
    let right : lt8 0 t.cur_x ≡ true = lt→ltb (bias 0) (bias t.cur_x) (omega (arith, pos, s.x)) in
    let st : rubout t ≡ record (write_screen off 0 cur_white t) { cur_x = x } =
      rw (right, s.log) refl in
    subst (IsStep t) (sym st) (
      written t off 0 cur_white x t.cur_y s (omega (arith, video_off_lem t s, pos, s.x, s.y))
        (omega (arith, s.x, pos)) (omega (arith, s.y)))

-- A character that is none of the four special ones
put_char-plain :
    (c : ℕ) (t : VgaText)
    → IsOnScreen t
    → (c == 10) ≡ false
    → (c == 8) ≡ false
    → (c == 9) ≡ false
    → (c == 13) ≡ false
    → IsStep t (put_char c t)
unfolding put_char
put_char-plain c t s e10 e8 e9 e13 =
    let off = video_off t in
    let x = byte (t.cur_x + 1) in
    let lo : off + 1 < 2 * width * height = omega (arith, video_off_lem t s, s.x, s.y) in
    elim (Bool-cases (le8 width x)) [
      | inl e ↦
          (let st : put_char c t ≡ record (write_screen off c t.cur_style t) {
            cur_x = 0;
            cur_y = byte (t.cur_y + 1);
          } =
              rw (e10, e8, e9, e13, s.log, e) refl in
            subst (IsStep t) (sym st) (
              written t off c t.cur_style 0 (byte (t.cur_y + 1)) s lo (omega arith)
                (omega (arith, s.y))))
      | inr e ↦
          (let st : put_char c t
                ≡ record (write_screen off c t.cur_style t) { cur_x = x; cur_y = t.cur_y } =
              rw (e10, e8, e9, e13, s.log, e) refl in
            subst (IsStep t) (sym st) (
              written t off c t.cur_style x t.cur_y s lo (col_next t.cur_x s.x e)
                (omega (arith, s.y))))
    ]

pub put_char-IsStep :
    (c : ℕ) (t : VgaText)
    → IsOnScreen t
    → (c ≢ 9) ⊎ (t.cur_x < width - tab_size)
    → IsStep t (put_char c t)
unfolding put_char
put_char-IsStep c t s tab = elim (Bool-cases (c == 10)) [
  | inl e10 ↦
      (let st : put_char c t ≡ record t { cur_x = 0; cur_y = byte (t.cur_y + 1) } = rw e10 refl in
        subst (IsStep t) (sym st)
          (unwritten t 0 (byte (t.cur_y + 1)) s (omega arith) (omega (arith, s.y))))
  | inr e10 ↦ elim (Bool-cases (c == 8)) [
    | inl e8 ↦ elim (Bool-cases (le8 t.rubout_y t.cur_y && lt8 t.rubout_x t.cur_x)) [
      | inl ok ↦
          (let st : put_char c t ≡ rubout t = rw (e10, e8, ok) refl in
            subst (IsStep t) (sym st) (
              rubout-IsStep t s
                (col_left (le8 t.rubout_y t.cur_y) t.rubout_x t.cur_x s.rubout_x s.x ok)))
      | inr stop ↦
          (let st : put_char c t ≡ t = rw (e10, e8, stop) refl in
            subst (IsStep t) (sym st) (unwritten t t.cur_x t.cur_y s s.x (omega (arith, s.y))))
    ]
    | inr e8 ↦ elim (Bool-cases (c == 9)) [
      | inl e9 ↦
          (let st : put_char c t ≡ record t { cur_x = next_tab t.cur_x } = rw (e10, e8, e9) refl in
            subst (IsStep t) (sym st) (
              unwritten t (next_tab t.cur_x) t.cur_y s (col_tab c t.cur_x e9 tab)
                (omega (arith, s.y))))
      | inr e9 ↦ elim (Bool-cases (c == 13)) [
        | inl e13 ↦
            (let st : put_char c t ≡ record t { cur_x = 0 } = rw (e10, e8, e9, e13) refl in
              subst (IsStep t) (sym st)
                (unwritten t 0 t.cur_y s (omega arith) (omega (arith, s.y))))
        | inr e13 ↦ put_char-plain c t s e10 e8 e9 e13
      ]
    ]
  ]
]
