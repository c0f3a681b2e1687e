-- ===== src/VgaText/Cursor.antt =====
-- Where `put` of kernel/vga/vgatext.cpp leaves the cursor, and what it may write, the log disabled.
use sepples_os.Prelude.{
  ℕ, ◌+◌, ◌≤◌, ◌<◌, ◌≡◌, true, false, refl, List, [], ◌∷◌, ◌*◌, ◌⊎◌, ◌^◌, arith, ◌-◌, lt→ltb, subst,
  Bool-cases, sym, inl, inr, if◌then◌else◌, ◌≢◌, ◌&&◌, ap, ◌∙◌, leb→le, leb, ltb, leb_of_lt,
  ==_of_ne, update,
}
use sepples_os.VgaText.{
  feed, catch_up, bias, byte, le8, lt8, tab_size, next_tab, log_lines, shift_from, VgaText,
  mem_base, mem_lim, width, height, put, put_char, print, new_lines, video_off, write_screen, byte,
  lt8, bias, le8, tab_size, next_tab, address,
}
use sepples_os.VgaText.Lines.{new_lines-mem, moved}
use sepples_os.VgaText.Steps.{IsOnScreen, IsStep, put_char-IsStep}

log_lines-off : (n : ℕ) (t : VgaText) → t.log_enabled ≡ false → log_lines n t ≡ t
log_lines-off n t log = rw log refl

-- One new line, with the cursor just below the screen
new_lines-one :
    (t : VgaText)
    → t.cur_y ≡ height
    → t.log_enabled ≡ false
    → ((new_lines 1 t).cur_x ≡ t.cur_x)
      × ((new_lines 1 t).cur_y ≡ height - 1)
      × ((new_lines 1 t).rubout_x ≡ t.rubout_x)
      × ((new_lines 1 t).log_enabled ≡ false)
unfolding new_lines
new_lines-one t y log =
    let y1 = byte (t.cur_y + 2 ^ 8 - byte 1) in
    let t1 = record t {
      cur_y = if lt8 y1 0 then 0 else if lt8 height y1 then height else y1;
      mem = shift_from 1 (width * height) mem_base t.mem;
    } in
    let same = log_lines-off 1 t1 log in
    (
      ap (λ x. x.cur_x) same,
      ap (λ x. x.cur_y) same
          ∙ ap
              (λ v.
                let w = byte (v + 2 ^ 8 - byte 1) in
                if lt8 w 0 then 0 else if lt8 height w then height else w)
              y,
      ap (λ x. x.rubout_x) same,
      ap (λ x. x.log_enabled) same ∙ log,
    )

feed-IsOnScreen :
    (t t' : VgaText)
    → IsStep t t'
    → IsOnScreen (feed t') × ((q : ℕ) → (q < mem_base) ⊎ (mem_lim ≤ q) → (feed t').mem q ≡ t.mem q)
unfolding feed
feed-IsOnScreen t t' st = elim (Bool-cases (le8 height t'.cur_y)) [
  | inr e ↦
      (let same : feed t' ≡ t' =
          ap (λ b. if b then new_lines (1 + t'.cur_y - height) t' else t') e in
        subst (λ v. IsOnScreen v × ((q : ℕ) → (q < mem_base) ⊎ (mem_lim ≤ q) → v.mem q ≡ t.mem q))
          (sym same)
          (
            record {
              x = st.x;
              y = row_above t'.cur_y st.y e;
              rubout_x = st.rubout_x;
              log = st.log;
            },
            st.outside,
          ))
  | inl e ↦
      (let at : t'.cur_y ≡ height = row_below t'.cur_y st.y e in
        let one_line : 1 + t'.cur_y - height ≡ 1 = omega (arith, at) in
        let one : feed t' ≡ new_lines 1 t' =
          ap (λ b. if b then new_lines (1 + t'.cur_y - height) t' else t') e
          ∙ ap (λ n. new_lines n t') one_line in
        let (ex, ey, er, el) = new_lines-one t' at st.log in
        subst (λ v. IsOnScreen v × ((q : ℕ) → (q < mem_base) ⊎ (mem_lim ≤ q) → v.mem q ≡ t.mem q))
          (sym one)
          (
            record {
              x = rw ex st.x;
              y = rw ey (omega arith);
              rubout_x = rw er st.rubout_x;
              log = el;
            },
            λ q out.
                new_lines-mem 1 q t'
                ∙ not_inside q out (moved 1 t'.mem q) (t'.mem q)
                ∙ st.outside q out,
          ))
]
  where
    row_above : (y : ℕ) → y ≤ height → le8 height y ≡ false → y < height
    row_above y le e = ground (arith, le, e)

    row_below : (y : ℕ) → y ≤ height → le8 height y ≡ true → y ≡ height
    row_below y le e = omega (arith, leb→le (bias height) (bias y) e, le)

    not_inside :
        (q : ℕ)
        → (q < mem_base) ⊎ (mem_lim ≤ q)
        → (a b : ℕ) → (if leb mem_base q && ltb q mem_lim then a else b) ≡ b
    not_inside q out a b = ground (arith, out)

-- With the log disabled, the cursor on the screen and the rubout limit within a line: `put` keeps
-- the cursor on the screen and writes nothing outside the framebuffer, for every character but a
-- tab in the last four columns.
pub put-IsOnScreen :
    (c : ℕ) (t : VgaText)
    → IsOnScreen t
    → (c ≢ 9) ⊎ (t.cur_x < width - tab_size)
    → IsOnScreen (put c t) × ((q : ℕ) → (q < mem_base) ⊎ (mem_lim ≤ q) → (put c t).mem q ≡ t.mem q)
unfolding put
put-IsOnScreen c t s tab =
    let here : catch_up t ≡ t = rw s.log refl in
    subst
      (λ v.
        IsOnScreen (feed (put_char c v))
        × ((q : ℕ) → (q < mem_base) ⊎ (mem_lim ≤ q) → (feed (put_char c v)).mem q ≡ t.mem q))
      (sym here) (feed-IsOnScreen t (put_char c t) (put_char-IsStep c t s tab))

abbrev pub HasNoTab : List ℕ → Type 0
HasNoTab [] = Unit
HasNoTab (c ∷ cs) = (c ≢ 9) × HasNoTab cs

-- With the log disabled, the cursor on the screen and the rubout limit within a line: printing a
-- text without tabs leaves the cursor on the screen and writes nothing outside the framebuffer.
pub print-IsOnScreen :
    (s : List ℕ) (t : VgaText)
    → IsOnScreen t
    → HasNoTab s
    → IsOnScreen (print s t)
      × ((q : ℕ) → (q < mem_base) ⊎ (mem_lim ≤ q) → (print s t).mem q ≡ t.mem q)
unfolding print
print-IsOnScreen [] t on no_tab = (on, λ q out. refl)
print-IsOnScreen (c ∷ s) t on (ne, no_tab) =
    let (on1, out1) = put-IsOnScreen c t on (inl ne) in
    let (on2, out2) = print-IsOnScreen s (put c t) on1 no_tab in
    (on2, λ q out. out2 q out ∙ out1 q out)

-- The tab that goes past the line
put_tab :
    (t : VgaText) → IsOnScreen t → width - tab_size ≤ t.cur_x → put 9 t ≡ record t { cur_x = 80 }
unfolding put put_char feed
put_tab t s last =
    let here : catch_up t ≡ t = rw s.log refl in
    let stays : le8 height t.cur_y ≡ false =
      leb_of_lt (bias height) (bias t.cur_y) (omega (arith, s.y)) in
    let at : next_tab t.cur_x ≡ 80 =
      rw (lt→ltb t.cur_x (2 ^ 7) (omega (arith, s.x))) (omega (arith, last, s.x)) in
    ap (λ v. feed (put_char 9 v)) here
    ∙ ap
        (λ b.
          let t' = record t { cur_x = next_tab t.cur_x } in
          if b then new_lines (1 + t'.cur_y - height) t' else t')
        stays
    ∙ ap {B = VgaText} (λ x. record t { cur_x = x }) at

-- A plain character with the cursor behind the last line
put_past :
    (c : ℕ) (t : VgaText)
    → t.cur_x ≡ 80
    → t.cur_y ≡ height - 1
    → t.log_enabled ≡ false
    → 32 ≤ c
    → (put c t).mem mem_lim ≡ c
unfolding put put_char feed
put_past c t x y log plain =
    let here : catch_up t ≡ t = rw log refl in
    let off = video_off t in
    let off_at : off ≡ 4000 = rw (x, y) refl in
    let t' = record (write_screen off c t.cur_style t) { cur_x = 0; cur_y = byte (t.cur_y + 1) } in
    let st : put_char c t ≡ t' =
      rw
        (
          ==_of_ne c 10 (omega (arith, plain)),
          ==_of_ne c 8 (omega (arith, plain)),
          ==_of_ne c 9 (omega (arith, plain)),
          ==_of_ne c 13 (omega (arith, plain)),
          log,
          x,
        )
        refl in
    let below : le8 height t'.cur_y ≡ true = rw y refl in
    ap (λ v. (feed (put_char c v)).mem mem_lim) here
    ∙ ap (λ v. (feed v).mem mem_lim) st
    ∙ ap (λ b. (if b then new_lines (1 + t'.cur_y - height) t' else t').mem mem_lim) below
    ∙ new_lines-mem (1 + t'.cur_y - height) mem_lim t'
    ∙ ap (λ o. update (update t.mem (address o) c) (address (o + 1)) t.cur_style mem_lim) off_at

-- With the log disabled and the cursor on the screen: after a tab in the last four columns of the
-- last line, a character from 32 on is written behind the end of the framebuffer.
pub put-overrun :
    (c : ℕ) (t : VgaText)
    → IsOnScreen t
    → width - tab_size ≤ t.cur_x
    → t.cur_y ≡ height - 1
    → 32 ≤ c
    → (put c (put 9 t)).mem mem_lim ≡ c
put-overrun c t s last bottom plain =
    let t1 = record t { cur_x = 80 } in
    ap (λ v. (put c v).mem mem_lim) (put_tab t s last) ∙ put_past c t1 refl bottom s.log plain
