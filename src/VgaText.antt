-- ===== src/VgaText.antt =====
-- The text screen of kernel/vga/vgatext.h and kernel/vga/vgatext.cpp. The framebuffer is a memory by
-- address, the log a memory of its own, with offsets from m_logBase. A signed byte or int is kept in
-- two's complement, so that the wrap of the cursor is that of the machine. Interrupts are off during
-- each operation; the echo to port 0xE9 and the cursor ports are output only and left out.
pub mod Lines
pub mod Steps
pub mod Cursor
pub mod Checks
use sepples_os.Prelude.{
  ℕ, zero, suc, ◌+◌, ◌-◌, ◌*◌, ◌/◌, ◌%◌, ◌^◌, ◌≡◌, Bool, true, false, not, ◌&&◌, ◌||◌, ltb, leb,
  ◌==◌, if◌then◌else◌, update, List, [], ◌∷◌,
}

abbrev pub width : ℕ
width = 80

abbrev pub height : ℕ
height = 25

-- VGA_TEXT_START
abbrev pub mem_base : ℕ
mem_base = 0xB8000

abbrev pub mem_lim : ℕ
mem_lim = mem_base + 2 * width * height

abbrev pub cur_white : ℕ
cur_white = 7

abbrev pub tab_size : ℕ
tab_size = 4

-- The bytes of one screen
abbrev pub screen : ℕ
screen = 2 * width * height

pub record VgaText : Type 0 where
  pub cur_x : ℕ
  pub cur_y : ℕ
  pub cur_style : ℕ
  pub mem : ℕ → ℕ
  pub log_enabled : Bool
  pub log : ℕ → ℕ
  pub log_cur : ℕ
  pub log_lim : ℕ
  pub rubout_x : ℕ
  pub rubout_y : ℕ
  -- Malloc::isMallocReady()
  pub malloc_ready : Bool

-- i8
abbrev pub byte : ℕ → ℕ
byte n = n % 2 ^ 8

-- The order of signed bytes is that of the bytes with the sign bit turned over.
abbrev pub bias : ℕ → ℕ
bias n = (n + 2 ^ 7) % 2 ^ 8

abbrev pub lt8 : ℕ → ℕ → Bool
lt8 a b = ltb (bias a) (bias b)

abbrev pub le8 : ℕ → ℕ → Bool
le8 a b = leb (bias a) (bias b)

-- A signed byte as a 64-bit number
abbrev pub extend : ℕ → ℕ
extend n = if ltb n (2 ^ 7) then n else n + 2 ^ 64 - 2 ^ 8

-- 2 * m_curX + 2 * m_width * m_curY
abbrev pub video_off : VgaText → ℕ
video_off t = (2 * extend t.cur_x + 2 * width * extend t.cur_y) % 2 ^ 64

abbrev pub address : ℕ → ℕ
address off = (mem_base + off) % 2 ^ 64

-- A character and its style at an offset of the framebuffer
abbrev pub write_screen : ℕ → ℕ → ℕ → VgaText → VgaText
write_screen off c style t = record t {
  mem = update (update t.mem (address off) c) (address (off + 1)) style;
}

-- The same at an offset from m_logCur, when the log is enabled
abbrev pub write_log : ℕ → ℕ → ℕ → VgaText → VgaText
write_log off c style t =
    if t.log_enabled
    then record t {
      log =
          update (update t.log ((t.log_cur + off) % 2 ^ 64) c) ((t.log_cur + off + 1) % 2 ^ 64)
            style;
    }
    else t

-- memcpy(m_memBase, m_logCur, …)
abbrev pub render : VgaText → VgaText
render t = record t {
  mem =
      λ a. if leb mem_base a && ltb a mem_lim then t.log (t.log_cur + (a - mem_base)) else t.mem a;
}

abbrev pub scroll_down : VgaText → VgaText
scroll_down t = render (record t { log_cur = t.log_lim - screen })

-- One character of the loop of `newLines`, at the address `a`
abbrev pub shift_cell : ℕ → ℕ → (ℕ → ℕ) → ℕ → ℕ
shift_cell n a mem =
    let src = a + n * 2 * width in
    if ltb src mem_lim
    then (let mem' = update mem a (mem src) in update mem' (a + 1) (mem' (src + 1)))
    else update (update mem a 0) (a + 1) cur_white

-- for (videomem = …; videomem < m_memLim; videomem += 2), with the characters that are left
unfoldable pub shift_from : ℕ → ℕ → ℕ → (ℕ → ℕ) → ℕ → ℕ
shift_from n zero a mem = mem
shift_from n (suc k) a mem = shift_from n k (a + 2) (shift_cell n a mem)

-- The log gets `n` empty lines.
abbrev pub grow_log : ℕ → VgaText → VgaText
grow_log n t =
    let lim = t.log_lim + n * 2 * width in
    record t {
      log = λ p.
          if leb (lim - n * 2 * width) p && ltb p lim
          then (if (p - (lim - n * 2 * width)) % 2 == 0 then 0 else cur_white)
          else t.log p;
      log_lim = lim;
      log_cur = lim - screen;
    }

-- "Update the log if needed"
abbrev pub log_lines : ℕ → VgaText → VgaText
log_lines n t =
    if t.log_enabled
    then (if t.malloc_ready then grow_log n t else record t { log_enabled = false })
    else t

unfoldable pub new_lines : ℕ → VgaText → VgaText
unfolding shift_from
new_lines n t =
    let y = byte (t.cur_y + 2 ^ 8 - byte n) in
    let y' = if lt8 y 0 then 0 else if lt8 height y then height else y in
    let n' = if ltb height n then height else n in
    log_lines n' (record t { cur_y = y'; mem = shift_from n' (width * height) mem_base t.mem })

-- Back over the characters 0 of a line: `off` is `videoOff`, `x` is m_curX. The answer is the column.
unfoldable pub back_over : ℕ → ℕ → ℕ → (ℕ → ℕ) → ℕ
back_over zero off x mem = x
back_over (suc fuel) off x mem =
    let rest = back_over fuel (off + 2 ^ 64 - 2) (x - 1) mem in
    if not (mem (address off) == 0)
    then x + 1
    else if x - 1 == 0
    then (if mem (address (off + 2 ^ 64 - 2)) == 0 then 0 else 1)
    else rest

-- `rubout` at the start of a line: `off` is `videoOff`.
unfoldable pub rubout_line : ℕ → VgaText → VgaText
unfolding back_over
rubout_line off t =
    if t.log_enabled && leb (2 * width) t.log_cur
    then (let t' =
          render (record t { log_cur = t.log_cur - 2 * width; log_lim = t.log_lim - 2 * width }) in
        record t' { cur_x = back_over width ((off + 2 * width) % 2 ^ 64) (width - 1) t'.mem })
    else (let t' = write_screen off 0 cur_white (record t { cur_y = byte (t.cur_y + 2 ^ 8 - 1) }) in
        record t' { cur_x = back_over width off (width - 1) t'.mem })

unfoldable pub rubout : VgaText → VgaText
unfolding rubout_line
rubout t =
    let off = (video_off t + 2 ^ 64 - 2) % 2 ^ 64 in
    if lt8 0 t.cur_x
    then write_screen off 0 cur_white
        (write_log off 0 cur_white (record t { cur_x = byte (t.cur_x + 2 ^ 8 - 1) }))
    else if le8 t.cur_y 0
    then t
    else rubout_line off t

-- m_curX + m_tabSize - m_curX % m_tabSize, the rest of a negative number being negative
abbrev pub next_tab : ℕ → ℕ
next_tab x =
    if ltb x (2 ^ 7)
    then byte (x + tab_size - x % tab_size)
    else byte (x + tab_size + (2 ^ 8 - x) % tab_size)

-- The five cases of `put`
unfoldable pub put_char : ℕ → VgaText → VgaText
unfolding rubout
put_char c t =
    if c == 10
    then record t { cur_x = 0; cur_y = byte (t.cur_y + 1) }
    else if c == 8
    then (if le8 t.rubout_y t.cur_y && lt8 t.rubout_x t.cur_x then rubout t else t)
    else if c == 9
    then record t { cur_x = next_tab t.cur_x }
    else if c == 13
    then record t { cur_x = 0 }
    else (let t' =
          write_screen (video_off t) c t.cur_style (write_log (video_off t) c t.cur_style t) in
        let x = byte (t.cur_x + 1) in
        if le8 width x
        then record t' { cur_x = 0; cur_y = byte (t.cur_y + 1) }
        else record t' { cur_x = x })

-- "Add new lines"
unfoldable pub feed : VgaText → VgaText
unfolding new_lines
feed t = if le8 height t.cur_y then new_lines (1 + t.cur_y - height) t else t

-- "We can't write to the pos of the cursor if we're scrolled up."
abbrev pub catch_up : VgaText → VgaText
catch_up t = if t.log_enabled && not (t.log_cur == t.log_lim - screen) then scroll_down t else t

unfoldable pub put : ℕ → VgaText → VgaText
unfolding put_char feed
put c t = feed (put_char c (catch_up t))

-- `print`, and `printf` without arguments
unfoldable pub print : List ℕ → VgaText → VgaText
unfolding put
print [] t = t
print (c ∷ s) t = print s (put c t)

unfoldable pub enable_log : Bool → VgaText → VgaText
enable_log state t =
    if state && not t.log_enabled
    then (if not t.malloc_ready then t else record t {
      log = (λ p. t.mem (mem_base + p));
      log_cur = 0;
      log_lim = screen;
      log_enabled = true;
    })
    else if not state && t.log_enabled
    then record t { log_enabled = false }
    else t

unfoldable pub clear : VgaText → VgaText
unfolding enable_log
clear t =
    let t' = record t {
      mem = λ a.
          if leb mem_base a && ltb a mem_lim
          then (if a % 2 == 0 then 0 else cur_white)
          else t.mem a;
    } in
    record (if t.log_enabled then enable_log true (enable_log false t') else t') {
      cur_x = 0;
      cur_y = 0;
    }

-- `scroll` by `n` lines, back and forward; the cursor only leaves or returns to the screen.
unfoldable pub scroll_back : ℕ → VgaText → VgaText
scroll_back n t =
    if not t.log_enabled
    then t
    else if (n == 0) || (t.log_cur == 0)
    then t
    else render (record t { log_cur = t.log_cur - n * 2 * width })

unfoldable pub scroll_forward : ℕ → VgaText → VgaText
scroll_forward n t =
    let cur = t.log_cur + n * 2 * width in
    if not t.log_enabled
    then t
    else if n == 0
    then t
    else render
        (record t { log_cur = (if leb (t.log_lim - screen) cur then t.log_lim - screen else cur) })

-- `moveCursor` to a place that is not the hidden one, given as two's complement ints
abbrev pub move_cursor : ℕ → ℕ → VgaText → VgaText
move_cursor x y t =
    if leb (2 ^ 31) x || leb (2 ^ 31) y || ltb width x || ltb height y
    then t
    else record t { cur_x = byte x; cur_y = byte y }

-- -1 stands for the cursor's place.
abbrev pub set_rubout_limit : ℕ → ℕ → VgaText → VgaText
set_rubout_limit x y t = record t {
  rubout_x = (if x == 0xFF then t.cur_x else x);
  rubout_y = (if y == 0xFF then t.cur_y else y);
}

abbrev pub set_cur_style : ℕ → Bool → ℕ → Bool → VgaText → VgaText
set_cur_style colour highlight back blink t = record t {
  cur_style =
      (if blink then 0x80 else 0) + (if highlight then 8 else 0) + (back % 8 * 16 + colour % 8);
}
