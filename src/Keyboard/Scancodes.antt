-- ===== src/Keyboard/Scancodes.antt =====
-- The keyboard interrupt `isr_kbd_int` of kernel/interrupt.cpp, from the byte of port 0x60 on.
use sepples_os.Prelude.{
  refl, ℕ, zero, ◌+◌, ◌%◌, ◌<◌, ◌≡◌, Bool, true, false, List, [], ◌∷◌, Option, none, some, ltb,
  ◌==◌, if◌then◌else◌, get_elem?, ◌||◌, arith, ◌-◌, ◌*◌, leb, ◌∙◌, ◌&&◌, length, ap, suc,
}
use sepples_os.Keyboard.Layout.{kbdmap}

pub record Modifiers : Type 0 where
  pub lshift : Bool
  pub rshift : Bool
  pub alt : Bool
  pub ctrl : Bool

-- What the handler does. `reads_past` is a read behind the last entry of `kbdmap`.
pub data Action : Type 0 where
  nothing : Action
  reboots : Action
  halts : Action
  prints_stats : Action
  scrolls_up : Action
  scrolls_down : Action
  inputs : ℕ → Action
  reads_past : Action

abbrev pub key_index : ℕ → Modifiers → ℕ
key_index i m = i * 4 + (if m.lshift || m.rshift then 1 else 0)

abbrev pub key_char : Option ℕ → Action
key_char none = reads_past
key_char (some c) = inputs c

-- kbdmap[i]
unfoldable pub map_key : ℕ → Action
map_key i = key_char (get_elem? kbdmap i)

-- A key is pressed: `i` is below 0x80.
unfoldable pub pressed : ℕ → Modifiers → Action × Modifiers
pressed i m =
    if i == 0x00
    then (if m.ctrl || m.alt then reboots else halts, m)
    else if i == 0x29
    then (nothing, record m { lshift = true })
    else if i == 0x35
    then (nothing, record m { rshift = true })
    else if i == 0x1C
    then (nothing, record m { ctrl = true })
    else if i == 0x37
    then (nothing, record m { alt = true })
    else if i == 0x44
    then (prints_stats, m)
    else if i == 0x48
    then (scrolls_up, m)
    else if i == 0x50
    then (scrolls_down, m)
    else (map_key (key_index i m), m)

unfoldable pub released : ℕ → Modifiers → Modifiers
released i m =
    if i == 0x29
    then record m { lshift = false }
    else if i == 0x35
    then record m { rshift = false }
    else if i == 0x1C
    then record m { ctrl = false }
    else if i == 0x37
    then record m { alt = false }
    else m

unfoldable pub isr_kbd : ℕ → Modifiers → Action × Modifiers
unfolding pressed released
isr_kbd code m =
    let i = (code + 255) % 256 in
    if ltb i 0x80 then pressed i m else (nothing, released (i - 0x80) m)

-- A series of interrupts
unfoldable pub after_keys : List ℕ → Modifiers → Modifiers
unfolding isr_kbd
after_keys [] m = m
after_keys (c ∷ cs) m = let (_, m') = isr_kbd c m in after_keys cs m'

-- Is the key that sends `make` when it is pressed, and `make + 0x80` when it is released, down after
-- the series?
unfoldable pub is_down : ℕ → Bool → List ℕ → Bool
is_down make down [] = down
is_down make down (c ∷ cs) =
    is_down make (if c == make then true else if c == make + 0x80 then false else down) cs

-- A series of bytes
abbrev pub AreBytes : List ℕ → Type 0
AreBytes [] = Unit
AreBytes (c ∷ cs) = (c < 256) × AreBytes cs

isr_kbd-lshift :
    (c : ℕ) (m : Modifiers)
    → c < 256
    → (isr_kbd c m).1.lshift
      ≡ (if c == 0x2A then true else if c == 0x2A + 0x80 then false else m.lshift)
unfolding isr_kbd pressed released
isr_kbd-lshift c m lt = ground (arith, lt)

isr_kbd-rshift :
    (c : ℕ) (m : Modifiers)
    → c < 256
    → (isr_kbd c m).1.rshift
      ≡ (if c == 0x36 then true else if c == 0x36 + 0x80 then false else m.rshift)
unfolding isr_kbd pressed released
isr_kbd-rshift c m lt = ground (arith, lt)

isr_kbd-ctrl :
    (c : ℕ) (m : Modifiers)
    → c < 256
    → (isr_kbd c m).1.ctrl
      ≡ (if c == 0x1D then true else if c == 0x1D + 0x80 then false else m.ctrl)
unfolding isr_kbd pressed released
isr_kbd-ctrl c m lt = ground (arith, lt)

isr_kbd-alt :
    (c : ℕ) (m : Modifiers)
    → c < 256
    → (isr_kbd c m).1.alt ≡ (if c == 0x38 then true else if c == 0x38 + 0x80 then false else m.alt)
unfolding isr_kbd pressed released
isr_kbd-alt c m lt = ground (arith, lt)

isr_kbd-Modifiers :
    (c : ℕ) (m : Modifiers)
    → c < 256
    → (isr_kbd c m).1 ≡ record {
      lshift = (if c == 0x2A then true else if c == 0x2A + 0x80 then false else m.lshift);
      rshift = (if c == 0x36 then true else if c == 0x36 + 0x80 then false else m.rshift);
      alt = (if c == 0x38 then true else if c == 0x38 + 0x80 then false else m.alt);
      ctrl = (if c == 0x1D then true else if c == 0x1D + 0x80 then false else m.ctrl);
    }
isr_kbd-Modifiers c m lt = λ i. record {
  lshift = isr_kbd-lshift c m lt i;
  rshift = isr_kbd-rshift c m lt i;
  alt = isr_kbd-alt c m lt i;
  ctrl = isr_kbd-ctrl c m lt i;
}

-- After any series of interrupts, each with a byte from the port, each of the four flags tells
-- whether its key is down, as the codes of that key alone say.
pub after_keys-is_down :
    (cs : List ℕ) (m : Modifiers)
    → AreBytes cs
    → after_keys cs m ≡ record {
      lshift = is_down 0x2A m.lshift cs;
      rshift = is_down 0x36 m.rshift cs;
      alt = is_down 0x38 m.alt cs;
      ctrl = is_down 0x1D m.ctrl cs;
    }
unfolding after_keys is_down
after_keys-is_down [] m bs = refl
after_keys-is_down (c ∷ cs) m (lt, bs) =
    after_keys-is_down cs (isr_kbd c m).1 bs
    ∙ ap {A = Modifiers} {B = Modifiers}
        (λ x. record {
          lshift = is_down 0x2A x.lshift cs;
          rshift = is_down 0x36 x.rshift cs;
          alt = is_down 0x38 x.alt cs;
          ctrl = is_down 0x1D x.ctrl cs;
        })
        (isr_kbd-Modifiers c m lt)

-- Does the handler read behind the map?
abbrev pub is_past : Action → Bool
is_past reads_past = true
is_past a = false

get_elem?-past : (xs : List ℕ) (i : ℕ) → is_past (key_char (get_elem? xs i)) ≡ leb (length xs) i
get_elem?-past [] i = ground arith
get_elem?-past (x ∷ xs) zero = ground arith
get_elem?-past (x ∷ xs) (suc i) = get_elem?-past xs i ∙ ground arith

map_key-past : (i : ℕ) → is_past (map_key i) ≡ leb 388 i
unfolding map_key
map_key-past i = get_elem?-past kbdmap i

-- For a byte from the port, whatever the modifiers: the handler reads behind the last entry of the
-- map for the codes 0x62 to 0x80, and for no others.
pub isr_kbd-is_past :
    (c : ℕ) (m : Modifiers) → c < 256 → is_past (isr_kbd c m).0 ≡ leb 0x62 c && leb c 0x80
unfolding isr_kbd pressed
isr_kbd-is_past c m lt =
    let i = (c + 255) % 256 in ground (arith, lt, map_key-past (i * 4), map_key-past (i * 4 + 1))
