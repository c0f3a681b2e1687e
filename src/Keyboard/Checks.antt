-- ===== src/Keyboard/Checks.antt =====
-- Runs of the keyboard, and the conditions of its theorems at concrete inputs.
use sepples_os.Prelude.{◌≡◌, ◌∷◌, [], true, false, refl, arith}
use sepples_os.Keyboard.{Keyboard, off, left, type, scan, nget}
use sepples_os.Keyboard.Scancodes.{
  Modifiers, isr_kbd, after_keys, after_keys-is_down, inputs, is_down, pressed, map_key,
}
use sepples_os.Keyboard.Line.{IsReading, edit, key}
use sepples_os.Keyboard.Reading.{IsRead, scan_lem, nget_lem}

abbrev idle : Keyboard
idle = record {
  ilock = false;
  has_buf = false;
  buf = λ p. 0;
  pos = 0;
  stop = off;
  log_input = false;
}

abbrev no_keys : Modifiers
no_keys = record { lshift = false; rshift = false; alt = false; ctrl = false }

-- The key 1 with and without shift
plain_one : (isr_kbd 2 no_keys).0 ≡ inputs 49
unfolding isr_kbd pressed map_key
plain_one = refl

shifted_one : (isr_kbd 2 (record no_keys { lshift = true })).0 ≡ inputs 33
unfolding isr_kbd pressed map_key
shifted_one = refl

after_keys-is_down_example :
    after_keys (0x2A ∷ 0x02 ∷ 0x1D ∷ 0xAA ∷ []) no_keys ≡ record no_keys { ctrl = true }
unfolding is_down
after_keys-is_down_example =
    after_keys-is_down (0x2A ∷ 0x02 ∷ 0x1D ∷ 0xAA ∷ []) no_keys
      (omega arith, (omega arith, (omega arith, (omega arith, tt))))

-- "ab", a backspace, "c" and a newline
scan_lem_example :
    IsRead (10 ∷ 99 ∷ 97 ∷ []) (type (97 ∷ 98 ∷ 8 ∷ 99 ∷ 10 ∷ []) (scan (λ p. 255) idle))
    × ((type (97 ∷ 98 ∷ 8 ∷ 99 ∷ 10 ∷ []) (scan (λ p. 255) idle)).buf 3 ≡ 0)
unfolding edit key
scan_lem_example =
    scan_lem (97 ∷ 98 ∷ 8 ∷ 99 ∷ []) 10 (λ p. 255) idle (refl, (refl, (refl, (refl, tt)))) refl
      (omega arith)

-- A backspace as the last of three keys
nget_lem_example :
    IsReading (left 1) (98 ∷ 97 ∷ []) (type (97 ∷ 98 ∷ []) (nget (λ p. 255) 3 idle))
    × IsRead (97 ∷ []) (type (97 ∷ 98 ∷ 8 ∷ []) (nget (λ p. 255) 3 idle))
unfolding edit key
nget_lem_example = nget_lem (97 ∷ 98 ∷ []) 8 (λ p. 255) idle (refl, (refl, tt)) (omega arith)
