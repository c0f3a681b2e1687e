-- ===== src/VgaText/Checks.antt =====
-- Runs of the screen, and the conditions of its theorems at concrete states.
use sepples_os.Prelude.{ℕ, ◌<◌, ◌≤◌, ◌≡◌, true, false, refl, inl, arith, ◌⊎◌}
use sepples_os.VgaText.{VgaText, put, mem_base, mem_lim, put_char, feed}
use sepples_os.VgaText.Steps.{IsOnScreen}
use sepples_os.VgaText.Cursor.{put-IsOnScreen, put-overrun}

abbrev blank_screen : VgaText
blank_screen = record {
  cur_x = 0;
  cur_y = 0;
  cur_style = 7;
  mem = λ a. 0;
  log_enabled = false;
  log = λ p. 0;
  log_cur = 0;
  log_lim = 0;
  rubout_x = 0;
  rubout_y = 0;
  malloc_ready = true;
}

abbrev corner : VgaText
corner = record blank_screen { cur_x = 77; cur_y = 24 }

abbrev blank_IsOnScreen : IsOnScreen blank_screen
blank_IsOnScreen = record { x = omega arith; y = omega arith; rubout_x = omega arith; log = refl }

abbrev corner_IsOnScreen : IsOnScreen corner
corner_IsOnScreen = record { x = omega arith; y = omega arith; rubout_x = omega arith; log = refl }

-- The tab at column 124 makes the signed column negative.
tab_wraps : (put 9 (record blank_screen { cur_x = 124 })).cur_x ≡ 0x80
unfolding put put_char feed
tab_wraps = refl

put-IsOnScreen_example :
    IsOnScreen (put 97 corner)
    × ((q : ℕ) → (q < mem_base) ⊎ (mem_lim ≤ q) → (put 97 corner).mem q ≡ 0)
put-IsOnScreen_example = put-IsOnScreen 97 corner corner_IsOnScreen (inl (omega arith))

put-overrun_example : (put 97 (put 9 corner)).mem mem_lim ≡ 97
put-overrun_example = put-overrun 97 corner corner_IsOnScreen (omega arith) refl (omega arith)
