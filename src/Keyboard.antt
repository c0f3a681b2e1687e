-- ===== src/Keyboard.antt =====
-- The input buffer of kernel/keyboard.h and kernel/keyboard.cpp, and the key map of
-- kernel/keyboardLayout.cpp. The buffer that the waiting process gave is a memory of its own.
pub mod Layout
pub mod Scancodes
pub mod Line
pub mod Reading
pub mod Checks
use sepples_os.Prelude.{
  [], ℕ, zero, suc, ◌+◌, ◌-◌, ◌*◌, ◌%◌, ◌^◌, ◌≡◌, Bool, true, false, not, ◌&&◌, ◌||◌, ltb, leb,
  ◌==◌, if◌then◌else◌, update, List, ◌∷◌,
}

-- `stop`: -2, -1 (and what is below 0), and the characters that are left
pub data Stop : Type 0 where
  off : Stop
  line : Stop
  left : ℕ → Stop

pub record Keyboard : Type 0 where
  pub ilock : Bool
  -- `ubuf` is not null
  pub has_buf : Bool
  pub buf : ℕ → ℕ
  pub pos : ℕ
  pub stop : Stop
  pub log_input : Bool

-- The int that `nget` stores for its unsigned `n`
abbrev pub stop_of : ℕ → Stop
stop_of n = if ltb n (2 ^ 31) then left n else if n == 2 ^ 32 - 2 then off else line

abbrev pub unlock : Keyboard → Keyboard
unlock k = record k { ilock = false; has_buf = false; stop = off; pos = 0 }

-- `scan` and `nget`, up to the wait for `input` to unlock
abbrev pub start : Stop → (ℕ → ℕ) → Keyboard → Keyboard
start s buf k = record k { ilock = true; has_buf = true; buf = buf; pos = 0; stop = s }

unfoldable pub scan : (ℕ → ℕ) → Keyboard → Keyboard
scan = start line

unfoldable pub nget : (ℕ → ℕ) → ℕ → Keyboard → Keyboard
nget buf n = start (stop_of n) buf

-- What both modes do with a character: a backspace steps back, any other is stored with an end mark.
unfoldable pub store : ℕ → Keyboard → Keyboard
store c k =
    if c == 8
    then (if k.pos == 0 then record k { buf = update k.buf 0 0 } else record k { pos = k.pos - 1 })
    else (let next = (k.pos + 1) % 2 ^ 32 in
        record k { buf = update (update k.buf k.pos c) next 0; pos = next })

abbrev pub is_newline : ℕ → Bool
is_newline c = (c == 10) || (c == 13)

-- The three modes of `input`
unfoldable pub receive : Stop → ℕ → Keyboard → Keyboard
unfolding store
receive off c k = k
receive line c k = if is_newline c then unlock (store c k) else store c k
receive (left zero) c k = unlock k
receive (left (suc n)) c k =
    let k' = store c k in
    if is_newline c || (n == 0) then unlock k' else record k' { stop = left n }

-- `input`, without the echo
unfoldable pub input : ℕ → Keyboard → Keyboard
unfolding receive
input c k = if k.ilock && k.has_buf then receive k.stop c k else k

-- Does `input` hand the character to the screen?
abbrev pub echoes : Keyboard → Bool
echoes k = k.log_input

abbrev pub set_log_input : Bool → Keyboard → Keyboard
set_log_input b k = record k { log_input = b }

unfoldable pub type : List ℕ → Keyboard → Keyboard
unfolding input
type [] k = k
type (c ∷ cs) k = type cs (input c k)
