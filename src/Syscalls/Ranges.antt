-- ===== src/Syscalls/Ranges.antt =====
-- Which addresses the requests of kernel/syscalls.cpp name.
use mathlib.Core.Bool.{true≢false, Bool}
use sepples_os.Prelude.{
  refl, ℕ, ◌+◌, ◌-◌, ◌%◌, ◌^◌, ◌≤◌, ◌<◌, ◌≡◌, true, false, arith, ◌==◌, ap, if◌then◌else◌, ◌&&◌,
  sym,
}
use sepples_os.Syscalls.{
  Request, exit_task, print, nget, load_task, refuse, unknown, do_syscalls, is_user_ptr_valid,
  user_offset, user_stack,
}

abbrev pub IsUser : ℕ → Type 0
IsUser p = (user_offset ≤ p) × (p ≤ user_stack)

-- The addresses that a request names lie in the user's range: the string of a print and of a load, and
-- the whole buffer of a reading with its end mark.
abbrev pub NamesUser : Request → Type 0
NamesUser (exit_task s) = Unit
NamesUser (print p) = IsUser p
NamesUser (nget p n) = IsUser p × IsUser (p + n)
NamesUser (load_task p) = IsUser p
NamesUser refuse = Unit
NamesUser unknown = Unit

valid-IsUser : (p : ℕ) → is_user_ptr_valid p ≡ true → IsUser p
unfolding is_user_ptr_valid
valid-IsUser p e = (ground (arith, e), ground (arith, e))

NamesUser-if :
    (b : Bool) (x y : Request)
    → (b ≡ true → NamesUser x)
    → NamesUser y
    → NamesUser (if b then x else y)
NamesUser-if true x y hx hy = hx refl
NamesUser-if false x y hx hy = hy

and_parts : (a b : Bool) → a && b ≡ true → (a ≡ true) × (b ≡ true)
and_parts true b e = (refl, e)
and_parts false b e = absurd (true≢false (sym e))

buffer :
    (arg1 arg2 : ℕ)
    → arg1 + arg2 < 2 ^ 64
    → (is_user_ptr_valid arg1 ≡ true) × (is_user_ptr_valid ((arg1 + arg2) % 2 ^ 64) ≡ true)
    → NamesUser (nget arg1 (arg2 % 2 ^ 32))
buffer arg1 arg2 lt (v1, v2) =
    let (lo, hi) = valid-IsUser arg1 v1 in
    let (lo', hi') = valid-IsUser ((arg1 + arg2) % 2 ^ 64) v2 in
    ((lo, hi), (omega (arith, lo), omega (arith, lo, hi', lt)))

valid_of_user : (p : ℕ) → IsUser p → is_user_ptr_valid p ≡ true
unfolding is_user_ptr_valid
valid_of_user p (lo, hi) = ground (arith, lo, hi)

-- Every call whose first two arguments do not wrap around in their sum makes a request that names
-- user addresses only, the end of the buffer included.
pub do_syscalls-NamesUser :
    (sysnum arg1 arg2 : ℕ) → arg1 + arg2 < 2 ^ 64 → NamesUser (do_syscalls sysnum arg1 arg2)
unfolding do_syscalls
do_syscalls-NamesUser sysnum arg1 arg2 lt =
    NamesUser-if (sysnum == 1) (exit_task (arg1 % 2 ^ 32)) _ (λ e. tt)
      (NamesUser-if (sysnum == 0x10001) _ _
        (λ e. NamesUser-if (is_user_ptr_valid arg1) (print arg1) refuse (valid-IsUser arg1) tt)
        (NamesUser-if (sysnum == 0x10002) _ _
          (λ e.
            NamesUser-if (is_user_ptr_valid arg1 && is_user_ptr_valid ((arg1 + arg2) % 2 ^ 64))
              (nget arg1 (arg2 % 2 ^ 32)) refuse
              (λ both. buffer arg1 arg2 lt (
                and_parts (is_user_ptr_valid arg1) (is_user_ptr_valid ((arg1 + arg2) % 2 ^ 64))
                  both))
              tt)
          (NamesUser-if (sysnum == 0x10003) _ _
            (λ e.
              NamesUser-if (is_user_ptr_valid arg1) (load_task arg1) refuse (valid-IsUser arg1) tt)
            tt)))

-- For a buffer in the user's range, at least k above its start, with k from 1 and below 2^29: the
-- length 2^64 - k passes the check of the buffer's end, and the reading gets the length 2^32 - k,
-- with which the buffer ends beyond the user's range.
pub nget_wraps :
    (arg1 k : ℕ)
    → user_offset + k ≤ arg1
    → arg1 ≤ user_stack
    → 1 ≤ k
    → k < 2 ^ 29
    → (do_syscalls 0x10002 arg1 (2 ^ 64 - k) ≡ nget arg1 (2 ^ 32 - k))
      × (user_stack < arg1 + (2 ^ 32 - k))
unfolding do_syscalls
nget_wraps arg1 k lo hi pos small =
    let v1 = valid_of_user arg1 (omega (arith, lo), hi) in
    let v2 =
      valid_of_user ((arg1 + (2 ^ 64 - k)) % 2 ^ 64)
        (omega (arith, lo, hi, pos, small), omega (arith, lo, hi, pos, small)) in
    let n : (2 ^ 64 - k) % 2 ^ 32 ≡ 2 ^ 32 - k = omega (arith, pos, small) in
    (rw (v1, v2) (ap (nget arg1) n), omega (arith, lo, small))
