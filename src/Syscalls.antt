-- ===== src/Syscalls.antt =====
-- The system calls of kernel/syscalls.cpp, with the address range of kernel/mm/memmap.h. What a call
-- does is the request that it makes of the screen, the keyboard or the task manager.
pub mod Ranges
pub mod Checks
use sepples_os.Prelude.{ℕ, ◌+◌, ◌%◌, ◌^◌, Bool, true, false, ◌&&◌, leb, ◌==◌, if◌then◌else◌}

abbrev pub user_offset : ℕ
user_offset = 0x40000000

abbrev pub user_stack : ℕ
user_stack = 0xE0000000

unfoldable pub is_user_ptr_valid : ℕ → Bool
is_user_ptr_valid ptr = leb user_offset ptr && leb ptr user_stack

pub data Request : Type 0 where
  exit_task : ℕ → Request
  print : ℕ → Request
  -- the buffer, and the number of characters, an unsigned int
  nget : ℕ → ℕ → Request
  load_task : ℕ → Request
  -- nothing, and the answer 0
  refuse : Request
  unknown : Request

-- `doSyscalls`, of a 32-bit number and 64-bit arguments
unfoldable pub do_syscalls : ℕ → ℕ → ℕ → Request
do_syscalls sysnum arg1 arg2 =
    if sysnum == 1
    then exit_task (arg1 % 2 ^ 32)
    else if sysnum == 0x10001
    then (if is_user_ptr_valid arg1 then print arg1 else refuse)
    else if sysnum == 0x10002
    then (if is_user_ptr_valid arg1 && is_user_ptr_valid ((arg1 + arg2) % 2 ^ 64)
        then nget arg1 (arg2 % 2 ^ 32)
        else refuse)
    else if sysnum == 0x10003
    then (if is_user_ptr_valid arg1 then load_task arg1 else refuse)
    else unknown
