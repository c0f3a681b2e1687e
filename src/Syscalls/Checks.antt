-- ===== src/Syscalls/Checks.antt =====
-- Runs of the system calls, and the conditions of their theorems at concrete arguments.
use sepples_os.Prelude.{◌+◌, ◌-◌, ◌^◌, ◌<◌, ◌≡◌, refl, arith}
use sepples_os.Syscalls.{do_syscalls, nget, print, refuse, user_stack, is_user_ptr_valid}
use sepples_os.Syscalls.Ranges.{NamesUser, do_syscalls-NamesUser, nget_wraps}

prints : do_syscalls 0x10001 0x40001000 0 ≡ print 0x40001000
unfolding do_syscalls is_user_ptr_valid
prints = refl

refuses_kernel_buffer : do_syscalls 0x10002 0x1000 16 ≡ refuse
unfolding do_syscalls is_user_ptr_valid
refuses_kernel_buffer = refl

do_syscalls-NamesUser_example : NamesUser (do_syscalls 0x10002 0x40001000 16)
do_syscalls-NamesUser_example = do_syscalls-NamesUser 0x10002 0x40001000 16 (omega arith)

nget_wraps_example :
    (do_syscalls 0x10002 0x40001000 (2 ^ 64 - 1) ≡ nget 0x40001000 (2 ^ 32 - 1))
    × (user_stack < 0x40001000 + (2 ^ 32 - 1))
nget_wraps_example = nget_wraps 0x40001000 1 (omega arith) (omega arith) (omega arith) (omega arith)
