-- ===== src/TaskManager/Checks.antt =====
-- Tests of the process table, and the theorems about it at concrete tables.
use sepples_os.Prelude.{ℕ, ◌≡◌, refl, true, some, arith, if◌then◌else◌, [], ◌∷◌, ltb}
use sepples_os.TaskManager.{
  State, Process, Tasks, Regs, Frame, Loader, not_runnable, ready, new_pid, load_task, exit_task,
  exited, state_at, choose, ss_code64, first_free, scan, user_rsp,
}
use sepples_os.TaskManager.Scheduling.{IsTable, WillSwitch, next_pid}
use sepples_os.TaskManager.Lifecycle.{
  IsCounted, KeepsSlot, used_below, load_task-IsCounted, exit_task-IsCounted,
}

abbrev regs_at : ℕ → Regs
regs_at n = record {
  rax = n;
  rcx = n;
  rdx = n;
  rbx = n;
  rsp = n;
  rbp = n;
  rsi = n;
  rdi = n;
  r8 = n;
  r9 = n;
  r10 = n;
  r11 = n;
  r12 = n;
  r13 = n;
  r14 = n;
  r15 = n;
  rip = n;
  eflags = n;
  cs = ss_code64;
  ss = n;
  ds = n;
  es = n;
  fs = n;
  gs = n;
  cr3 = n;
}

abbrev slot : State → ℕ → Process
slot s n = record {
  regs = regs_at n;
  rsp0 = n;
  ss0 = 8;
  pid = n;
  pml4 = n;
  page_list = [];
  b_heap = 0;
  e_heap = 0;
  e_bss = 0;
  parent = 0;
  state = s;
  status = 0;
}

-- The kernel task and two tasks, of which the first is running.
abbrev two_tasks : Tasks
two_tasks = record {
  procs = λ i. slot (if ltb i 3 then ready else not_runnable) i;
  current = 1;
  n_proc = 2;
  enabled = true;
}

abbrev frame : Frame
frame = record { stack = λ i. i; ds = 1; es = 2; fs = 3; gs = 4; tss_rsp0 = 5 }

abbrev loads : Loader
loads = record { page_dir = 0x9000; load_elf = λ p. (0x40000000, p); kstack = 0x200000 }

abbrev refuses : Loader
refuses = record { page_dir = 0x9000; load_elf = λ p. (0, p); kstack = 0x200000 }

two_tasks-IsTable : IsTable two_tasks
two_tasks-IsTable = record {
  named = λ i h u. ground arith;
  kernel_ready = refl;
  in_table = omega arith;
  running = refl;
}

two_tasks-IsCounted : IsCounted two_tasks
unfolding used_below
two_tasks-IsCounted = record { table = two_tasks-IsTable; counted = omega arith }

two_tasks-WillSwitch : WillSwitch two_tasks
two_tasks-WillSwitch = (refl, omega arith, refl)

loads-KeepsSlot : KeepsSlot loads
loads-KeepsSlot = record { keeps_pid = λ p. refl; keeps_state = λ p. refl }

refuses-KeepsSlot : KeepsSlot refuses
refuses-KeepsSlot = record { keeps_pid = λ p. refl; keeps_state = λ p. refl }

next_is_two : next_pid two_tasks ≡ 2
unfolding choose scan
next_is_two = refl

slot_three : new_pid (state_at two_tasks) ≡ some 3
unfolding new_pid first_free
slot_three = refl

argument_stack : user_rsp (5 ∷ []) ≡ 0xDFFFFFB8
unfolding user_rsp
argument_stack = refl

load_task-IsCounted_example : IsCounted (load_task loads two_tasks []).0
load_task-IsCounted_example =
    load_task-IsCounted loads two_tasks [] loads-KeepsSlot two_tasks-IsCounted

exit_task-IsCounted_example : IsCounted (exited 7 two_tasks).tasks
unfolding exit_task
exit_task-IsCounted_example =
    exit_task-IsCounted 7 two_tasks (exited 7 two_tasks) two_tasks-IsCounted refl refl
