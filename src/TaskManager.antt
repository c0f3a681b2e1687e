-- ===== src/TaskManager.antt =====
-- The process table and the scheduler of kernel/proc/process.h and kernel/proc/process.cpp.
-- Processes are named by their index in `pList`; `current` is such an index.
pub mod Slots
pub mod RoundRobin
pub mod Scheduling
pub mod Lifecycle
pub mod Checks
use sepples_os.Prelude.{
  ℕ, zero, suc, ◌+◌, ◌-◌, ◌*◌, ◌/◌, ◌≡◌, Bool, true, false, ◌&&◌, not, Option, none, some, List, [],
  ◌%◌, ◌^◌, ◌++◌, ◌∷◌, ltb, ◌==◌, if◌then◌else◌, update, length,
}

abbrev pub max_pid : ℕ
max_pid = 64

-- -1 zombie, 0 not runnable, 1 ready or running, 2 sleeping
pub data State : Type 0 where
  zombie not_runnable ready sleeping : State

pub data Mode : Type 0 where
  kernel_mode user_mode : Mode

pub record Regs : Type 0 where
  pub rax : ℕ
  pub rcx : ℕ
  pub rdx : ℕ
  pub rbx : ℕ
  pub rsp : ℕ
  pub rbp : ℕ
  pub rsi : ℕ
  pub rdi : ℕ
  pub r8 : ℕ
  pub r9 : ℕ
  pub r10 : ℕ
  pub r11 : ℕ
  pub r12 : ℕ
  pub r13 : ℕ
  pub r14 : ℕ
  pub r15 : ℕ
  pub rip : ℕ
  pub eflags : ℕ
  pub cs : ℕ
  pub ss : ℕ
  pub ds : ℕ
  pub es : ℕ
  pub fs : ℕ
  pub gs : ℕ
  pub cr3 : ℕ

pub record Process : Type 0 where
  pub regs : Regs
  pub rsp0 : ℕ
  pub ss0 : ℕ
  pub pid : ℕ
  pub pml4 : ℕ
  pub page_list : List ℕ
  pub b_heap : ℕ
  pub e_heap : ℕ
  pub e_bss : ℕ
  pub parent : ℕ
  pub state : State
  pub status : ℕ

pub record Tasks : Type 0 where
  pub procs : ℕ → Process
  pub current : ℕ
  pub n_proc : ℕ
  pub enabled : Bool

abbrev pub is_ready : State → Bool
is_ready ready = true
is_ready _ = false

abbrev pub is_used : State → Bool
is_used not_runnable = false
is_used _ = true

abbrev pub state_at : Tasks → ℕ → State
state_at t i = (t.procs i).state

-- The values of the segment selectors of kernel/arch/gdt.h.
abbrev pub ss_data : ℕ
ss_data = 0x08

abbrev pub ss_code64 : ℕ
ss_code64 = 0x10

abbrev pub ss_usrcode32 : ℕ
ss_usrcode32 = 0x4B

abbrev pub ss_usrdata : ℕ
ss_usrdata = 0x33

abbrev pub ss_usrstack : ℕ
ss_usrstack = 0x3B

pub disable_scheduler : Tasks → Tasks
disable_scheduler t = record t { enabled = false }

pub enable_scheduler : Tasks → Tasks
enable_scheduler t = record t { enabled = true }

-- `while (pList[pid].state != 0 && pid++ < MAXPID);` with the slots that are left to look at
pub first_free : (ℕ → State) → ℕ → ℕ → ℕ
first_free st zero pid = if is_used (st pid) then pid + 1 else pid
first_free st (suc n) pid = if is_used (st pid) then first_free st n (pid + 1) else pid

-- The pid of a new task, or nothing if the table is full.
pub new_pid : (ℕ → State) → Option ℕ
new_pid st = let pid = first_free st (max_pid - 1) 1 in if ltb pid max_pid then some pid else none

-- `for (i = …; i < … && newpid == 0; i++) if (pList[i].state == 1) newpid = i;`
pub scan : (ℕ → State) → ℕ → ℕ → ℕ
scan st zero i = 0
scan st (suc n) i = if is_ready (st i) then i else scan st n (i + 1)

-- The round robin: behind the current pid first, then in front of it, else the kernel task.
pub choose : (ℕ → State) → ℕ → ℕ
choose st cur =
    let behind = scan st (max_pid - (cur + 1)) (cur + 1) in
    if behind == 0 then scan st (cur - 1) 1 else behind

-- What the interrupt left: the saved registers on the stack, the segment registers and the
-- kernel stack that the default TSS names.
pub record Frame : Type 0 where
  pub stack : ℕ → ℕ
  pub ds : ℕ
  pub es : ℕ
  pub fs : ℕ
  pub gs : ℕ
  pub tss_rsp0 : ℕ

pub save_regs : Frame → Regs → Regs
save_regs f r = record r {
  eflags = f.stack 17;
  cs = f.stack 16 % 2 ^ 16;
  rip = f.stack 15;
  rax = f.stack 14;
  rcx = f.stack 13;
  rdx = f.stack 12;
  rbx = f.stack 11;
  rbp = f.stack 10;
  rsi = f.stack 9;
  rdi = f.stack 8;
  r8 = f.stack 7;
  r9 = f.stack 6;
  r10 = f.stack 5;
  r11 = f.stack 4;
  r12 = f.stack 3;
  r13 = f.stack 2;
  r14 = f.stack 1;
  r15 = f.stack 0;
  ds = f.ds;
  es = f.es;
  fs = f.fs;
  gs = f.gs;
  rsp = f.stack 18;
  ss = if f.stack 16 % 2 ^ 16 == 0x08 then ss_data else f.stack 19 % 2 ^ 16;
}

pub save_current : Frame → Tasks → Tasks
unfolding save_regs
save_current f t =
    let p = t.procs t.current in
    record t {
      procs =
          update t.procs t.current
            (record p { regs = save_regs f p.regs; ss0 = ss_data; rsp0 = f.tss_rsp0 });
    }

-- The arguments of `doTaskSwitch`, with the value that goes to the TSS.
pub record Switch : Type 0 where
  pub pid : ℕ
  pub tss_rsp0 : ℕ
  pub kss : ℕ
  pub krsp : ℕ

pub switch_to_task : ℕ → Mode → Tasks → Tasks × Switch
switch_to_task n user_mode t =
    let p = t.procs n in
    (record t { current = n }, record { pid = n; tss_rsp0 = p.rsp0; kss = p.ss0; krsp = p.rsp0 })
switch_to_task n kernel_mode t =
    let p = t.procs n in
    (
      record t { current = n },
      record { pid = n; tss_rsp0 = p.rsp0; kss = p.regs.ss; krsp = p.regs.rsp },
    )

abbrev pub mode_of : Process → Mode
mode_of p = if p.regs.cs == 0x08 then kernel_mode else user_mode

abbrev pub current_pid : Tasks → ℕ
current_pid t = (t.procs t.current).pid

-- `none` where the interrupted task goes on.
pub schedule : Frame → Tasks → Tasks × Option Switch
unfolding save_current choose switch_to_task
schedule f t =
    if not t.enabled
    then (t, none)
    else if t.n_proc == 0
    then (t, none)
    else if (t.n_proc == 1) && not (current_pid t == 0)
    then (t, none)
    else let saved = save_current f t in
      let p = saved.procs (choose (state_at saved) (current_pid saved)) in
      let (t', s) = switch_to_task p.pid (mode_of p) saved in (t', some s)

abbrev pub kernel_pml4 : ℕ
kernel_pml4 = 0x1000

abbrev pub user_stack : ℕ
user_stack = 0xE0000000

abbrev pub page_size : ℕ
page_size = 0x1000

-- `new Process[MAXPID+1]` leaves what was in the memory, but for the state.
pub init : (memory : ℕ → Process) (ss : ℕ) → Tasks
init memory ss =
    let blank : ℕ → Process = λ i. record (memory i) { state = not_runnable } in
    let kernel = blank 0 in
    record {
      procs = update blank 0 (record kernel {
        pid = 0;
        state = ready;
        regs = record (kernel.regs) { cr3 = kernel_pml4; ss = ss };
        parent = 0;
      });
      current = 0;
      n_proc = 0;
      enabled = true;
    }

abbrev pub sub64 : ℕ → ℕ → ℕ
sub64 a b = (a + 2 ^ 64 - b) % 2 ^ 64

-- `stackp -= strlen(param[i]) + 1` for each argument
pub push_strings : ℕ → List ℕ → ℕ
push_strings stackp [] = stackp
push_strings stackp (len ∷ lens) = push_strings (sub64 stackp (len + 1)) lens

-- The stack pointer behind the arguments, given their lengths: the strings, then the alignment,
-- the null, one pointer for each argument, argv, argc and a return address.
pub user_rsp : List ℕ → ℕ
unfolding push_strings
user_rsp [] = user_stack - 16
user_rsp (len ∷ lens) =
    let strings = push_strings (user_stack - 16) (len ∷ lens) in
    sub64 (strings / 16 % 2 ^ 28 * 16) (8 * (1 + length (len ∷ lens) + 3))

-- What the callees of `loadTask` return: the page directory, the effect of `Elf::loadElf` on the
-- process with its entry point, and the page of the kernel stack.
pub record Loader : Type 0 where
  pub page_dir : ℕ
  pub load_elf : Process → ℕ × Process
  pub kstack : ℕ

user_regs : Loader → ℕ → List ℕ → Regs → Regs
unfolding user_rsp
user_regs l entry args r = record r {
  ss = ss_usrstack;
  rsp = user_rsp args;
  eflags = 0;
  cs = ss_usrcode32;
  rip = entry;
  ds = ss_usrdata;
  es = ss_usrdata;
  fs = ss_usrdata;
  gs = ss_usrdata;
  cr3 = l.page_dir;
  rax = 0;
  rcx = 0;
  rdx = 0;
  rbx = 0;
  rbp = 0;
  rsi = 0;
  rdi = 0;
}

-- The slot of a task whose image is in memory.
pub started : Loader → Tasks → ℕ → List ℕ → Process → Process
unfolding user_regs
started l t entry args p = record p {
  regs = user_regs l entry args p.regs;
  ss0 = ss_data;
  rsp0 = l.kstack + page_size - 16;
  b_heap = p.e_bss / page_size % 2 ^ 20 * page_size + page_size;
  e_heap = p.e_bss / page_size % 2 ^ 20 * page_size + page_size;
  parent = if is_used (state_at t t.current) then t.current else 0;
  state = ready;
}

load_at : Loader → Tasks → ℕ → List ℕ → Tasks × ℕ
unfolding started
load_at l t pid args =
    let (entry, p) = l.load_elf (record (t.procs pid) { pid = pid; pml4 = l.page_dir }) in
    if entry == 0 then (record t { n_proc = t.n_proc + 1; procs = update t.procs pid p }, 0) else (
      record t { n_proc = t.n_proc + 1; procs = update t.procs pid (started l t entry args p) },
      pid,
    )

-- `loadTask` on a node that was found: the new table and the pid, 0 on an error.
pub load_task : Loader → Tasks → List ℕ → Tasks × ℕ
load_task l t args = elim (new_pid (state_at t)) [ none ↦ (t, 0) | some pid ↦ load_at l t pid args ]

-- What `exitTask` has done when it leaves for the kernel task.
pub record Exit : Type 0 where
  pub tasks : Tasks
  pub next : Switch
  pub unmapped : List ℕ
  pub destroyed : ℕ

exited : ℕ → Tasks → Exit
unfolding switch_to_task
exited status t =
    let p = t.procs t.current in
    let dead = record p { state = not_runnable; status = status; page_list = [] } in
    let t' = record t { n_proc = t.n_proc - 1; procs = update t.procs t.current dead } in
    let (t'', s) = switch_to_task 0 kernel_mode t' in
    record {
      tasks = t'';
      next = s;
      unmapped = p.page_list ++ (p.rsp0 / page_size % 2 ^ 20 * page_size ∷ []);
      destroyed = p.pml4;
    }

-- `none` is `fatalError`: the kernel task was terminated.
pub exit_task : ℕ → Tasks → Option Exit
unfolding exited
exit_task status t = if (t.procs t.current).pid == 0 then none else some (exited status t)
