-- ===== src/TaskManager/Scheduling.antt =====
-- `schedule` and `switchToTask` of kernel/proc/process.cpp.
use mathlib.Core.Path.{fun_ext}
use sepples_os.Prelude.{
  ℕ, ◌<◌, ◌≡◌, refl, ◌≢◌, ◌⊎◌, inl, inr, ◌∙◌, true, false, not, none, some, arith, ◌==◌, ◌&&◌, ◌%◌,
  ◌^◌,
}
use sepples_os.TaskManager.{
  ready, is_used, Tasks, Regs, Process, ss_data, Frame, Switch, Mode, kernel_mode, user_mode,
  max_pid, choose, schedule, save_current, switch_to_task, mode_of, current_pid, state_at,
  ss_code64,
}
use sepples_os.TaskManager.RoundRobin.{choose-ready}

-- A slot in use holds its own index as pid, the kernel task is ready, and the current process is
-- in a slot in use.
pub record IsTable (t : Tasks) : Type 0 where
  pub named : (i : ℕ) → i < max_pid → is_used (state_at t i) ≡ true → (t.procs i).pid ≡ i
  pub kernel_ready : state_at t 0 ≡ ready
  pub in_table : t.current < max_pid
  pub running : is_used (state_at t t.current) ≡ true

-- What makes the clock interrupt change tasks.
abbrev pub WillSwitch : Tasks → Type 0
WillSwitch t =
    (t.enabled ≡ true) × (t.n_proc ≢ 0) × (((t.n_proc == 1) && not (current_pid t == 0)) ≡ false)

abbrev pub next_pid : Tasks → ℕ
next_pid t = choose (state_at t) t.current

-- What makes it go on with the interrupted task.
abbrev pub GoesOn : Tasks → Type 0
GoesOn t = (t.enabled ≡ false) ⊎ ((t.n_proc ≡ 0) ⊎ ((t.n_proc ≡ 1) × (current_pid t ≢ 0)))

-- The registers that an interrupt has put on the stack, with the segments cut to 16 bits.
pub record IsSaved (f : Frame) (old new : Regs) : Type 0 where
  pub rax : new.rax ≡ f.stack 14
  pub rcx : new.rcx ≡ f.stack 13
  pub rdx : new.rdx ≡ f.stack 12
  pub rbx : new.rbx ≡ f.stack 11
  pub rsp : new.rsp ≡ f.stack 18
  pub rbp : new.rbp ≡ f.stack 10
  pub rsi : new.rsi ≡ f.stack 9
  pub rdi : new.rdi ≡ f.stack 8
  pub r8 : new.r8 ≡ f.stack 7
  pub r9 : new.r9 ≡ f.stack 6
  pub r10 : new.r10 ≡ f.stack 5
  pub r11 : new.r11 ≡ f.stack 4
  pub r12 : new.r12 ≡ f.stack 3
  pub r13 : new.r13 ≡ f.stack 2
  pub r14 : new.r14 ≡ f.stack 1
  pub r15 : new.r15 ≡ f.stack 0
  pub rip : new.rip ≡ f.stack 15
  pub eflags : new.eflags ≡ f.stack 17
  pub cs : new.cs ≡ f.stack 16 % 2 ^ 16
  pub ds : new.ds ≡ f.ds
  pub es : new.es ≡ f.es
  pub fs : new.fs ≡ f.fs
  pub gs : new.gs ≡ f.gs
  pub cr3 : new.cr3 ≡ old.cr3
  pub ss :
      ((f.stack 16 % 2 ^ 16 ≡ 0x08) × (new.ss ≡ ss_data))
      ⊎ ((f.stack 16 % 2 ^ 16 ≢ 0x08) × (new.ss ≡ f.stack 19 % 2 ^ 16))

-- The stack on which a process goes on: its own after an interrupt of the code segment 8, else its
-- kernel stack.
abbrev pub Resumes : Process → Switch → Type 0
Resumes p s =
    (s.tss_rsp0 ≡ p.rsp0)
    × (((p.regs.cs ≡ 0x08) × (s.kss ≡ p.regs.ss) × (s.krsp ≡ p.regs.rsp))
        ⊎ ((p.regs.cs ≢ 0x08) × (s.kss ≡ p.ss0) × (s.krsp ≡ p.rsp0)))

switch_tasks : (n : ℕ) (m : Mode) (t : Tasks) → (switch_to_task n m t).0 ≡ record t { current = n }
unfolding switch_to_task
switch_tasks n user_mode t = refl
switch_tasks n kernel_mode t = refl

next_pid-lt : (t : Tasks) → t.current < max_pid → next_pid t < max_pid
next_pid-lt t h = ground (arith, choose-ready (state_at t) t.current h)

next_pid-used : (t : Tasks) → IsTable t → is_used (state_at t (next_pid t)) ≡ true
next_pid-used t v = ground (arith, choose-ready (state_at t) t.current v.in_table, v.kernel_ready)

module _ (f : Frame) (t : Tasks) where
  state-save_current : state_at (save_current f t) ≡ state_at t
  unfolding save_current
  state-save_current = fun_ext λ i. ground arith

  pid-save_current : (i : ℕ) → ((save_current f t).procs i).pid ≡ (t.procs i).pid
  unfolding save_current
  pid-save_current i = ground arith

  save_current-others : (i : ℕ) → i ≢ t.current → (save_current f t).procs i ≡ t.procs i
  unfolding save_current
  save_current-others i h = ground arith

  current_pid-save_current : current_pid (save_current f t) ≡ current_pid t
  unfolding save_current
  current_pid-save_current = ground arith

  next-save_current :
      IsTable t → choose (state_at (save_current f t)) (current_pid (save_current f t)) ≡ next_pid t
  next-save_current v =
      rw (state-save_current, current_pid-save_current, v.named t.current v.in_table v.running)

  -- The step that is left once the three early returns are passed.
  schedule-eq :
      IsTable t
      → WillSwitch t
      → let saved = save_current f t in
        let r = switch_to_task (next_pid t) (mode_of (saved.procs (next_pid t))) saved in
        schedule f t ≡ (r.0, some r.1)
  unfolding schedule
  schedule-eq v (on, some_proc, two) =
      let p : ((save_current f t).procs (next_pid t)).pid ≡ next_pid t =
        pid-save_current _ ∙ v.named _ (next_pid-lt t v.in_table) (next_pid-used t v) in
      let n : (t.n_proc == 0) ≡ false = ground arith in rw (on, n, two, next-save_current v, p)

  -- What a switch leaves.
  abbrev pub Switched : Type 0
  Switched =
      let r = schedule f t in
      let own = r.0.procs t.current in
      (r.0.current ≡ next_pid t)
      × ((s : Switch) × ((r.1 ≡ some s)
            × (s.pid ≡ next_pid t)
            × Resumes (r.0.procs (next_pid t)) s))
      × IsSaved f (t.procs t.current).regs own.regs
      × (own.rsp0 ≡ f.tss_rsp0)
      × (own.ss0 ≡ ss_data)
      × ((i : ℕ) → i ≢ t.current → r.0.procs i ≡ t.procs i)

  -- A task that was interrupted in the kernel's 64-bit code segment is not taken for one in kernel
  -- mode: it is resumed on the kernel stack of a user task, not on its own stack.
  pub schedule_kernel_code :
      IsTable t
      → WillSwitch t
      → next_pid t ≢ t.current
      → (t.procs (next_pid t)).regs.cs ≡ ss_code64
      → let p = t.procs (next_pid t) in
        (schedule f t).1
        ≡ some (record { pid = next_pid t; tss_rsp0 = p.rsp0; kss = p.ss0; krsp = p.rsp0 })
  unfolding switch_to_task
  schedule_kernel_code v w ne code =
      ground (arith, schedule-eq v w, save_current-others (next_pid t) ne)

  abbrev Stays : Type 0
  Stays = (t.enabled ≡ false) ⊎ ((t.n_proc ≡ 0) ⊎ ((t.n_proc ≡ 1) × (current_pid t ≢ 0)))

  -- No switch takes place, and nothing changes, while the scheduler is disabled, while there is no
  -- task, or while the only task is running.
  pub schedule_stays : Stays → schedule f t ≡ (t, none)
  unfolding schedule
  schedule_stays h = ground arith

  stays_or_switches : Stays ⊎ WillSwitch t
  stays_or_switches = ground arith

  -- The table stays well formed over every clock interrupt.
  pub schedule-IsTable : IsTable t → IsTable (schedule f t).0
  schedule-IsTable v = elim stays_or_switches [
    | inl s ↦ rw (schedule_stays s) v
    | inr w ↦ rw (schedule-eq v w) (
        rw
          (switch_tasks (next_pid t) (mode_of ((save_current f t).procs (next_pid t)))
            (save_current f t))
          (record {
            named = λ i h u. pid-save_current i ∙ v.named i h (rw (← state-save_current) u);
            kernel_ready = rw state-save_current v.kernel_ready;
            running = rw state-save_current (next_pid-used t v);
            in_table = next_pid-lt t v.in_table;
          }))
  ]
