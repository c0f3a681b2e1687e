-- ===== src/TaskManager/Lifecycle.antt =====
-- `init`, `loadTask` and `exitTask` of kernel/proc/process.cpp.
use mathlib.Core.Path.{fun_ext}
use sepples_os.Prelude.{
  ℕ, zero, suc, ◌+◌, ◌-◌, ◌≤◌, ◌<◌, ◌≡◌, refl, ◌≢◌, ◌⊎◌, inl, inr, false, none, some, arith, ◌==◌,
  if◌then◌else◌, Bool-cases, Option-cases, update, List,
}
use sepples_os.TaskManager.{
  State, Process, Tasks, Loader, Exit, not_runnable, ready, is_used, max_pid, new_pid, init,
  load_task, load_at, started, exit_task, exited, current_pid, state_at,
}
use sepples_os.TaskManager.Slots.{new_pid-free}
use sepples_os.TaskManager.Scheduling.{IsTable}

-- The slots in use from 1 up to and without `n`.
unfoldable pub used_below : (ℕ → State) → ℕ → ℕ
used_below st zero = 0
used_below st (suc zero) = 0
used_below st (suc (suc n)) = (if is_used (st (suc n)) then 1 else 0) + used_below st (suc n)

-- The table is well formed and the counter of tasks covers the slots in use.
pub record IsCounted (t : Tasks) : Type 0 where
  pub table : IsTable t
  pub counted : used_below (state_at t) max_pid ≤ t.n_proc

-- `Elf::loadElf` changes neither the pid nor the state of the process.
pub record KeepsSlot (l : Loader) : Type 0 where
  pub keeps_pid : (p : Process) → (l.load_elf p).1.pid ≡ p.pid
  pub keeps_state : (p : Process) → (l.load_elf p).1.state ≡ p.state

abbrev set_state : (ℕ → State) → ℕ → State → ℕ → State
set_state st i s = update st i s

used_below-above :
    (st : ℕ → State) (i : ℕ) (s : State) (n : ℕ)
    → n ≤ i
    → used_below (set_state st i s) n ≡ used_below st n
unfolding used_below
used_below-above st i s zero h = refl
used_below-above st i s (suc zero) h = refl
used_below-above st i s (suc (suc n)) h =
    ground (arith, used_below-above st i s (suc n) (omega arith))

-- Changing one slot moves the count by what the slot counted.
used_below-set :
    (st : ℕ → State) (i : ℕ) (s : State) (n : ℕ)
    → 1 ≤ i
    → i < n
    → used_below (set_state st i s) n + (if is_used (st i) then 1 else 0)
      ≡ used_below st n + (if is_used s then 1 else 0)
unfolding used_below
used_below-set st i s zero lo h = absurd (omega arith)
used_below-set st i s (suc zero) lo h = absurd (omega arith)
used_below-set st i s (suc (suc n)) lo h = elim (Bool-cases (i == suc n)) [
  | inl e ↦ ground (arith, used_below-above st i s (suc n))
  | inr e ↦ ground (arith, used_below-set st i s (suc n) lo)
]

module _ (l : Loader) (t : Tasks) (args : List ℕ) where
  -- The slot as `loadElf` is given it.
  abbrev pub handed : ℕ → Process
  handed pid = record (t.procs pid) { pid = pid; pml4 = l.page_dir }

  load_task-load_at :
      (pid : ℕ) → new_pid (state_at t) ≡ some pid → load_task l t args ≡ load_at l t pid args
  unfolding load_task
  load_task-load_at pid e = rw (e, load_task)

  -- A task is loaded into the free slot that the search gives: the pid is returned, the slot is
  -- ready and holds its pid, the counter grows by one, the current process and every other slot
  -- stay as they were.
  pub load_task-started :
      (pid : ℕ)
      → new_pid (state_at t) ≡ some pid
      → (l.load_elf (handed pid)).0 ≢ 0
      → KeepsSlot l
      → let r = load_task l t args in
        (r.1 ≡ pid)
        × (r.0.n_proc ≡ t.n_proc + 1)
        × (r.0.current ≡ t.current)
        × (state_at r.0 pid ≡ ready)
        × ((r.0.procs pid).pid ≡ pid)
        × ((i : ℕ) → i ≢ pid → r.0.procs i ≡ t.procs i)
  unfolding load_at started
  load_task-started pid e ok k =
      rw (load_task-load_at pid e) (ground (arith, k.keeps_pid (handed pid)))

  -- If the image is refused, 0 is returned and no slot changes its state, but the counter of tasks
  -- has grown by one all the same.
  pub load_task-refused :
      (pid : ℕ)
      → new_pid (state_at t) ≡ some pid
      → (l.load_elf (handed pid)).0 ≡ 0
      → KeepsSlot l
      → let r = load_task l t args in
        (r.1 ≡ 0) × (r.0.n_proc ≡ t.n_proc + 1) × (state_at r.0 ≡ state_at t)
  unfolding load_at
  load_task-refused pid e bad k = rw (load_task-load_at pid e) (
    ground (arith, k.keeps_state (handed pid)),
    ground arith,
    fun_ext λ i. ground (arith, k.keeps_state (handed pid)),
  )

  load_at-IsCounted :
      (pid : ℕ)
      → 1 ≤ pid
      → pid < max_pid
      → is_used (state_at t pid) ≡ false
      → KeepsSlot l
      → IsCounted t
      → IsCounted (load_at l t pid args).0
  unfolding load_at started
  load_at-IsCounted pid lo hi f k c = record {
    table = record {
      named = λ i h u.
          ground (arith, c.table.named i h, k.keeps_pid (handed pid), k.keeps_state (handed pid));
      kernel_ready = ground (arith, c.table.kernel_ready);
      in_table = ground (arith, c.table.in_table);
      running = ground (arith, c.table.running, k.keeps_state (handed pid));
    };
    counted = elim (Bool-cases ((l.load_elf (handed pid)).0 == 0)) [
      | inl bad ↦
          let e : state_at (load_at l t pid args).0 ≡ state_at t =
            fun_ext λ i. ground (arith, k.keeps_state (handed pid)) in
          rw e (ground (arith, c.counted))
      | inr good ↦
          let e : state_at (load_at l t pid args).0 ≡ set_state (state_at t) pid ready =
            fun_ext λ i. ground arith in
          rw e (ground (arith, c.counted, used_below-set (state_at t) pid ready 64 lo hi))
    ];
  }

  -- Loading a task, refused or not, keeps the table well formed, the kernel task ready and the
  -- counter at least as large as the number of slots in use.
  pub load_task-IsCounted : KeepsSlot l → IsCounted t → IsCounted (load_task l t args).0
  unfolding load_task
  load_task-IsCounted k c = elim (Option-cases (new_pid (state_at t))) [
    | inl e ↦ rw (e, load_task) c
    | inr (pid, e) ↦
        let f = new_pid-free (state_at t) pid e in
        rw (load_task-load_at pid e) (load_at-IsCounted pid f.0 f.1 f.2 k c)
  ]

module _ (status : ℕ) (t : Tasks) where
  -- The kernel task cannot exit. Any other current task gives its slot up, counts one less, has all
  -- of its pages and its page directory released, and the kernel task runs next on its own stack;
  -- every other slot stays as it was.
  pub exit_task_lem :
      IsCounted t
      → ((current_pid t ≡ 0) × (exit_task status t ≡ none))
        ⊎ ((current_pid t ≢ 0)
            × ((x : Exit) × ((exit_task status t ≡ some x)
                  × (x.tasks.n_proc ≡ t.n_proc - 1)
                  × (x.tasks.current ≡ 0)
                  × (x.next.pid ≡ 0)
                  × (x.next.krsp ≡ (x.tasks.procs 0).regs.rsp)
                  × (state_at x.tasks ≡ set_state (state_at t) t.current not_runnable)
                  × (x.destroyed ≡ (t.procs t.current).pml4)
                  × ((i : ℕ) → i ≢ t.current → x.tasks.procs i ≡ t.procs i))))
  unfolding exit_task
  exit_task_lem c = elim (Bool-cases (current_pid t == 0)) [
    | inl z ↦ inl (ground arith, rw z)
    | inr n ↦ inr (
      ground arith,
      (
        exited status t,
        (rw n refl, refl, refl, refl, refl, fun_ext (λ i. ground arith), refl, λ i h. ground arith),
      ),
    )
  ]

  -- When a ready task exits, the table stays well formed, the kernel task ready, and the counter at
  -- least as large as the number of slots in use.
  pub exit_task-IsCounted :
      (x : Exit)
      → IsCounted t
      → state_at t t.current ≡ ready
      → exit_task status t ≡ some x
      → IsCounted x.tasks
  unfolding exit_task
  exit_task-IsCounted x c r e =
      let n : current_pid t ≢ 0 = ground arith in
      let k : 1 ≤ t.current = ground (arith, c.table.named 0, c.table.in_table) in
      let x_eq : x ≡ exited status t = ground arith in
      let u = used_below-set (state_at t) t.current not_runnable 64 k c.table.in_table in
      let s : state_at (exited status t).tasks ≡ set_state (state_at t) t.current not_runnable =
        fun_ext λ i. ground arith in
      rw x_eq (record {
        table = record {
          named = λ i h u. ground (arith, c.table.named i h);
          kernel_ready = ground (arith, c.table.kernel_ready);
          in_table = omega arith;
          running = ground (arith, c.table.kernel_ready);
        };
        counted = rw s (ground (arith, c.counted));
      })

-- A task that is loaded and later exits leaves the states of all slots and the counter of tasks as
-- they were before it was loaded.
pub load_exit :
    (l : Loader) (t : Tasks) (args : List ℕ) (pid status : ℕ)
    → new_pid (state_at t) ≡ some pid
    → (l.load_elf (handed l t args pid)).0 ≢ 0
    → KeepsSlot l
    → (x : Exit) → exit_task status (record ((load_task l t args).0) { current = pid }) ≡ some x
    → (state_at x.tasks ≡ state_at t) × (x.tasks.n_proc ≡ t.n_proc)
unfolding exit_task load_at started
load_exit l t args pid status e ok k x ex =
    let ex' = rw (load_task-load_at l t args pid e) at ex in
    let f = new_pid-free (state_at t) pid e in
    let unused : state_at t pid ≡ not_runnable = ground (arith, f.2) in
    (fun_ext (λ i. ground (arith, k.keeps_pid (handed l t args pid))), ground (arith, f.0))

-- After one refused image the counter exceeds the number of slots in use, whatever was the case
-- before: with no task left it is not 0.
pub refused_leak :
    (l : Loader) (t : Tasks) (args : List ℕ) (pid : ℕ)
    → IsCounted t
    → new_pid (state_at t) ≡ some pid
    → (l.load_elf (handed l t args pid)).0 ≡ 0
    → KeepsSlot l
    → used_below (state_at (load_task l t args).0) max_pid < (load_task l t args).0.n_proc
refused_leak l t args pid c e bad k =
    let (_, n, s) = load_task-refused l t args pid e bad k in rw (n, s) (omega (arith, c.counted))

-- The table that `init` builds is well formed whatever was in the memory, and its counter covers the
-- slots in use.
pub init-IsCounted : (memory : ℕ → Process) (ss : ℕ) → IsCounted (init memory ss)
unfolding init used_below
init-IsCounted memory ss = record {
  table = record {
    named = λ i lt u. ground arith;
    kernel_ready = refl;
    in_table = omega arith;
    running = refl;
  };
  counted = omega arith;
}
