-- ===== src/Disk/Failing.antt =====
-- The error paths of kernel/disk/disk.cpp: a drive that stays busy, and ports without a drive.
use sepples_os.Prelude.{
  ℕ, zero, suc, ◌+◌, ◌/◌, ◌<◌, ◌≤◌, ◌≡◌, ◌≢◌, refl, Bool, true, false, ◌==◌, ltb, if◌then◌else◌,
  bit_and, none, arith, ==_of_ne, ltb_of_le, ◌%◌, ◌^◌, subst,
}
use sepples_os.Disk.{
  Ports, Config, done, Io, Drive, ◌>>=◌, return, read_port, write_port, wait400ns, wait_loop,
  timeout,
}
use sepples_os.Disk.Commands.{
  is_missing, below_ata, config_of, reset_first, reset_second_loop, reset_second, unless_missing,
  soft_reset, give_up, wait_idle, select_known, select_device, read_sector,
}
use sepples_os.Disk.Read.{read_twice, read_blocks, blocks_of, disk_read}
use sepples_os.Disk.Triples.{
  Gives, Gives-return, Gives-bind, Gives-same, Gives-if_false, Gives-weaken,
}
use sepples_os.Disk.Waiting.{wait_loop_later, step, after}
use sepples_os.Disk.Preparing.{below_ata-Known, Known, Known-below_ata}

module _ (P : Ports) where
  -- The recorded types.
  abbrev pub Types : Config → Config → Drive P → Type 0
  Types c1 c2 d = (d.first ≡ c1) × (d.second ≡ c2)

  -- A run that ends and leaves the recorded types, whatever the ports answer.
  abbrev pub Keeps : {A : Type 0} → Io (Drive P) A → Config → Config → Type 0
  Keeps {A = A} m c1 c2 = (d : Drive P) → Types c1 c2 d → Gives m d (λ _. Types c1 c2)

  module _ (c1 c2 : Config) where
    read-Keeps : (p : ℕ) → Keeps (read_port P p) c1 c2
    unfolding read_port
    read-Keeps p d t = record { answer = _; final = _; run = refl; post = t }

    pub write-Keeps : (p v : ℕ) → Keeps (write_port P p v) c1 c2
    unfolding write_port
    write-Keeps p v d t = record { answer = _; final = _; run = refl; post = t }

    pub return-Keeps : {A : Type 0} (a : A) → Keeps (return {S = Drive P} a) c1 c2
    return-Keeps a d t = Gives-return a d t

    pub bind-Keeps :
        {A B : Type 0} {m : Io (Drive P) A} {f : A → Io (Drive P) B}
        → Keeps m c1 c2
        → ((a : A) → Keeps (f a) c1 c2)
        → Keeps (m >>= f) c1 c2
    bind-Keeps km kf d t = Gives-bind (km d t) (λ a d1 t1. kf a d1 t1)

    if-Keeps :
        {A : Type 0} (b : Bool) {m n : Io (Drive P) A}
        → Keeps m c1 c2
        → Keeps n c1 c2
        → Keeps (if b then m else n) c1 c2
    if-Keeps true km kn = km
    if-Keeps false km kn = kn

    pub wait400ns-Keeps : Keeps (wait400ns P) c1 c2
    unfolding wait400ns
    wait400ns-Keeps =
        let poll = read-Keeps 0x3F6 in
        bind-Keeps poll (λ _.
          bind-Keeps poll (λ _. bind-Keeps poll (λ _. bind-Keeps poll (λ _. return-Keeps tt))))

    wait_loop-Keeps : (port mask rounds : ℕ) → Keeps (wait_loop P port mask rounds) c1 c2
    unfolding wait_loop
    wait_loop-Keeps port mask zero =
        bind-Keeps (read-Keeps port) (λ status. return-Keeps (bit_and status mask == 0))
    wait_loop-Keeps port mask (suc rounds) = bind-Keeps (read-Keeps port) (λ status.
        if-Keeps (bit_and status mask == 0) (return-Keeps true) (wait_loop-Keeps port mask rounds))

    reset_first-Keeps : Keeps (reset_first P) c1 c2
    unfolding reset_first
    reset_first-Keeps = bind-Keeps (wait_loop-Keeps 0x1F7 0x80 timeout) (λ _. return-Keeps tt)

    reset_second_loop-Keeps : (rounds : ℕ) → Keeps (reset_second_loop P rounds) c1 c2
    unfolding reset_second_loop
    reset_second_loop-Keeps zero = bind-Keeps (write-Keeps 0x1F6 0) (λ _.
        bind-Keeps wait400ns-Keeps (λ _.
          bind-Keeps (read-Keeps 0x1F2) (λ _. bind-Keeps (read-Keeps 0x1F3) (λ _. return-Keeps 0))))
    reset_second_loop-Keeps (suc rounds) = bind-Keeps (write-Keeps 0x1F6 0) (λ _.
        bind-Keeps wait400ns-Keeps (λ _. bind-Keeps (read-Keeps 0x1F2) (λ sc.
          bind-Keeps (read-Keeps 0x1F3)
            (λ sn. if-Keeps _ (return-Keeps (suc rounds)) (reset_second_loop-Keeps rounds)))))

    reset_second-Keeps : Keeps (reset_second P) c1 c2
    unfolding reset_second
    reset_second-Keeps = bind-Keeps (reset_second_loop-Keeps timeout) (λ left.
        if-Keeps (ltb 0 left) (bind-Keeps (read-Keeps 0x1F7) (λ _. return-Keeps tt))
          (return-Keeps tt))

    pub soft_reset-Keeps : Keeps (soft_reset P) c1 c2
    unfolding soft_reset
    soft_reset-Keeps = bind-Keeps (write-Keeps 0x3F6 6) (λ _. bind-Keeps wait400ns-Keeps (λ _.
        bind-Keeps (write-Keeps 0x3F6 2) (λ _. bind-Keeps wait400ns-Keeps (λ _.
          bind-Keeps
            (λ d t.
              Gives-same (unless_missing P d.first (reset_first P)) refl
                (if-Keeps (is_missing d.first) (return-Keeps tt) reset_first-Keeps d t))
            (λ _ d t.
              Gives-same (unless_missing P d.second (reset_second P)) refl
                (if-Keeps (is_missing d.second) (return-Keeps tt) reset_second-Keeps d t))))))

  -- Each status has BSY or DRQ.
  abbrev pub StaysBusy : Type 0
  StaysBusy = (s : P.State) → bit_and (P.inb 0x1F7 s).0 0x88 ≢ 0

  -- The bus after the two writes of a soft reset and the waits of 400 ns behind each of them.
  abbrev polled : P.State → P.State
  polled s = (P.inb 0x3F6 (P.inb 0x3F6 (P.inb 0x3F6 (P.inb 0x3F6 s).1).1).1).1

  abbrev pulsed : P.State → P.State
  pulsed s = polled (P.outb 0x3F6 2 (polled (P.outb 0x3F6 6 s)))

  -- A soft reset leads from one state to another: 6 and 2 are written to the control port, then each
  -- drive that is there is waited for.
  abbrev pub IsReset : Drive P → Drive P → Type 0
  IsReset d d' =
      ((λ (e : Drive P). unless_missing P e.first (reset_first P) e) >>= λ _ e.
      unless_missing P e.second (reset_second P) e)
        (record d { bus = pulsed d.bus })
      ≡ done tt d'

  -- A try that fails: all polls of the status, and a soft reset.
  abbrev pub IsTried : Drive P → Drive P → Type 0
  IsTried d d' = IsReset (after P 0x1F7 (timeout + 2) d) d'

  soft_reset-IsReset : (d d' : Drive P) → soft_reset P d ≡ done tt d' → IsReset d d'
  unfolding soft_reset write_port wait400ns read_port
  soft_reset-IsReset d d' e = e

  module _ (busy : StaysBusy) (c1 c2 : Config) where
    Fails : {A : Type 0} → Io (Drive P) A → A → (Drive P → Drive P → Type 0) → Type 0
    Fails m a Passes =
        (d : Drive P) → Types c1 c2 d → Gives m d (λ b d'. (b ≡ a) × Types c1 c2 d' × Passes d d')

    wait_loop-busy :
        (rounds : ℕ)
        → Fails (wait_loop P 0x1F7 0x88 rounds) false (λ d d'. d' ≡ after P 0x1F7 (suc rounds) d)
    unfolding Fails wait_loop read_port after
    wait_loop-busy zero d t = record {
      answer = false;
      final = record d { bus = (P.inb 0x1F7 d.bus).1 };
      run = rw (==_of_ne _ 0 (busy d.bus)) refl;
      post = (refl, t, refl);
    }
    wait_loop-busy (suc rounds) d t =
        Gives-same (wait_loop P 0x1F7 0x88 rounds)
          (wait_loop_later P 0x1F7 0x88 rounds d (busy d.bus))
          (wait_loop-busy rounds (step P 0x1F7 d) t)

    give_up-busy : Fails (give_up P) false IsReset
    unfolding Fails give_up
    give_up-busy d t =
        let g = soft_reset-Keeps c1 c2 d t in
        Gives-bind {Q = λ _ d1. Types c1 c2 d1 × IsReset d d1}
          (record {
            answer = g.answer;
            final = g.final;
            run = g.run;
            post = (g.post, soft_reset-IsReset d g.final g.run);
          })
          (λ _ d1 (t1, r). Gives-return false d1 (refl, t1, r))

    select_known-busy : (drive : ℕ) → Fails (select_known P drive) false IsTried
    unfolding Fails select_known wait_idle
    select_known-busy drive d t = Gives-bind (wait_loop-busy (timeout + 1) d t) (λ b d1 (e, t1, at).
        Gives-if_false _ b e (
          Gives-weaken (give_up-busy d1 t1)
            (λ c d2 (ec, t2, r). (ec, t2, subst (λ x. IsReset x d2) at r))))

    select_device-busy :
        (drive : ℕ) → drive ≤ 1 → Known drive c1 c2 → Fails (select_device P drive) false IsTried
    unfolding Fails select_device
    select_device-busy drive le known d t =
        Gives-same (select_known P drive)
          (rw (ltb_of_le 1 drive le, Known-below_ata P drive d known t) refl)
          (select_known-busy drive d t)

    read_sector-busy :
        (drive block : ℕ)
        → drive ≤ 1
        → Known drive c1 c2
        → Fails (read_sector P drive block) none IsTried
    unfolding Fails read_sector
    read_sector-busy drive block le known d t =
        Gives-bind (select_device-busy drive le known d t)
          (λ b d1 (e, t1, q). Gives-if_false _ b e (Gives-return none d1 (refl, t1, q)))

    -- Two tries.
    abbrev Twice : Drive P → Drive P → Type 0
    Twice d d' = (d1 : Drive P) × (IsTried d d1 × IsTried d1 d')

    read_twice-busy :
        (drive block : ℕ)
        → drive ≤ 1
        → Known drive c1 c2
        → Fails (read_twice P drive block) none Twice
    unfolding Fails read_twice
    read_twice-busy drive block le known d t =
        Gives-bind (read_sector-busy drive block le known d t) (λ o d1 (e, t1, first). rw e (
          Gives-weaken (read_sector-busy drive block le known d1 t1)
            (λ o2 d2 (e2, t2, second). (e2, t2, (d1, (first, second))))))

    read_blocks-busy :
        (drive block blocks : ℕ)
        → drive ≤ 1
        → Known drive c1 c2
        → 0 < blocks
        → Fails (read_blocks P drive block blocks) none Twice
    unfolding Fails read_blocks
    read_blocks-busy drive block zero le known lt d t = absurd (omega arith)
    read_blocks-busy drive block (suc blocks) le known lt d t =
        Gives-bind (read_twice-busy drive (block % 2 ^ 32) le known d t)
          (λ o d1 (e, t1, q). rw e (Gives-return none d1 (refl, t1, q)))

  -- A drive of a known type that stays busy does not hang `diskRead`: a read of some blocks ends,
  -- answers 0 and writes nothing. It makes two tries at the first block, each of which polls the
  -- status 0x100002 times and then makes a soft reset, and leaves the recorded types.
  pub disk_read-busy :
      (drive offset count : ℕ) (d : Drive P)
      → StaysBusy
      → drive ≤ 1
      → below_ata (config_of P drive d) ≡ false
      → 0 < blocks_of offset count
      → Gives (disk_read P drive offset count) d (λ o d'.
        (o ≡ none)
        × (d'.first ≡ d.first)
        × (d'.second ≡ d.second)
        × ((d1 : Drive P) × (IsTried d d1 × IsTried d1 d')))
  unfolding disk_read Fails
  disk_read-busy drive offset count d busy le known lt =
      let k = below_ata-Known P drive d known in
      Gives-bind
        (read_blocks-busy busy d.first d.second drive (offset / 512) (blocks_of offset count) le k
          lt d (refl, refl))
        (λ o d1 (e, t1, twice). rw e (Gives-return none d1 (refl, t1.0, t1.1, twice)))
