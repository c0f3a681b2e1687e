-- ===== src/Disk/Preparing.antt =====
-- Selecting a device and preparing a command of kernel/disk/disk.cpp, over a device that is idle.
use sepples_os.Prelude.{
  ℕ, zero, suc, ◌+◌, ◌*◌, ◌/◌, ◌%◌, ◌^◌, ◌<◌, ◌≤◌, ◌≡◌, refl, sym, ap, ◌∙◌, true, false, ◌⊎◌, inl,
  inr, ltb_of_le, leb_of_lt,
}
use sepples_os.Disk.{Ports, Config, Drive, read_port, write_port, wait400ns, timeout, halted}
use sepples_os.Disk.Device.{IsDevice, Registers, idle, latched, is_register, next_poll, with_phase}
use sepples_os.Disk.Triples.{
  Gives, Gives-return, Gives-bind, Gives-if_true, Gives-if_false, Gives-same,
}
use sepples_os.Disk.Commands.{
  wait_idle, select_device, below_ata, config_of, device_bits, is_refused, point_at, select_known,
  device_register, prepare_command, give_up,
}
use sepples_os.Disk.Waiting.{wait_loop_now, step}

-- The registers once the parameters of a command are written.
abbrev pub prepared : ℕ → ℕ → Registers → Registers
prepared drive block r = record {
  count = 1;
  low = block % 256;
  mid = block / 2 ^ 8 % 256;
  high = block / 2 ^ 16 % 256;
  device = device_register drive block;
  phase = r.phase;
}

accepts : (block : ℕ) → block < 2 ^ 24 → is_refused block 1 ≡ false
unfolding is_refused
accepts block lt = rw (leb_of_lt (16 * 1024 * 1024) block lt) refl

-- The driver takes the drive for one of a known type.
abbrev pub Known : ℕ → Config → Config → Type 0
Known zero c1 c2 = below_ata c1 ≡ false
Known (suc n) c1 c2 = below_ata c2 ≡ false

pub below_ata-Known :
    (P : Ports) (n : ℕ) (d : Drive P)
    → below_ata (config_of P n d) ≡ false
    → Known n d.first d.second
below_ata-Known P zero d h = h
below_ata-Known P (suc n) d h = h

pub Known-below_ata :
    (P : Ports) (n : ℕ) {c1 c2 : Config} (d : Drive P)
    → Known n c1 c2
    → (d.first ≡ c1) × (d.second ≡ c2)
    → below_ata (config_of P n d) ≡ false
Known-below_ata P zero d known t = ap below_ata t.0 ∙ known
Known-below_ata P (suc n) d known t = ap below_ata t.1 ∙ known

module _ (P : Ports) (image : ℕ → ℕ → ℕ) (delay : ℕ) (D : IsDevice P image delay) where
  -- The registers of the device, and the two types that the driver has recorded.
  abbrev pub At : Registers → Config → Config → Drive P → Type 0
  At r c1 c2 d = (D.regs d.bus ≡ r) × (d.first ≡ c1) × (d.second ≡ c2)

  module _ (c1 c2 : Config) where
    write_register :
        (p v : ℕ) (r : Registers) (d : Drive P)
        → r.phase ≡ idle
        → is_register p ≡ true
        → At r c1 c2 d
        → Gives (write_port P p v) d (λ _. At (latched p v r) c1 c2)
    unfolding write_port
    write_register p v r d i reg (e, e1, e2) =
        let quiet = ap (λ q. q.phase) e ∙ i in
        let sets = D.regs-register p v d.bus quiet reg ∙ ap (latched p v) e in
        record { answer = tt; final = _; run = refl; post = (sets, e1, e2) }

    step-idle :
        (p : ℕ) (r : Registers) (d : Drive P)
        → r.phase ≡ idle
        → (p ≡ 0x1F7) ⊎ (p ≡ 0x3F6)
        → At r c1 c2 d
        → At r c1 c2 (step P p d)
    step-idle p r d i port (e, e1, e2) =
        let same : with_phase (D.regs d.bus) (next_poll (D.regs d.bus).phase) ≡ r =
          ap (λ q. with_phase q (next_poll q.phase)) e
          ∙ (ap (λ f. with_phase r (next_poll f)) i ∙ ap (with_phase r) (sym i)) in
        (D.regs-poll p d.bus port ∙ same, e1, e2)

    poll_idle :
        (p : ℕ) (r : Registers) (d : Drive P)
        → r.phase ≡ idle
        → (p ≡ 0x1F7) ⊎ (p ≡ 0x3F6)
        → At r c1 c2 d
        → Gives (read_port P p) d (λ _ d'. At r c1 c2 d')
    unfolding read_port
    poll_idle p r d i port at = record {
      answer = _;
      final = _;
      run = refl;
      post = step-idle p r d i port at;
    }

    pub wait_idle_400ns :
        (r : Registers) (d : Drive P)
        → r.phase ≡ idle
        → At r c1 c2 d
        → Gives (wait400ns P) d (λ _. At r c1 c2)
    unfolding wait400ns
    wait_idle_400ns r d i at = Gives-bind (poll_idle 0x3F6 r d i (inr refl) at) (λ _ d1 at1.
        Gives-bind (poll_idle 0x3F6 r d1 i (inr refl) at1) (λ _ d2 at2.
          Gives-bind (poll_idle 0x3F6 r d2 i (inr refl) at2) (λ _ d3 at3.
            Gives-bind (poll_idle 0x3F6 r d3 i (inr refl) at3)
              (λ _ d4 at4. Gives-return tt d4 at4))))

    -- An idle device ends the wait for BSY and DRQ at once.
    wait_idle-At :
        (r : Registers) (d : Drive P)
        → r.phase ≡ idle
        → At r c1 c2 d
        → Gives (wait_idle P) d (λ b d'. (b ≡ true) × At r c1 c2 d')
    unfolding wait_idle read_port
    wait_idle-At r d i at =
        let quiet = ap (λ q. q.phase) at.0 ∙ i in
        record {
          answer = true;
          final = step P 0x1F7 d;
          run = wait_loop_now P 0x1F7 0x88 (timeout + 1) d (D.idle_status d.bus quiet);
          post = (refl, step-idle 0x1F7 r d i (inl refl) at);
        }

    point_at_lem :
        (drive : ℕ) (r : Registers) (d : Drive P)
        → r.phase ≡ idle
        → At r c1 c2 d
        → Gives (point_at P drive) d (λ _. At (latched 0x1F6 (device_bits drive) r) c1 c2)
    unfolding point_at
    point_at_lem drive r d i at =
        Gives-bind (write_register 0x1F6 (device_bits drive) r d i refl at)
          (λ _ d1 at1. wait_idle_400ns (latched 0x1F6 (device_bits drive) r) d1 i at1)

    select_known_lem :
        (drive : ℕ) (r : Registers) (d : Drive P)
        → r.phase ≡ idle
        → At r c1 c2 d
        → Gives
            (select_known P drive)
            d
            (λ b d'. (b ≡ true) × At (latched 0x1F6 (device_bits drive) r) c1 c2 d')
    unfolding select_known
    select_known_lem drive r d i at =
        let r' = latched 0x1F6 (device_bits drive) r in
        Gives-bind (wait_idle-At r d i at) (λ b d1 (eb, at1). Gives-if_true (give_up P) b eb (
          Gives-bind (point_at_lem drive r d1 i at1) (λ _ d2 at2.
            Gives-bind (wait_idle-At r' d2 i at2) (λ b2 d3 (eb2, at3).
              Gives-if_true (give_up P) b2 eb2 (Gives-return true d3 (refl, at3))))))

    -- `selectDevice` on an idle device of a known type sets the register of the drive.
    pub select_device_lem :
        (drive : ℕ) (r : Registers) (d : Drive P)
        → drive ≤ 1
        → below_ata (config_of P drive d) ≡ false
        → r.phase ≡ idle
        → At r c1 c2 d
        → Gives
            (select_device P drive)
            d
            (λ b d'. (b ≡ true) × At (latched 0x1F6 (device_bits drive) r) c1 c2 d')
    unfolding select_device
    select_device_lem drive r d le known i at =
        Gives-same (select_known P drive) (rw (ltb_of_le 1 drive le, known) refl)
          (select_known_lem drive r d i at)

    write_control :
        (r : Registers) (d : Drive P)
        → r.phase ≡ idle
        → At r c1 c2 d
        → Gives (write_port P 0x3F6 2) d (λ _. At r c1 c2)
    unfolding write_port
    write_control r d i (e, e1, e2) =
        let quiet = ap (λ q. q.phase) e ∙ i in
        let keeps = D.regs-control d.bus quiet ∙ e in
        record { answer = tt; final = _; run = refl; post = (keeps, e1, e2) }

    pub prepare_command_lem :
        (drive block : ℕ) (r : Registers) (d : Drive P)
        → block < 2 ^ 24
        → r.phase ≡ idle
        → At r c1 c2 d
        → Gives (prepare_command P drive block 1) d (λ _. At (prepared drive block r) c1 c2)
    unfolding prepare_command
    prepare_command_lem drive block r d lt i at =
        let r1 = latched 0x1F2 1 r in
        let r2 = latched 0x1F3 (block % 256) r1 in
        let r3 = latched 0x1F4 (block / 2 ^ 8 % 256) r2 in
        let r4 = latched 0x1F5 (block / 2 ^ 16 % 256) r3 in
        Gives-if_false (λ _. halted) _ (accepts block lt)
          (Gives-bind (write_control r d i at) (λ _ d0 at0.
            Gives-bind (write_register 0x1F2 1 r d0 i refl at0) (λ _ d1 at1.
              Gives-bind (write_register 0x1F3 _ r1 d1 i refl at1) (λ _ d2 at2.
                Gives-bind (write_register 0x1F4 _ r2 d2 i refl at2) (λ _ d3 at3.
                  Gives-bind (write_register 0x1F5 _ r3 d3 i refl at3) (λ _ d4 at4.
                    Gives-bind (write_register 0x1F6 _ r4 d4 i refl at4)
                      (λ _ d5 at5. Gives-return 0 d5 at5)))))))
