-- ===== src/Disk/Reading.antt =====
-- `readSector` and `diskRead` of kernel/disk/disk.cpp over a device that works.
use sepples_os.Prelude.{
  ℕ, zero, suc, ◌+◌, ◌*◌, ◌/◌, ◌%◌, ◌^◌, ◌<◌, ◌≤◌, ◌≡◌, refl, sym, ap, ap₂, ◌∙◌, false, [], take,
  drop, some, inl, arith, ◌-◌,
}
use sepples_os.Disk.{Ports, Config, Drive, write_port, timeout}
use sepples_os.Disk.Commands.{read_sector, below_ata, config_of, device_bits}
use sepples_os.Disk.Read.{last_block, blocks_of, read_twice, read_blocks, disk_read}
use sepples_os.Disk.Device.{
  IsDevice, Registers, idle, seeking, latched, block_of, drive_of, is_lba, bytes_of,
}
use sepples_os.Disk.Addresses.{prepared-names}
use sepples_os.Disk.Bytes.{slice-bytes_of, sectors-join}
use sepples_os.Disk.Triples.{Gives, Gives-return, Gives-bind, Gives-weaken, Gives-if_true}
use sepples_os.Disk.Preparing.{
  At, prepared, select_device_lem, prepare_command_lem, Known, below_ata-Known, Known-below_ata,
}
use sepples_os.Disk.Sectors.{In, wait400ns-Pending, wait_ready_lem, read_words_lem, reached_open}

the_start : (block : ℕ) → 512 * block + 2 * 0 ≡ 512 * block
the_start block = omega arith

blocks_of_lem :
    (offset count : ℕ)
    → 0 < count
    → offset + count ≤ 2 ^ 33
    → blocks_of offset count ≡ (offset + count - 1) / 512 - offset / 512 + 1
unfolding blocks_of last_block
blocks_of_lem offset count positive fits =
    let last : (offset + count + (2 ^ 64 - 1)) % 2 ^ 64 / 512 ≡ (offset + count - 1) / 512 =
      omega arith in
    let n = (offset + count - 1) / 512 in
    let blocks : (n + 2 ^ 64 - offset / 512 + 1) % 2 ^ 64 ≡ n - offset / 512 + 1 = omega arith in
    ap (λ x. (x + 2 ^ 64 - offset / 512 + 1) % 2 ^ 64) last ∙ blocks

-- The blocks hold the bytes that are wanted, and lie below the 24 bits of a block number.
blocks_of-fit :
    (offset count : ℕ)
    → 0 < count
    → offset + count ≤ 2 ^ 33
    → (offset % 512 + count ≤ 512 * blocks_of offset count)
      × (offset / 512 + blocks_of offset count ≤ 2 ^ 24)
blocks_of-fit offset count positive fits =
    let e = blocks_of_lem offset count positive fits in (omega (arith, e), omega (arith, e))

wanted :
    (f : ℕ → ℕ) (offset count blocks : ℕ)
    → offset % 512 + count ≤ 512 * blocks
    → take count (drop (offset % 512) (bytes_of f (512 * (offset / 512)) (512 * blocks)))
      ≡ bytes_of f offset count
wanted f offset count blocks inside =
    let whole : 512 * (offset / 512) + offset % 512 ≡ offset = omega arith in
    slice-bytes_of f (512 * (offset / 512)) (offset % 512) count (512 * blocks) inside
    ∙ ap (λ a. bytes_of f a count) whole

module _ (P : Ports) (image : ℕ → ℕ → ℕ) (delay : ℕ) (D : IsDevice P image delay) where
  module _ (drive : ℕ) (c1 c2 : Config) where
    send_command :
        (block : ℕ) (r : Registers) (d : Drive P)
        → drive ≤ 1
        → block < 2 ^ 24
        → r.phase ≡ idle
        → At P image delay D (prepared drive block r) c1 c2 d
        → Gives
            (write_port P 0x1F7 0x20)
            d
            (λ _. In P image delay D (seeking delay drive block) c1 c2)
    unfolding write_port
    send_command block r d le lt i (e, e1, e2) =
        let (names_drive, names_block, lba) = prepared-names drive block r le lt in
        let quiet = ap (λ q. q.phase) e ∙ i in
        let starts = D.regs-command d.bus quiet (ap (λ q. q.count) e) (ap is_lba e ∙ lba) in
        let there =
          ap₂ (seeking delay) (ap drive_of e ∙ names_drive) (ap block_of e ∙ names_block) in
        record { answer = tt; final = _; run = refl; post = (starts ∙ there, e1, e2) }

    read_sector_lem :
        (block : ℕ) (d : Drive P)
        → drive ≤ 1
        → delay < timeout
        → Known drive c1 c2
        → block < 2 ^ 24
        → In P image delay D idle c1 c2 d
        → Gives (read_sector P drive block) d (λ o d'.
          (o ≡ some (bytes_of (image drive) (512 * block) 512)) × In P image delay D idle c1 c2 d')
    unfolding read_sector
    read_sector_lem block d le quick known lt i =
        let r = D.regs d.bus in
        let all : bytes_of (image drive) (512 * block + 2 * 0) (2 * 256)
            ≡ bytes_of (image drive) (512 * block) 512 =
          ap (λ a. bytes_of (image drive) a 512) (the_start block) in
        let r' = latched 0x1F6 (device_bits drive) r in
        Gives-bind
          (select_device_lem P image delay D c1 c2 drive r d le
            (Known-below_ata P drive d known (i.1, i.2)) i.0 (refl, i.1, i.2))
          (λ b d1 (eb, at1). Gives-if_true _ b eb (
            Gives-bind (prepare_command_lem P image delay D c1 c2 drive block r' d1 lt i.0 at1)
              (λ _ d2 at2. Gives-bind (send_command block r' d2 le lt i.0 at2) (λ _ d3 i3.
                Gives-bind
                  (wait400ns-Pending P image delay D drive block c1 c2 timeout d3
                    (inl (delay, quick, i3)))
                  (λ _ d4 p4.
                    Gives-bind (wait_ready_lem P image delay D drive block c1 c2 d4 p4)
                      (λ b2 d5 (eb2, i5). Gives-if_true _ b2 eb2 (
                        Gives-bind
                          (read_words_lem P image delay D drive block c1 c2 256 0 d5 refl (
                            i5.0
                                ∙ sym (
                                    reached_open P image delay D drive block c1 c2 0 (omega arith)),
                            i5.1,
                            i5.2,
                          ))
                          (λ bytes d6 (e6, i6).
                            Gives-return (some bytes) d6 (ap some (e6 ∙ all), i6)))))))))

    read_twice_lem :
        (block : ℕ) (d : Drive P)
        → drive ≤ 1
        → delay < timeout
        → Known drive c1 c2
        → block < 2 ^ 24
        → In P image delay D idle c1 c2 d
        → Gives (read_twice P drive block) d (λ o d'.
          (o ≡ some (bytes_of (image drive) (512 * block) 512)) × In P image delay D idle c1 c2 d')
    unfolding read_twice
    read_twice_lem block d le quick known lt i =
        Gives-bind (read_sector_lem block d le quick known lt i)
          (λ o d1 (e, i1). rw e (Gives-return _ d1 (refl, i1)))

    read_blocks_lem :
        (blocks block : ℕ) (d : Drive P)
        → drive ≤ 1
        → delay < timeout
        → Known drive c1 c2
        → block + blocks ≤ 2 ^ 24
        → In P image delay D idle c1 c2 d
        → Gives (read_blocks P drive block blocks) d (λ o d'.
          (o ≡ some (bytes_of (image drive) (512 * block) (512 * blocks)))
          × In P image delay D idle c1 c2 d')
    unfolding read_blocks
    read_blocks_lem zero block d le quick known fits i = Gives-return (some []) d (refl, i)
    read_blocks_lem (suc blocks) block d le quick known fits i =
        let small : block % 2 ^ 32 ≡ block = omega arith in
        rw small (
          Gives-bind (read_twice_lem block d le quick known (omega arith) i) (λ o d1 (e, i1). rw e (
            Gives-bind (read_blocks_lem blocks (suc block) d1 le quick known (omega arith) i1)
              (λ o2 d2 (e2, i2).
                rw e2
                  (Gives-return _ d2 (ap some (sectors-join (image drive) block blocks), i2))))))

    pub disk_read_lem :
        (offset count : ℕ) (d : Drive P)
        → drive ≤ 1
        → delay < timeout
        → Known drive c1 c2
        → 0 < count
        → offset + count ≤ 2 ^ 33
        → In P image delay D idle c1 c2 d
        → Gives (disk_read P drive offset count) d (λ o d'.
          (o ≡ some (bytes_of (image drive) offset count)) × In P image delay D idle c1 c2 d')
    unfolding disk_read
    disk_read_lem offset count d le quick known some_bytes fits i =
        let n = blocks_of offset count in
        let (inside, last) = blocks_of-fit offset count some_bytes fits in
        Gives-bind (read_blocks_lem n (offset / 512) d le quick known last i) (λ o d1 (e, i1).
          rw e (Gives-return _ d1 (ap some (wanted (image drive) offset count n inside), i1)))

-- Over an idle device of a known type, a read of some bytes below 8 GiB returns the bytes of the
-- drive at the offset, and leaves the device idle.
pub disk_read-bytes_of :
    (P : Ports) (image : ℕ → ℕ → ℕ) (delay : ℕ) (D : IsDevice P image delay)
    (drive offset count : ℕ) (d : Drive P)
    → drive ≤ 1
    → delay < timeout
    → below_ata (config_of P drive d) ≡ false
    → 0 < count
    → offset + count ≤ 2 ^ 33
    → (D.regs d.bus).phase ≡ idle
    → Gives
        (disk_read P drive offset count)
        d
        (λ o d'. (o ≡ some (bytes_of (image drive) offset count)) × ((D.regs d'.bus).phase ≡ idle))
disk_read-bytes_of P image delay D drive offset count d le quick known positive fits i =
    let k = below_ata-Known P drive d known in
    Gives-weaken
      (disk_read_lem P image delay D drive d.first d.second offset count d le quick k positive fits
        (i, refl, refl))
      (λ o d' (e, q). (e, q.0))
