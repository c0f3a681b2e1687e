-- ===== src/Disk/Commands.antt =====
-- The commands of kernel/disk/disk.cpp: the soft reset, the selection of a drive, and the reading of
-- one sector.
use sepples_os.Prelude.{
  ℕ, zero, suc, ◌+◌, ◌*◌, ◌/◌, ◌%◌, ◌^◌, Bool, true, false, ◌&&◌, ◌||◌, Option, none, some, List,
  [], ◌∷◌, ltb, leb, ◌==◌, if◌then◌else◌, bit_or,
}
use sepples_os.Disk.{
  Ports, Config, missing, unknown, ata, atapi, halted, Io, Drive, ◌>>=◌, ◌>>◌, return, read_port,
  read_word, write_port, wait400ns, wait_loop, wait_ready, timeout,
}

abbrev pub is_missing : Config → Bool
is_missing missing = true
is_missing unknown = false
is_missing ata = false
is_missing atapi = false

-- `regConfigInfo[devId] < REG_CONFIG_TYPE_ATA`
abbrev pub below_ata : Config → Bool
below_ata missing = true
below_ata unknown = true
below_ata ata = false
below_ata atapi = false

-- `devId ? CB_DH_DEV1 : CB_DH_DEV0`
abbrev pub device_bits : ℕ → ℕ
device_bits zero = 0
device_bits (suc n) = 0x10

-- `(u8)(0xE0 | (drive << 4) | ((numblock >> 24) & 0x0F))`
unfoldable pub device_register : ℕ → ℕ → ℕ
device_register drive numblock = bit_or (bit_or 0xE0 (drive * 16)) (numblock / 2 ^ 24 % 16) % 256

-- The tests read the numbers as ints, so one of 2 ^ 31 or more is negative.
unfoldable pub is_refused : ℕ → ℕ → Bool
is_refused numblock count =
    (count == 0)
    || (ltb 255 count && ltb count (2 ^ 31))
    || (leb (16 * 1024 * 1024) numblock && ltb numblock (2 ^ 31))

module _ (P : Ports) where
  abbrev pub config_of : ℕ → Drive P → Config
  config_of zero d = d.first
  config_of (suc n) d = d.second

  unfoldable pub reset_first : Io (Drive P) (Unit {0})
  reset_first = do _ ← wait_loop P 0x1F7 0x80 timeout; return tt

  -- The rounds that are left when the second drive answers; 0 stands for its last round and for none.
  unfoldable pub reset_second_loop : ℕ → Io (Drive P) ℕ
  reset_second_loop zero = do
    write_port P 0x1F6 0
    wait400ns P
    _ ← read_port P 0x1F2
    _ ← read_port P 0x1F3
    return 0
  reset_second_loop (suc rounds) =
      let rest = reset_second_loop rounds in
      do
        write_port P 0x1F6 0
        wait400ns P
        sc ← read_port P 0x1F2
        sn ← read_port P 0x1F3
        if (sc == 1) && (sn == 1) then return (suc rounds) else rest

  unfoldable pub reset_second : Io (Drive P) (Unit {0})
  reset_second = do
    left ← reset_second_loop timeout
    if ltb 0 left then (do _ ← read_port P 0x1F7; return tt) else return tt

  abbrev pub unless_missing : Config → Io (Drive P) (Unit {0}) → Io (Drive P) (Unit {0})
  unless_missing c m = if is_missing c then return tt else m

  unfoldable pub soft_reset : Io (Drive P) (Unit {0})
  soft_reset = do
    write_port P 0x3F6 6
    wait400ns P
    write_port P 0x3F6 2
    wait400ns P
    λ d. unless_missing d.first reset_first d
    λ d. unless_missing d.second reset_second d

  unfoldable pub give_up : Io (Drive P) Bool
  give_up = do soft_reset; return false

  -- Waits for a drive without BSY and DRQ; these loops go round once more than the others.
  unfoldable pub wait_idle : Io (Drive P) Bool
  wait_idle = wait_loop P 0x1F7 0x88 (timeout + 1)

  unfoldable pub point_at : ℕ → Io (Drive P) (Unit {0})
  point_at drive = do write_port P 0x1F6 (device_bits drive); wait400ns P

  unfoldable pub select_known : ℕ → Io (Drive P) Bool
  select_known drive = do
    idle ← wait_idle
    if idle
        then (do point_at drive; selected ← wait_idle; if selected then return true else give_up)
        else give_up

  unfoldable pub select_device : ℕ → Io (Drive P) Bool
  select_device drive d =
      if ltb 1 drive
      then halted
      else if below_ata (config_of drive d)
      then (do point_at drive; return true) d
      else select_known drive d

  unfoldable pub prepare_command : ℕ → ℕ → ℕ → Io (Drive P) ℕ
  prepare_command drive numblock count = if is_refused numblock count then (λ _. halted) else (do
    write_port P 0x3F6 2
    write_port P 0x1F2 (count % 256)
    write_port P 0x1F3 (numblock % 256)
    write_port P 0x1F4 (numblock / 2 ^ 8 % 256)
    write_port P 0x1F5 (numblock / 2 ^ 16 % 256)
    write_port P 0x1F6 (device_register drive numblock)
    return 0)

  -- `words` rounds of the loop over the data port, as the bytes that they write.
  unfoldable pub read_words : ℕ → Io (Drive P) (List ℕ)
  read_words zero = return []
  read_words (suc words) =
      let rest = read_words words in
      do w ← read_word P 0x1F0; bytes ← rest; return (w % 256 ∷ w / 2 ^ 8 % 256 ∷ bytes)

  -- The bytes that the call writes to its buffer; `none` is the answer false, with nothing written.
  unfoldable pub read_sector : ℕ → ℕ → Io (Drive P) (Option (List ℕ))
  read_sector drive numblock = do
    selected ← select_device drive
    if selected
        then (do
          _ ← prepare_command drive numblock 1
          write_port P 0x1F7 0x20
          wait400ns P
          ready ← wait_ready P
          if ready then (do bytes ← read_words 256; return (some bytes)) else return none)
        else return none
