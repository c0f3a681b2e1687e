-- ===== src/Disk/Probe.antt =====
-- `init` of kernel/disk/disk.cpp, up to the text that it prints, and what it finds without a drive.
use sepples_os.Prelude.{ℕ, zero, suc, not, ◌&&◌, ◌||◌, ◌==◌, if◌then◌else◌}
use sepples_os.Disk.{
  Ports, Config, missing, unknown, ata, atapi, Driver, done, Io, Drive, ◌>>=◌, ◌>>◌, return,
  read_port, write_port,
}
use sepples_os.Disk.Commands.{soft_reset, point_at}

abbrev pub set_config : {S : Type 0} → ℕ → Config → Driver S → Driver S
set_config zero c d = record d { first = c }
set_config (suc n) c d = record d { second = c }

-- The type that the cylinder registers and the status announce, of a drive that is there.
unfoldable pub type_of : ℕ → ℕ → ℕ → Config
type_of st cl ch =
    if ((cl == 0x14) && (ch == 0xeb)) || ((cl == 0x69) && (ch == 0x96))
    then atapi
    else if not (st == 0) && (((cl == 0) && (ch == 0)) || ((cl == 0x3c) && (ch == 0xc3)))
    then ata
    else unknown

module _ (P : Ports) where
  abbrev pub configure : ℕ → Config → Io (Drive P) (Unit {0})
  configure n c d = done tt (set_config n c d)

  -- Writes two patterns to a drive and takes it for there when the last one reads back.
  unfoldable pub poke : ℕ → Io (Drive P) (Unit {0})
  poke n = do
    point_at P n
    write_port P 0x1F2 0x55
    write_port P 0x1F3 0xaa
    write_port P 0x1F2 0xaa
    write_port P 0x1F3 0x55
    write_port P 0x1F2 0x55
    write_port P 0x1F3 0xaa
    sc ← read_port P 0x1F2
    sn ← read_port P 0x1F3
    if (sc == 0x55) && (sn == 0xaa) then configure n unknown else return tt

  unfoldable pub probe : ℕ → Io (Drive P) (Unit {0})
  probe n = do
    point_at P n
    sc ← read_port P 0x1F2
    sn ← read_port P 0x1F3
    if (sc == 1) && (sn == 1)
        then (do
          st ← read_port P 0x1F7
          cl ← read_port P 0x1F4
          ch ← read_port P 0x1F5
          configure n (type_of st cl ch))
        else return tt

  unfoldable pub init : Io (Drive P) (Unit {0})
  init = do
    configure 0 missing
    configure 1 missing
    write_port P 0x3F6 2
    poke 0
    poke 1
    point_at P 0
    soft_reset P
    probe 0
    probe 1
