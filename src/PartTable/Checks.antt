-- ===== src/PartTable/Checks.antt =====
-- The tables of kernel/disk/partTable.cpp on a concrete drive.
use sepples_os.Prelude.{ℕ, ◌<◌, ◌^◌, ◌≡◌, refl, ◌==◌, if◌then◌else◌, [], ◌∷◌, arith}
use sepples_os.Disk.Device.{idle}
use sepples_os.Disk.Simulated.{device, device-IsDevice, started}
use sepples_os.Disk.Triples.{Gives}
use sepples_os.PartTable.Types.{Partition, linux, empty}
use sepples_os.PartTable.{read_table}
use sepples_os.PartTable.Entries.{table_of, IsTableOf, read_table-IsTableOf}

-- A first sector with a Linux partition of 0x20000 blocks at the block 0x800, and the mark.
abbrev sector : ℕ → ℕ → ℕ
sector drive address =
    if address == 0x1FE
    then 0x55
    else if address == 0x1FF
    then 0xAA
    else if address == 0x1C2
    then 0x83
    else if address == 0x1C7
    then 8
    else if address == 0x1CC
    then 2
    else 0

sector-small : (drive address : ℕ) → sector drive address < 2 ^ 8
sector-small drive address = ground arith

abbrev nothing : Partition
nothing = record { start_lba = 0; size_lba = 0; disk_id = 0; type = empty }

sector_table :
    table_of (sector 0) 0
    ≡ record { start_lba = 0x800; size_lba = 0x20000; disk_id = 0; type = linux }
      ∷ nothing
      ∷ nothing
      ∷ nothing
      ∷ []
unfolding table_of sepples_os.PartTable.entry_of sepples_os.PartTable.word32
    sepples_os.PartTable.part_type
sector_table = refl

read_table-IsTableOf_example :
    Gives
      (read_table (device sector) (1 ∷ 2 ∷ []) 0)
      started
      (λ table d'. IsTableOf (sector 0) 0 table × (d'.bus.phase ≡ idle))
unfolding device-IsDevice
read_table-IsTableOf_example =
    read_table-IsTableOf (device sector) sector 5 (device-IsDevice sector sector-small) 0
      (1 ∷ 2 ∷ []) started (omega arith) (omega arith) refl refl
