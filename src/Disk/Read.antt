-- ===== src/Disk/Read.antt =====
-- `diskRead` of kernel/disk/disk.cpp. What a call does to the heap is left out.
use sepples_os.Prelude.{
  ℕ, zero, suc, ◌+◌, ◌-◌, ◌/◌, ◌%◌, ◌^◌, Option, none, some, List, [], ◌++◌, take, drop,
}
use sepples_os.Disk.{Ports, Io, Drive, ◌>>=◌, return}
use sepples_os.Disk.Commands.{read_sector}

-- `blEnd` and `blocks`, on 64 bits
unfoldable pub last_block : ℕ → ℕ → ℕ
last_block offset count = (offset + count + (2 ^ 64 - 1)) % 2 ^ 64 / 512

unfoldable pub blocks_of : ℕ → ℕ → ℕ
blocks_of offset count = (last_block offset count + 2 ^ 64 - offset / 512 + 1) % 2 ^ 64

module _ (P : Ports) where
  unfoldable pub read_twice : ℕ → ℕ → Io (Drive P) (Option (List ℕ))
  read_twice drive block = do
    answer ← read_sector P drive block
    elim answer [ some bytes ↦ return (some bytes) | none ↦ read_sector P drive block ]

  -- The loop over the blocks from `block` on, with the block number cut to an int.
  unfoldable pub read_blocks : ℕ → ℕ → ℕ → Io (Drive P) (Option (List ℕ))
  read_blocks drive block zero = return (some [])
  read_blocks drive block (suc blocks) =
      let rest = read_blocks drive (suc block) blocks in
      do
        answer ← read_twice drive (block % 2 ^ 32)
        elim answer [
          | none ↦ return none
          | some bytes ↦ (do
            more ← rest
            elim more [ none ↦ return none | some others ↦ return (some (bytes ++ others)) ])
        ]

  -- The bytes that the call writes to `dest`; `none` is the answer 0, with nothing written.
  unfoldable pub disk_read : ℕ → ℕ → ℕ → Io (Drive P) (Option (List ℕ))
  disk_read drive offset count = do
    answer ← read_blocks drive (offset / 512) (blocks_of offset count)
    elim answer [
      | none ↦ return none
      | some bytes ↦ return (some (take count (drop (offset % 512) bytes)))
    ]
