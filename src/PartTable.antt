-- ===== src/PartTable.antt =====
-- The partition tables of kernel/disk/partTable.cpp, read with `diskRead`, and their mounting. `stale`
-- is what a buffer holds before a read that fails.
pub mod Types
pub mod Entries
pub mod Checks
use sepples_os.Prelude.{
  ℕ, zero, suc, ◌+◌, ◌*◌, ◌%◌, ◌^◌, ◌==◌, if◌then◌else◌, Bool, true, false, Option, none, some,
  List, [], ◌∷◌, get_or,
}
use sepples_os.Disk.{Ports, Driver, Outcome, done, halted, Io, Drive, ◌>>=◌, ◌>>◌, return}
use sepples_os.Disk.Read.{disk_read}
use sepples_os.PartTable.Types.{Partition, PartType, linux, fat32, empty, unknown}
use sepples_os.Vfs.{State, Vfs, root, mount}

abbrev pub byte : List ℕ → ℕ → ℕ
byte buf i = get_or buf i 0

-- `*(u32*)(buf+i)`
unfoldable pub word32 : List ℕ → ℕ → ℕ
word32 buf i =
    byte buf i + 2 ^ 8 * byte buf (i + 1) + 2 ^ 16 * byte buf (i + 2) + 2 ^ 24 * byte buf (i + 3)

unfoldable pub part_type : ℕ → PartType
part_type code =
    if code == 0
    then empty
    else if code == 0xB
    then fat32
    else if code == 0x83
    then linux
    else unknown

unfoldable pub entry_of : ℕ → List ℕ → Partition
entry_of disk buf = record {
  start_lba = word32 buf 8;
  size_lba = word32 buf 12;
  disk_id = disk % 2 ^ 8;
  type = part_type (byte buf 4);
}

abbrev pub filled : List ℕ → Option (List ℕ) → List ℕ
filled stale none = stale
filled stale (some bytes) = bytes

-- Not EMPTY and not UNKNOWN
unfoldable pub is_mountable : PartType → Bool
is_mountable linux = true
is_mountable fat32 = true
is_mountable empty = false
is_mountable unknown = false

module _ (P : Ports) where
  unfoldable pub is_mbr : List ℕ → ℕ → Io (Drive P) Bool
  is_mbr stale disk = do
    answer ← disk_read P disk 0x1FE 2
    return (byte (filled stale answer) 0 + 2 ^ 8 * byte (filled stale answer) 1 == 0xAA55)

  -- `left` rounds of the loop from the entry `i` on, with the bytes of the round before.
  unfoldable pub read_entries : ℕ → ℕ → ℕ → List ℕ → Io (Drive P) (List Partition)
  read_entries disk zero i buf = return []
  read_entries disk (suc left) i buf =
      let rest = read_entries disk left (suc i) in
      do
        answer ← disk_read P disk (0x01BE + 16 * i) 16
        others ← rest (filled buf answer)
        return (entry_of disk (filled buf answer) ∷ others)

  unfoldable pub read_mbr : List ℕ → ℕ → Io (Drive P) (List Partition)
  read_mbr stale disk = read_entries disk 4 0 stale

  unfoldable pub read_table : List ℕ → ℕ → Io (Drive P) (List Partition)
  read_table stale disk = do mbr ← is_mbr stale disk; if mbr then read_mbr stale disk else return []

  abbrev pub lift : {S A : Type 0} → Outcome S A → (S → State S) → Outcome (State S) A
  lift (done a s) f = done a (f s)
  lift halted f = halted

  unfoldable pub on_disk : {A : Type 0} → Io (Drive P) A → Io (State (Drive P)) A
  on_disk m s = lift (m s.below) (λ d. record s { below = d })

  unfoldable pub mount_each : Vfs (Drive P) → List Partition → Io (State (Drive P)) (Unit {0})
  mount_each v [] = return tt
  mount_each v (part ∷ parts) =
      let rest = mount_each v parts in
      if is_mountable part.type then (do _ ← mount v part root none; rest) else rest

  unfoldable pub mount_all : List ℕ → ℕ → Vfs (Drive P) → Io (State (Drive P)) (Unit {0})
  mount_all stale disk v = do table ← on_disk (read_table stale disk); mount_each v table
