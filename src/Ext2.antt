-- ===== src/Ext2.antt =====
-- The file system of kernel/disk/ext2.cpp: the structures on the disk, and the description of a disk.
pub mod Files
pub mod Directories
pub mod Contents
pub mod Reading
pub mod Accepting
pub mod OnDrive
pub mod Entries
pub mod Listing
pub mod Checks
use sepples_os.Prelude.{
  ℕ, zero, suc, ◌+◌, ◌*◌, ◌/◌, ◌%◌, ◌^◌, ◌==◌, ltb, if◌then◌else◌, Bool, true, false, not, ◌||◌,
  Option, none, some, List, [], ◌∷◌, get_or, drop, bit_and, ◌-◌, ◌&&◌,
}
use sepples_os.Disk.{Outcome, done, halted, Io, ◌>>=◌, ◌>>◌, return, Ports, Drive}
use sepples_os.Disk.Read.{disk_read}
use sepples_os.PartTable.Types.{Partition}
use sepples_os.PartTable.{byte, word32, filled}

unfoldable pub word16 : List ℕ → ℕ → ℕ
word16 buf i = byte buf i + 2 ^ 8 * byte buf (i + 1)

-- `diskRead` of a device, an offset and a count into a buffer: what the buffer holds afterwards. After a
-- read that fails that is what it held before, which stays open here, as is what stands behind an array.
pub record Reader (S : Type 0) : Type 0 where
  pub read : ℕ → ℕ → ℕ → Io S (List ℕ)
  pub stray : ℕ → ℕ

unfoldable pub disk_reader : (P : Ports) → (ℕ → Drive P → List ℕ) → (ℕ → ℕ) → Reader (Drive P)
disk_reader P held stray = record {
  read = λ device offset count.
      disk_read P device offset count >>= λ answer d. done (filled (held count d) answer) d;
  stray = stray;
}

-- The fields that are read.
pub record SuperBlock : Type 0 where
  pub inodes_count : ℕ
  pub blocks_count : ℕ
  pub log_block_size : ℕ
  pub blocks_per_group : ℕ
  pub inodes_per_group : ℕ
  pub magic : ℕ
  pub inode_size : ℕ
  pub feature_incompat : ℕ

pub record Inode : Type 0 where
  pub mode : ℕ
  pub size : ℕ
  pub block : List ℕ

-- `inode_table` has the field bgInodeTable of each group.
pub record Ext2Disk : Type 0 where
  pub device : ℕ
  pub part : Partition
  pub sb : SuperBlock
  pub blocksize : ℕ
  pub groups : ℕ
  pub inode_table : List ℕ

unfoldable pub super_block_of : List ℕ → SuperBlock
super_block_of buf = record {
  inodes_count = word32 buf 0;
  blocks_count = word32 buf 4;
  log_block_size = word32 buf 24;
  blocks_per_group = word32 buf 32;
  inodes_per_group = word32 buf 40;
  magic = word16 buf 56;
  inode_size = word16 buf 88;
  feature_incompat = word32 buf 96;
}

-- `n` 32-bit numbers, `stride` bytes apart.
unfoldable pub words_of : ℕ → ℕ → List ℕ → List ℕ
words_of zero stride buf = []
words_of (suc n) stride buf = word32 buf 0 ∷ words_of n stride (drop stride buf)

unfoldable pub inode_of : List ℕ → Inode
inode_of buf = record {
  mode = word16 buf 0;
  size = word32 buf 4;
  block = words_of 15 4 (drop 40 buf);
}

-- `a / b` rounded up, on 32 bits
unfoldable pub div_up : ℕ → ℕ → ℕ
div_up a b = (if b == 0 then 0 else a / b + (if a % b == 0 then 0 else 1)) % 2 ^ 32

-- `(i > j) ? i : j` on ints, cut to 16 bits
unfoldable pub max_groups : ℕ → ℕ → ℕ
max_groups i j = (if ltb ((j + 2 ^ 31) % 2 ^ 32) ((i + 2 ^ 31) % 2 ^ 32) then i else j) % 2 ^ 16

unfoldable pub groups_of : SuperBlock → ℕ
groups_of sb =
    max_groups (div_up sb.blocks_count sb.blocks_per_group)
      (div_up sb.inodes_count sb.inodes_per_group)

-- The features without which a partition cannot be read, in the order of the tests.
abbrev pub unsupported : List ℕ
unsupported =
    0x1 ∷ 0x4 ∷ 0x8 ∷ 0x10 ∷ 0x40 ∷ 0x80 ∷ 0x100 ∷ 0x200 ∷ 0x400 ∷ 0x1000 ∷ 0x2000 ∷ 0x4000 ∷ 0x8000
    ∷ []

unfoldable pub has_any : List ℕ → ℕ → Bool
has_any [] features = false
has_any (f ∷ fs) features = not (bit_and features f == 0) || has_any fs features

abbrev pub partition_start : Partition → ℕ
partition_start part = part.start_lba * 512 % 2 ^ 64

-- `1024 << sLogBlockSize`, with a shift by the low 5 bits as the machine does it
abbrev pub blocksize_of : SuperBlock → ℕ
blocksize_of sb = 1024 * 2 ^ (sb.log_block_size % 32) % 2 ^ 32

-- The tests of the features, once the groups are read.
unfoldable pub check_features : Ext2Disk → Option Ext2Disk
check_features hd = if has_any unsupported hd.sb.feature_incompat then none else some hd

-- The marks without which the groups are not read.
unfoldable pub is_ext2 : SuperBlock → Bool
is_ext2 sb = (sb.magic == 0xef53) && not ((sb.blocks_per_group == 0) || (sb.inodes_per_group == 0))

module _ {S : Type 0} (R : Reader S) where
  unfoldable pub read_sb : ℕ → ℕ → Io S SuperBlock
  read_sb device start = do
    buf ← R.read device ((start + 1024) % 2 ^ 64) 1024
    return (super_block_of buf)

  unfoldable pub read_gd : ℕ → ℕ → ℕ → ℕ → Io S (List ℕ)
  read_gd device blocksize groups start = do
    buf ←
        R.read device ((start + (if blocksize == 1024 then 2048 else blocksize)) % 2 ^ 64)
          (groups * 32)
    return (words_of groups 32 (drop 8 buf))

  unfoldable pub describe : ℕ → Partition → SuperBlock → Io S (Option Ext2Disk)
  describe device part sb = do
    table ← read_gd device (blocksize_of sb) (groups_of sb) (partition_start part)
    return (
        check_features (record {
          device = device;
          part = part;
          sb = sb;
          blocksize = blocksize_of sb;
          groups = groups_of sb;
          inode_table = table;
        }))

  unfoldable pub get_disk_info : ℕ → Partition → Io S (Option Ext2Disk)
  get_disk_info device part = do
    sb ← read_sb device (partition_start part)
    if is_ext2 sb then describe device part sb else return none

  -- A group out of range reads what stands behind the array.
  abbrev pub table_of : Ext2Disk → ℕ → ℕ
  table_of hd group = get_or hd.inode_table group (R.stray group)

  -- Where an inode stands. The product of 32-bit numbers wraps.
  unfoldable pub inode_position : Ext2Disk → ℕ → ℕ
  inode_position hd inum =
      let n = (inum + (2 ^ 32 - 1)) % 2 ^ 32 in
      let offset =
        table_of hd (n / hd.sb.inodes_per_group) * hd.blocksize % 2 ^ 32
        + n % hd.sb.inodes_per_group * hd.sb.inode_size in
      (partition_start hd.part + offset) % 2 ^ 64

  unfoldable pub read_inode : Ext2Disk → ℕ → Io S (Option Inode)
  read_inode hd inum =
      if hd.sb.inodes_per_group == 0
      then return none
      else (do buf ← R.read hd.device (inode_position hd inum) 128; return (some (inode_of buf)))
