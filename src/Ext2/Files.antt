-- ===== src/Ext2/Files.antt =====
-- `ext2ReadFile` of kernel/disk/ext2.cpp.
use sepples_os.Prelude.{
  ℕ, zero, suc, ◌+◌, ◌-◌, ◌*◌, ◌/◌, ◌%◌, ◌^◌, ◌==◌, ltb, if◌then◌else◌, List, [], ◌∷◌, ◌++◌, get_or,
  take,
}
use sepples_os.Disk.{Io, ◌>>=◌, return}
use sepples_os.Ext2.{Reader, Inode, Ext2Disk, words_of, partition_start}

-- The bytes that are copied, and `size`, the number that is still to be copied.
pub record Copy : Type 0 where
  pub out : List ℕ
  pub size : ℕ

-- `memcpy(mmapHead, buf, n)` with the steps of `mmapHead` and `size`
unfoldable pub copy_block : ℕ → List ℕ → Copy → Copy
copy_block blocksize buf c =
    let n = if ltb blocksize c.size then blocksize else c.size in
    record { out = c.out ++ take n buf; size = c.size - n }

-- A loop over block numbers, up to the first 0.
unfoldable pub each_block : {S : Type 0} → (ℕ → Copy → Io S Copy) → List ℕ → Copy → Io S Copy
each_block next [] c = return c
each_block next (p ∷ ps) c = if p == 0 then return c else (next p c >>= λ c'. each_block next ps c')

-- Where a block stands: the product of 32-bit numbers wraps.
unfoldable pub block_position : Ext2Disk → ℕ → ℕ
block_position hd p = (partition_start hd.part + p * hd.blocksize % 2 ^ 32) % 2 ^ 64

-- The product with a 64-bit block size, which the first indirect block alone has.
unfoldable pub wide_position : Ext2Disk → ℕ → ℕ
wide_position hd p = (partition_start hd.part + p * hd.blocksize % 2 ^ 64) % 2 ^ 64

module _ {S : Type 0} (R : Reader S) (hd : Ext2Disk) where
  -- The block at a position: data at the level 0, else numbers of blocks of the level below. The loops
  -- over `p`, `pp` and `ppp` are those of the levels 3, 2 and 1.
  unfoldable pub read_level : ℕ → ℕ → Copy → Io S Copy
  read_level zero at c = do
    buf ← R.read hd.device at hd.blocksize
    return (copy_block hd.blocksize buf c)
  read_level (suc level) at c = do
    buf ← R.read hd.device at hd.blocksize
    each_block (λ p. read_level level (block_position hd p)) (words_of (hd.blocksize / 4) 4 buf) c

  unfoldable pub read_tree : ℕ → ℕ → ℕ → Copy → Io S Copy
  read_tree level p at c = if p == 0 then return c else read_level level at c

  -- The bytes that are copied, and how many are not.
  unfoldable pub read_file : Inode → Io S Copy
  read_file inode = do
    direct ←
        each_block (λ p. read_level 0 (block_position hd p)) (take 12 inode.block)
          (record { out = []; size = inode.size })
    single ←
        read_tree 1 (get_or inode.block 12 0) (wide_position hd (get_or inode.block 12 0)) direct
    double ←
        read_tree 2 (get_or inode.block 13 0) (block_position hd (get_or inode.block 13 0)) single
    read_tree 3 (get_or inode.block 14 0) (block_position hd (get_or inode.block 14 0)) double
