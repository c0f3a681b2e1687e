-- ===== src/Ext2/Accepting.antt =====
-- The partitions that `ext2GetDiskInfo` of kernel/disk/ext2.cpp accepts.
use sepples_os.Prelude.{ℕ, ◌≡◌, ◌≢◌, Bool, Option, none, List, [], ◌∷◌, bit_and}
use sepples_os.Disk.{Outcome, done, halted}
use sepples_os.Ext2.{SuperBlock}

-- No bit of the list is set.
abbrev pub AllClear : List ℕ → ℕ → Type 0
AllClear [] features = Unit
AllClear (f ∷ fs) features = (bit_and features f ≡ 0) × AllClear fs features

-- Compression, recovery of the journal, a journal device, meta block groups, extents, 64-bit sizes,
-- protection against mounting twice, flexible block groups, attributes in inodes, data in entries,
-- checksums, large directories, and data in inodes.
abbrev pub refused_features : List ℕ
refused_features =
    0x1 ∷ 0x4 ∷ 0x8 ∷ 0x10 ∷ 0x40 ∷ 0x80 ∷ 0x100 ∷ 0x200 ∷ 0x400 ∷ 0x1000 ∷ 0x2000 ∷ 0x4000 ∷ 0x8000
    ∷ []

-- The marks of ext2, no division by zero, and none of those features.
abbrev pub IsUsable : SuperBlock → Type 0
IsUsable sb =
    (sb.magic ≡ 0xef53)
    × (sb.blocks_per_group ≢ 0)
    × (sb.inodes_per_group ≢ 0)
    × AllClear refused_features sb.feature_incompat

abbrev answer_of : {S A : Type 0} → Outcome S (Option A) → Option A
answer_of (done o s) = o
answer_of halted = none
