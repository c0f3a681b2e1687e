-- ===== src/PartTable/Types.antt =====
-- The partitions of kernel/disk/partTable.h.
use sepples_os.Prelude.{ℕ}

pub data PartType : Type 0 where
  linux fat32 empty unknown : PartType

pub record Partition : Type 0 where
  pub start_lba : ℕ
  pub size_lba : ℕ
  pub disk_id : ℕ
  pub type : PartType
