-- ===== src/Ext2/OnDrive.antt =====
-- The reads of kernel/disk/ext2.cpp from the drive of kernel/disk/disk.cpp.
