-- ===== src/Ext2/Checks.antt =====
-- Files, directories and partitions of kernel/disk/ext2.cpp on concrete disks.
use sepples_os.Prelude.{ℕ, zero, suc, ◌≡◌, refl, min, some, List, [], ◌∷◌, ◌++◌, take, arith}
use sepples_os.Disk.{done}
use sepples_os.Disk.Device.{bytes_of}
use sepples_os.Disk.Triples.{Gives, Gives-weaken}
use sepples_os.PartTable.Types.{Partition, linux}
use sepples_os.Ext2.{Reader, Inode, Ext2Disk, SuperBlock}
use sepples_os.Ext2.Files.{Copy, read_file}
use sepples_os.Ext2.Directories.{NodeExt2, NodeType, file, top, lookup, read_node}
use sepples_os.Ext2.Contents.{contents_of}
use sepples_os.Ext2.Entries.{DirEntry, IsEntry, encode_all}
use sepples_os.Ext2.Listing.{heads, listing_of, lookup-listing_of}
use sepples_os.Ext2.Reading.{read_file-contents_of, read_node-answer}
use sepples_os.Disk.Simulated.{device}

abbrev part : Partition
part = record { start_lba = 0x800; size_lba = 0x8000; disk_id = 0; type = linux }

abbrev super : SuperBlock
super = record {
  inodes_count = 8;
  blocks_count = 64;
  log_block_size = 0;
  blocks_per_group = 64;
  inodes_per_group = 8;
  magic = 0xef53;
  inode_size = 128;
  feature_incompat = 2;
}

abbrev disk : Ext2Disk
disk = record {
  device = 0;
  part = part;
  sb = super;
  blocksize = 1024;
  groups = 1;
  inode_table = 5 ∷ [];
}

-- A disk that is read without a state.
abbrev pure_reader : (ℕ → ℕ) → Reader ℕ
pure_reader image = record {
  read = λ device offset count s. done (bytes_of image offset count) s;
  stray = λ i. 0;
}

abbrev image : ℕ → ℕ
image address = 7

abbrev small_file : Inode
small_file = record { mode = 0x8000; size = 1030; block = 20 ∷ 21 ∷ 0 ∷ [] }

-- The entries `.` and `ab`.
abbrev entries : List DirEntry
entries =
    record { inum = 2; kind = 2; name = 46 ∷ []; padding = 0 ∷ 0 ∷ 0 ∷ [] }
    ∷ record { inum = 11; kind = 1; name = 97 ∷ 98 ∷ []; padding = 0 ∷ 0 ∷ [] }
    ∷ []

dots-IsEntry : IsEntry (record { inum = 2; kind = 2; name = 46 ∷ []; padding = 0 ∷ 0 ∷ 0 ∷ [] })
dots-IsEntry = record {
  in_use = omega arith;
  inum_fits = omega arith;
  size_fits = omega arith;
  name_fits = omega arith;
  plain = ((λ e. omega (arith, e)), tt);
}

ab-IsEntry : IsEntry (record { inum = 11; kind = 1; name = 97 ∷ 98 ∷ []; padding = 0 ∷ 0 ∷ [] })
ab-IsEntry = record {
  in_use = omega arith;
  inum_fits = omega arith;
  size_fits = omega arith;
  name_fits = omega arith;
  plain = ((λ e. omega (arith, e)), ((λ e. omega (arith, e)), tt));
}

-- A disk whose blocks all hold these entries.
abbrev listing_reader : Reader ℕ
listing_reader = record {
  read = λ device offset count s. done (encode_all entries) s;
  stray = λ i. 0;
}

abbrev folder : NodeExt2
folder = record {
  name = [];
  hd = disk;
  inum = 2;
  inode = record { mode = 0x41ED; size = 24; block = 30 ∷ [] };
  type = top;
}

inode_ends : (offset s : ℕ) → Gives (listing_reader.read 0 offset 128) s (λ _ _. Unit {0})
inode_ends offset s = record { answer = encode_all entries; final = s; run = refl; post = tt }

lookup-listing_of_example :
    Gives (lookup listing_reader (9 ∷ 9 ∷ []) folder) 0 (λ l _. heads l ≡ some (listing_of entries))
unfolding encode_all sepples_os.Ext2.Entries.encode sepples_os.Ext2.Directories.is_directory
    read_file sepples_os.Ext2.Files.copy_block sepples_os.Ext2.Files.each_block
    sepples_os.Ext2.Files.read_level sepples_os.Ext2.Files.read_tree
lookup-listing_of_example =
    lookup-listing_of listing_reader folder entries (9 ∷ 9 ∷ []) 0
      (inode_ends 0, (inode_ends 0, tt)) refl refl (dots-IsEntry, (ab-IsEntry, tt)) (omega arith)
      refl (record { answer = _; final = 0; run = refl; post = refl })

abbrev zeros : ℕ → List ℕ
zeros zero = []
zeros (suc n) = 0 ∷ zeros n

abbrev super_bytes : List ℕ
super_bytes =
    8
    ∷ 0
    ∷ 0
    ∷ 0
    ∷ 64
    ∷ (zeros 27
        ++ (64
            ∷ (zeros 7
                ++ (8
                    ∷ (zeros 15 ++ (0x53 ∷ 0xef ∷ (zeros 30 ++ (128 ∷ (zeros 7 ++ (2 ∷ []))))))))))

abbrev super_reader : Reader ℕ
super_reader = record { read = λ device offset count s. done super_bytes s; stray = λ i. 0 }

abbrev document : NodeExt2
document = record { name = 97 ∷ []; hd = disk; inum = 11; inode = small_file; type = file }

small_copied :
    Gives
      (read_file (pure_reader image) disk small_file)
      0
      (λ c _. c.out ≡ take 1030 (contents_of disk image small_file))
small_copied =
    Gives-weaken
      (read_file-contents_of (pure_reader image) disk image (λ s. Unit {0}) small_file 0
        (λ offset s fits good. record { answer = _; final = s; run = refl; post = (refl, tt) })
        (omega arith) (omega arith) tt)
      (λ c s h. h.0)

read_node-answer_example :
    Gives
      (read_node (pure_reader image) document 2000)
      0
      (λ r _. (r.0 ≡ take (min 2000 1030) (contents_of disk image small_file)) × (r.1 ≡ 0))
read_node-answer_example =
    read_node-answer (pure_reader image) document 2000 (contents_of disk image small_file) 0 refl
      small_copied

abbrev sevens : ℕ → ℕ → ℕ
sevens drive address = 7
