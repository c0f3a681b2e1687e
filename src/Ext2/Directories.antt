-- ===== src/Ext2/Directories.antt =====
-- The nodes of kernel/disk/ext2.cpp: the listing of a directory, and the reading of a file.
use sepples_os.Prelude.{
  ℕ, zero, suc, ◌+◌, ◌-◌, ◌%◌, ◌^◌, ◌==◌, ltb, if◌then◌else◌, Bool, true, false, not, ◌||◌, Option,
  none, some, List, [], ◌∷◌, ◌++◌, take, drop, bit_and,
}
use sepples_os.Disk.{halted, Io, ◌>>=◌, return}
use sepples_os.Strings.{strcmp}
use sepples_os.PartTable.{byte, word32}
use sepples_os.PartTable.Types.{Partition}
use sepples_os.Vfs.Path.{dot, dot_dot}
use sepples_os.Ext2.{Reader, Inode, Ext2Disk, word16, read_inode, get_disk_info}
use sepples_os.Ext2.Files.{read_file}

pub data NodeType : Type 0 where
  unknown directory file top : NodeType

-- A node without its parent and its children.
pub record NodeExt2 : Type 0 where
  pub name : List ℕ
  pub hd : Ext2Disk
  pub inum : ℕ
  pub inode : Inode
  pub type : NodeType

-- The children that are made, or no end within the rounds that are counted.
pub data Listing : Type 0 where
  listed : List NodeExt2 → Listing
  out_of_fuel : Listing

unfoldable pub is_directory : Inode → Bool
is_directory inode = not (bit_and inode.mode 0x4000 == 0)

-- The fields of the entry at the head of a buffer.
abbrev pub entry_inode : List ℕ → ℕ
entry_inode buf = word32 buf 0

abbrev pub rec_len : List ℕ → ℕ
rec_len buf = word16 buf 4

abbrev pub name_len : List ℕ → ℕ
name_len buf = byte buf 6

-- The characters before the first 0.
unfoldable pub c_string : List ℕ → List ℕ
c_string [] = []
c_string (c ∷ s) = let rest = c_string s in if c == 0 then [] else c ∷ rest

abbrev pub entry_name : List ℕ → List ℕ
entry_name buf = c_string (take (name_len buf) (drop 8 buf))

abbrev pub is_dots : List ℕ → Bool
is_dots name = (strcmp dot name == 0) || (strcmp dot_dot name == 0)

abbrev pub is_file_type : NodeType → Bool
is_file_type unknown = false
is_file_type directory = false
is_file_type file = true
is_file_type top = false

unfoldable pub child_type : Inode → NodeType
child_type inode = if is_directory inode then directory else file

unfoldable pub get_size : NodeExt2 → ℕ
get_size n = if is_file_type n.type then n.inode.size else 0

abbrev pub cons_listing : NodeExt2 → Listing → Listing
cons_listing n (listed ns) = listed (n ∷ ns)
cons_listing n out_of_fuel = out_of_fuel

-- The end of `read`, from `offset` 0 on, which is set to the size of the file before the answer is
-- taken when the file is shorter than `len`.
unfoldable pub copy_out : ℕ → ℕ → List ℕ → List ℕ × ℕ
copy_out len data_size bytes =
    let offset = data_size in
    if ltb data_size len then (take data_size bytes, data_size - offset) else (take len bytes, len)

module _ {S : Type 0} (R : Reader S) where
  -- Without an inode, the test of its mode reads at address 0.
  abbrev pub node_of : Ext2Disk → List ℕ → ℕ → (Inode → NodeType) → Option Inode → Io S NodeExt2
  node_of hd name inum type none = λ _. halted
  node_of hd name inum type (some inode) =
      return (record { name = name; hd = hd; inum = inum; inode = inode; type = type inode })

  unfoldable pub make_child : Ext2Disk → List ℕ → ℕ → Io S NodeExt2
  make_child hd name inum = do answer ← read_inode R hd inum; node_of hd name inum child_type answer

  -- The loop over the entries from the head of a buffer on, with `dsize` bytes of the directory left.
  unfoldable pub list_entries : ℕ → Ext2Disk → List ℕ → ℕ → Io S Listing
  list_entries zero hd buf dsize = return out_of_fuel
  list_entries (suc fuel) hd buf dsize =
      let rest =
        list_entries fuel hd (drop (rec_len buf) buf) ((dsize + (2 ^ 32 - rec_len buf)) % 2 ^ 32) in
      if (entry_inode buf == 0) || (dsize == 0)
      then return (listed [])
      else if is_dots (entry_name buf)
      then rest
      else (do
        child ← make_child hd (entry_name buf) (entry_inode buf)
        others ← rest
        return (cons_listing child others))

  -- The new children; `behind` is the memory behind what is read of the directory. Each entry takes a
  -- byte at least, or there is no end.
  unfoldable pub lookup : List ℕ → NodeExt2 → Io S Listing
  lookup behind n =
      if is_directory n.inode
      then (do
        copied ← read_file R n.hd n.inode
        list_entries (suc n.inode.size) n.hd (copied.out ++ behind) n.inode.size)
      else return (listed [])

  -- The bytes that are written to `buf`, and the answer. `offset` is 0.
  unfoldable pub read_node : NodeExt2 → ℕ → Io S (List ℕ × ℕ)
  read_node n len =
      if is_file_type n.type
      then (do copied ← read_file R n.hd n.inode; return (copy_out len n.inode.size copied.out))
      else return ([], 0)

  unfoldable pub mount : Partition → List ℕ → Io S (Option NodeExt2)
  mount part destname = do
    answer ← get_disk_info R part.disk_id part
    elim answer [
      | none ↦ return none
      | some hd ↦ (do
        inode ← read_inode R hd 2
        node ← node_of hd destname 2 (λ _. top) inode
        return (some node))
    ]
