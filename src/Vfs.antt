-- ===== src/Vfs.antt =====
-- The nodes and the mount points of kernel/disk/vfs.cpp. A node stands at an address; a state holds the
-- node at each address, and whatever the file systems work on. 0 is nullptr.
pub mod Path
pub mod Walk
pub mod RoundTrip
pub mod Mounting
pub mod Checks
use sepples_os.Prelude.{
  ℕ, zero, suc, ◌+◌, ◌==◌, if◌then◌else◌, Bool, true, false, Option, none, some, List, [], ◌∷◌,
  ◌++◌, length, update,
}
use sepples_os.Disk.{Outcome, done, halted, Io, ◌>>=◌, ◌>>◌, return}
use sepples_os.Strings.{utoa}
use sepples_os.PartTable.Types.{Partition}

pub record Node : Type 0 where
  pub name : List ℕ
  pub parent : ℕ
  pub type : ℕ
  pub childs : List ℕ

-- `fresh` is the address that the next `new` returns.
pub record State (T : Type 0) : Type 0 where
  pub nodes : ℕ → Node
  pub fresh : ℕ
  pub below : T

-- `Filesystem::mount`: nothing is nullptr.
abbrev pub Filesystem : Type 0 → Type 0
Filesystem T = Partition → ℕ → List ℕ → Io (State T) (Option ℕ)

pub record Vfs (T : Type 0) : Type 0 where
  pub filesystems : List (Filesystem T)

-- The address of the static `root`.
abbrev pub root : ℕ
root = 1

abbrev pub no_childs : List ℕ → ℕ → ℕ → Node
no_childs name parent type = record { name = name; parent = parent; type = type; childs = [] }

-- What a node without data answers to `read`, and where it can be sought.
unfoldable pub read : ℕ → ℕ
read len = 0

unfoldable pub seekg : ℕ → Bool
seekg pos = pos == 0

module _ {T : Type 0} where
  abbrev pub put_node : ℕ → Node → State T → State T
  put_node a n s = record s { nodes = update s.nodes a n }

  -- The constructor; a missing name or parent is a fatal error.
  unfoldable pub construct : ℕ → Option (List ℕ) → ℕ → ℕ → Io (State T) (Unit {0})
  construct a none parent type s = halted
  construct a (some name) parent type s =
      if parent == 0 then halted else done tt (put_node a (no_childs name parent type) s)

  unfoldable pub new_node : Option (List ℕ) → ℕ → ℕ → Io (State T) ℕ
  new_node name parent type s =
      let a = s.fresh in (do construct a name parent type; return a) (record s { fresh = suc a })

  abbrev pub append_child : ℕ → ℕ → State T → State T
  append_child a child s =
      let n = s.nodes a in put_node a (record n { childs = n.childs ++ child ∷ [] }) s

  unfoldable pub add_child : ℕ → ℕ → Io (State T) Bool
  add_child a other s = done true (append_child a other s)

  unfoldable pub create_child : ℕ → Option (List ℕ) → ℕ → ℕ → Io (State T) ℕ
  create_child a name parent type = do
    child ← new_node name parent type
    _ ← add_child a child
    return child

  unfoldable pub lookup : ℕ → Io (State T) (List ℕ)
  lookup a s = done (s.nodes a).childs s

  unfoldable pub init : Io (State T) (Vfs T)
  init = do construct root (some []) root 0; return (record { filesystems = [] })

  unfoldable pub register_filesystem : Filesystem T → Vfs T → Vfs T
  register_filesystem fs v = record { filesystems = v.filesystems ++ fs ∷ [] }

  -- The first file system that takes the partition.
  unfoldable pub try_filesystems :
      List (Filesystem T) → Partition → ℕ → List ℕ → Io (State T) (Option ℕ)
  try_filesystems [] part parent name = return none
  try_filesystems (fs ∷ others) part parent name =
      let rest = try_filesystems others part parent name in
      do
        answer ← fs part parent name
        elim answer [ none ↦ rest | some node ↦ (do _ ← add_child root node; return (some node)) ]

  -- A mount point without a name is named after the number of mount points.
  abbrev pub mount_name : Option (List ℕ) → State T → List ℕ
  mount_name none s = utoa (length (s.nodes root).childs) 10
  mount_name (some name) s = name

  unfoldable pub mount : Vfs T → Partition → ℕ → Option (List ℕ) → Io (State T) (Option ℕ)
  mount v part parent destname s =
      try_filesystems v.filesystems part parent (mount_name destname s) s
