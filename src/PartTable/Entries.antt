-- ===== src/PartTable/Entries.antt =====
-- The table that kernel/disk/partTable.cpp reads from a drive that works.
use sepples_os.Prelude.{
  ℕ, zero, suc, ◌+◌, ◌*◌, ◌^◌, ◌≤◌, ◌<◌, ◌≡◌, refl, ◌==◌, if◌then◌else◌, Bool, true, false, some,
  List, [], ◌∷◌, arith, ◌≢◌, Bool-cases, inl, inr, ==_iff, subst, sym,
}
use sepples_os.Disk.{Ports, Config, Io, Drive, return, timeout}
use sepples_os.Disk.Commands.{below_ata, config_of}
use sepples_os.Disk.Read.{disk_read}
use sepples_os.Disk.Device.{IsDevice, idle, bytes_of}
use sepples_os.Disk.Triples.{Gives, Gives-return, Gives-bind, Gives-weaken}
use sepples_os.Disk.Preparing.{Known, below_ata-Known}
use sepples_os.Disk.Sectors.{In}
use sepples_os.Disk.Reading.{disk_read_lem}
use sepples_os.PartTable.Types.{Partition, PartType, linux, fat32, empty, unknown}
use sepples_os.PartTable.{entry_of, word32, part_type, is_mbr, read_entries, read_mbr, read_table}

-- The `n` entries from the `i`-th one on, of 16 bytes each from 446 on.
abbrev pub entries_of : (ℕ → ℕ) → ℕ → ℕ → ℕ → List Partition
entries_of image disk zero i = []
entries_of image disk (suc n) i =
    entry_of disk (bytes_of image (0x01BE + 16 * i) 16) ∷ entries_of image disk n (suc i)

-- The four entries of a sector that ends with the mark of a boot record, else none.
unfoldable pub table_of : (ℕ → ℕ) → ℕ → List Partition
table_of image disk =
    if image 0x1FE + 2 ^ 8 * image 0x1FF == 0xAA55 then entries_of image disk 4 0 else []

module _ (P : Ports) (image : ℕ → ℕ → ℕ) (delay : ℕ) (D : IsDevice P image delay) where
  module _ (disk : ℕ) (c1 c2 : Config) (le : disk ≤ 1) (quick : delay < timeout)
      (known : Known disk c1 c2) where
    abbrev Gets : {A : Type 0} → Io (Drive P) A → A → Type 0
    Gets m a =
        (d : Drive P)
        → In P image delay D idle c1 c2 d
        → Gives m d (λ b d'. (b ≡ a) × In P image delay D idle c1 c2 d')

    disk_read-Gets :
        (offset count : ℕ)
        → 0 < count
        → offset + count ≤ 2 ^ 33
        → Gets (disk_read P disk offset count) (some (bytes_of (image disk) offset count))
    disk_read-Gets offset count positive fits d i =
        disk_read_lem P image delay D disk c1 c2 offset count d le quick known positive fits i

    is_mbr-Gets :
        (stale : List ℕ)
        → Gets (is_mbr P stale disk) (image disk 0x1FE + 2 ^ 8 * image disk 0x1FF == 0xAA55)
    unfolding is_mbr
    is_mbr-Gets stale d i =
        Gives-bind (disk_read-Gets 0x1FE 2 (omega arith) (omega arith) d i)
          (λ o d1 (e, i1). rw e (Gives-return _ d1 (refl, i1)))

    read_entries-Gets :
        (n i : ℕ) (buf : List ℕ)
        → i + n ≤ 4
        → Gets (read_entries P disk n i buf) (entries_of (image disk) disk n i)
    unfolding read_entries
    read_entries-Gets zero i buf fits d at = Gives-return [] d (refl, at)
    read_entries-Gets (suc n) i buf fits d at =
        Gives-bind (disk_read-Gets (0x01BE + 16 * i) 16 (omega arith) (omega arith) d at)
          (λ o d1 (e, at1). rw e (
            Gives-bind (read_entries-Gets n (suc i) _ (omega arith) d1 at1)
              (λ others d2 (e2, at2). rw e2 (Gives-return _ d2 (refl, at2)))))

    if-Gets :
        {A : Type 0} (b : Bool) {m n : Io (Drive P) A} {x y : A}
        → Gets m x
        → Gets n y
        → Gets (if b then m else n) (if b then x else y)
    if-Gets true gm gn = gm
    if-Gets false gm gn = gn

    return-Gets : {A : Type 0} (a : A) → Gets (return a) a
    return-Gets a d i = Gives-return a d (refl, i)

    read_mbr-Gets :
        (stale : List ℕ) → Gets (read_mbr P stale disk) (entries_of (image disk) disk 4 0)
    unfolding read_mbr
    read_mbr-Gets stale = read_entries-Gets 4 0 stale (omega arith)

    read_table-Gets : (stale : List ℕ) → Gets (read_table P stale disk) (table_of (image disk) disk)
    unfolding read_table table_of
    read_table-Gets stale d i =
        let mark = image disk 0x1FE + 2 ^ 8 * image disk 0x1FF == 0xAA55 in
        Gives-bind (is_mbr-Gets stale d i)
          (λ b d1 (e, i1). rw e (if-Gets mark (read_mbr-Gets stale) (return-Gets []) d1 i1))

-- The word of four bytes at an address, the lowest byte first.
abbrev pub little_endian : (ℕ → ℕ) → ℕ → ℕ
little_endian image a =
    image a + 256 * image (a + 1) + 65536 * image (a + 2) + 16777216 * image (a + 3)

-- The types that are told apart, by their codes.
abbrev pub HasCode : PartType → ℕ → Type 0
HasCode empty code = code ≡ 0
HasCode fat32 code = code ≡ 0xB
HasCode linux code = code ≡ 0x83
HasCode unknown code = (code ≢ 0) × (code ≢ 0xB) × (code ≢ 0x83)

-- A partition is described by the 16 bytes at an address of its drive.
pub record IsEntryAt (image : ℕ → ℕ) (disk a : ℕ) (part : Partition) : Type 0 where
  pub start_at : part.start_lba ≡ little_endian image (a + 8)
  pub size : part.size_lba ≡ little_endian image (a + 12)
  pub drive : part.disk_id ≡ disk
  pub code : HasCode part.type (image (a + 4))

-- The partitions of a drive: the four entries behind the boot code of a sector that ends with the
-- bytes 0x55 and 0xAA, else none.
pub data IsTableOf (image : ℕ → ℕ) (disk : ℕ) : List Partition → Type 0 where
  four :
      {p q r s : Partition}
      → image 510 + 256 * image 511 ≡ 0xAA55
      → IsEntryAt image disk 446 p
      → IsEntryAt image disk 462 q
      → IsEntryAt image disk 478 r
      → IsEntryAt image disk 494 s
      → IsTableOf image disk (p ∷ q ∷ r ∷ s ∷ [])
  unmarked : image 510 + 256 * image 511 ≢ 0xAA55 → IsTableOf image disk []

part_type-HasCode : (code : ℕ) → HasCode (part_type code) code
unfolding part_type
part_type-HasCode code = elim (Bool-cases (code == 0)) [
  | inl e ↦ rw e ((==_iff _ _).0 e)
  | inr not_empty ↦ elim (Bool-cases (code == 0xB)) [
    | inl e ↦ rw (not_empty, e) ((==_iff _ _).0 e)
    | inr not_fat ↦ elim (Bool-cases (code == 0x83)) [
      | inl e ↦ rw (not_empty, not_fat, e) ((==_iff _ _).0 e)
      | inr other ↦
          rw (not_empty, not_fat, other)
            (ground (arith, not_empty), ground (arith, not_fat), ground (arith, other))
    ]
  ]
]

word32-little_endian :
    (image : ℕ → ℕ) (a b : ℕ)
    → b ≡ a
    → image b
        + 2 ^ 8 * image (suc b)
        + 2 ^ 16 * image (suc (suc b))
        + 2 ^ 24 * image (suc (suc (suc b)))
      ≡ little_endian image a
word32-little_endian image a b e =
    let e1 : suc b ≡ a + 1 = omega arith in
    let e2 : suc (suc b) ≡ a + 2 = omega arith in
    let e3 : suc (suc (suc b)) ≡ a + 3 = omega arith in rw (e3, e2, e1, e) refl

entry_of-IsEntryAt :
    (image : ℕ → ℕ) (disk a : ℕ)
    → disk ≤ 1
    → IsEntryAt image disk a (entry_of disk (bytes_of image a 16))
unfolding entry_of word32
entry_of-IsEntryAt image disk a le = record {
  start_at = word32-little_endian image (a + 8) _ (omega arith);
  size = word32-little_endian image (a + 12) _ (omega arith);
  drive = omega (arith, le);
  code =
      let at4 : a + 4 ≡ suc (suc (suc (suc a))) = omega arith in
      subst (λ c. HasCode (part_type (image c)) (image (a + 4))) at4
        (part_type-HasCode (image (a + 4)));
}

table_of-IsTableOf :
    (image : ℕ → ℕ) (disk : ℕ) → disk ≤ 1 → IsTableOf image disk (table_of image disk)
unfolding table_of
table_of-IsTableOf image disk le = elim (Bool-cases (image 0x1FE + 2 ^ 8 * image 0x1FF == 0xAA55)) [
  | inl e ↦
      let entry = λ (a : ℕ). entry_of-IsEntryAt image disk a le in
      rw e (four ((==_iff _ _).0 e) (entry 446) (entry 462) (entry 478) (entry 494))
  | inr e ↦ rw e (unmarked (ground (arith, e)))
]

-- The table that is read of a drive that works is the one in its first sector, whatever the buffers
-- held before: the four entries at 446 with their place, size and type, or none without the mark.
pub read_table-IsTableOf :
    (P : Ports) (image : ℕ → ℕ → ℕ) (delay : ℕ) (D : IsDevice P image delay) (disk : ℕ)
    (stale : List ℕ) (d : Drive P)
    → disk ≤ 1
    → delay < timeout
    → below_ata (config_of P disk d) ≡ false
    → (D.regs d.bus).phase ≡ idle
    → Gives
        (read_table P stale disk)
        d
        (λ table d'. IsTableOf (image disk) disk table × ((D.regs d'.bus).phase ≡ idle))
read_table-IsTableOf P image delay D disk stale d le quick known i =
    Gives-weaken
      (read_table-Gets P image delay D disk d.first d.second le quick
        (below_ata-Known P disk d known) stale d (i, refl, refl))
      (λ table d' (e, q). (
        subst (IsTableOf (image disk) disk) (sym e) (table_of-IsTableOf (image disk) disk le),
        q.0,
      ))
