-- ===== src/Disk/Addresses.antt =====
-- The block address that `prepareCommand` of kernel/disk/disk.cpp writes.
use sepples_os.Prelude.{
  ℕ, zero, suc, ◌+◌, ◌*◌, ◌/◌, ◌%◌, ◌^◌, ◌<◌, ◌≤◌, ◌≡◌, refl, ap, ◌∙◌, true, false, ◌==◌, bit_or,
  arith, holds_below-at, ==_iff, ltb, ltb_of_le, le→leb, holds_below,
}
use sepples_os.Disk.Commands.{device_register, is_refused}
use sepples_os.Disk.Device.{Registers, block_of, drive_of, is_lba}
use sepples_os.Disk.Preparing.{prepared}

-- The highest bits of a block and the bits of the drive do not meet.
apart : (n : ℕ) → n < 16 → bit_or (bit_or 0xE0 0) n % 256 ≡ 0xE0 + n
unfolding holds_below
apart n lt =
    (==_iff _ _).0 (holds_below-at 16 (λ k. bit_or (bit_or 0xE0 0) k % 256 == 0xE0 + k) n refl lt)

apart_second : (n : ℕ) → n < 16 → bit_or (bit_or 0xE0 16) n % 256 ≡ 0xF0 + n
unfolding holds_below
apart_second n lt =
    (==_iff _ _).0 (holds_below-at 16 (λ k. bit_or (bit_or 0xE0 16) k % 256 == 0xF0 + k) n refl lt)

device_register_lem :
    (drive block : ℕ)
    → drive ≤ 1
    → device_register drive block ≡ 0xE0 + 16 * drive + block / 2 ^ 24 % 16
unfolding device_register
device_register_lem zero block le = apart (block / 2 ^ 24 % 16) (omega arith)
device_register_lem (suc zero) block le = apart_second (block / 2 ^ 24 % 16) (omega arith)
device_register_lem (suc (suc n)) block le = absurd (omega arith)

-- The address in the registers, of which the last holds four bits of it.
abbrev address : ℕ → ℕ → ℕ
address block x =
    block % 256
    + 2 ^ 8 * (block / 2 ^ 8 % 256)
    + 2 ^ 16 * (block / 2 ^ 16 % 256)
    + 2 ^ 24 * (x % 16)

-- The command names the sector that was asked for: its drive, and the 24 bits of its block.
pub prepared-names :
    (drive block : ℕ) (r : Registers)
    → drive ≤ 1
    → block < 2 ^ 24
    → (drive_of (prepared drive block r) ≡ drive)
      × (block_of (prepared drive block r) ≡ block)
      × (is_lba (prepared drive block r) ≡ true)
prepared-names drive block r le lt =
    let e = device_register_lem drive block le in
    let top : 0xE0 + 16 * drive + block / 2 ^ 24 % 16 ≡ 0xE0 + 16 * drive = omega arith in
    let lba : ((0xE0 + 16 * drive) / 64 % 2) ≡ 1 = omega arith in
    (
      ap (λ x. x / 16 % 2) (e ∙ top) ∙ omega arith,
      ap (λ x. address block x) (e ∙ top) ∙ omega arith,
      ap (λ x. x / 64 % 2 == 1) (e ∙ top) ∙ ap (λ x. x == 1) lba,
    )

-- A block number of 2 ^ 31 or more, negative as an int, passes the test for 24 bits, and the command
-- names the sector of its lowest 28 bits.
pub prepared-wraps :
    (drive block : ℕ) (r : Registers)
    → drive ≤ 1
    → 2 ^ 31 ≤ block
    → block < 2 ^ 32
    → (is_refused block 1 ≡ false) × (block_of (prepared drive block r) ≡ block % 2 ^ 28)
unfolding is_refused
prepared-wraps drive block r le low high =
    let negative : ltb block (2 ^ 31) ≡ false = ltb_of_le block (2 ^ 31) low in
    let all : address block (0xE0 + 16 * drive + block / 2 ^ 24 % 16) ≡ block % 2 ^ 28 =
      omega arith in
    (
      rw (le→leb (16 * 1024 * 1024) block (omega arith), negative) refl,
      ap (λ x. address block x) (device_register_lem drive block le) ∙ all,
    )
