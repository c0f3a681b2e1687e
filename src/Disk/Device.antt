-- ===== src/Disk/Device.antt =====
-- The device at the other end of the ports that kernel/disk/disk.cpp lists: what the driver relies on of
-- an ATA drive that reads one sector by its LBA28 address.
use sepples_os.Prelude.{
  ℕ, zero, suc, ◌+◌, ◌*◌, ◌/◌, ◌%◌, ◌^◌, ◌<◌, ◌≡◌, ◌≢◌, Bool, true, ◌&&◌, ◌==◌, leb, if◌then◌else◌,
  bit_and, List, [], ◌∷◌, ◌⊎◌,
}
use sepples_os.Disk.{Ports}

-- Between commands; busy for some more polls; or with the words of a sector from one on to be read.
pub data Phase : Type 0 where
  idle : Phase
  seeking : ℕ → ℕ → ℕ → Phase
  transfer : ℕ → ℕ → ℕ → Phase

pub record Registers : Type 0 where
  pub count : ℕ
  pub low : ℕ
  pub mid : ℕ
  pub high : ℕ
  pub device : ℕ
  pub phase : Phase

abbrev pub latched : ℕ → ℕ → Registers → Registers
latched p v r =
    if p == 0x1F2
    then record r { count = v }
    else if p == 0x1F3
    then record r { low = v }
    else if p == 0x1F4
    then record r { mid = v }
    else if p == 0x1F5
    then record r { high = v }
    else if p == 0x1F6
    then record r { device = v }
    else r

abbrev pub with_phase : Registers → Phase → Registers
with_phase r f = record r { phase = f }

abbrev pub is_register : ℕ → Bool
is_register p = leb 0x1F2 p && leb p 0x1F6

-- The address of a command: the block, and the drive of bit 4.
abbrev pub block_of : Registers → ℕ
block_of r = r.low + 2 ^ 8 * r.mid + 2 ^ 16 * r.high + 2 ^ 24 * (r.device % 16)

abbrev pub drive_of : Registers → ℕ
drive_of r = r.device / 16 % 2

abbrev pub is_lba : Registers → Bool
is_lba r = r.device / 64 % 2 == 1

abbrev pub next_poll : Phase → Phase
next_poll idle = idle
next_poll (seeking zero drive block) = transfer drive block 0
next_poll (seeking (suc n) drive block) = seeking n drive block
next_poll (transfer drive block word) = transfer drive block word

abbrev pub next_word : Phase → Phase
next_word idle = idle
next_word (seeking n drive block) = seeking n drive block
next_word (transfer drive block word) =
    if word == 255 then idle else transfer drive block (suc word)

-- The drives hold the bytes `image`, and a command keeps them busy for `delay` polls.
pub record IsDevice (P : Ports) (image : ℕ → ℕ → ℕ) (delay : ℕ) : Type 0 where
  pub regs : P.State → Registers
  pub regs-register :
      (p v : ℕ) (s : P.State)
      → (regs s).phase ≡ idle
      → is_register p ≡ true
      → regs (P.outb p v s) ≡ latched p v (regs s)
  pub regs-control : (s : P.State) → (regs s).phase ≡ idle → regs (P.outb 0x3F6 2 s) ≡ regs s
  pub regs-command :
      (s : P.State)
      → (regs s).phase ≡ idle
      → (regs s).count ≡ 1
      → is_lba (regs s) ≡ true
      → (regs (P.outb 0x1F7 0x20 s)).phase ≡ seeking delay (drive_of (regs s)) (block_of (regs s))
  pub regs-poll :
      (p : ℕ) (s : P.State)
      → (p ≡ 0x1F7) ⊎ (p ≡ 0x3F6)
      → regs (P.inb p s).1 ≡ with_phase (regs s) (next_poll (regs s).phase)
  pub idle_status : (s : P.State) → (regs s).phase ≡ idle → bit_and (P.inb 0x1F7 s).0 0x88 ≡ 0
  pub busy_status :
      (n drive block : ℕ) (s : P.State)
      → (regs s).phase ≡ seeking n drive block
      → bit_and (P.inb 0x3F6 s).0 0x80 ≢ 0
  pub ready_status :
      (drive block word : ℕ) (s : P.State)
      → (regs s).phase ≡ transfer drive block word
      → bit_and (P.inb 0x3F6 s).0 0x80 ≡ 0
  pub word_value :
      (drive block word : ℕ) (s : P.State)
      → (regs s).phase ≡ transfer drive block word
      → (P.inw 0x1F0 s).0
        ≡ image drive (512 * block + 2 * word) + 2 ^ 8 * image drive (512 * block + 2 * word + 1)
  pub regs-word : (s : P.State) → (regs (P.inw 0x1F0 s).1).phase ≡ next_word (regs s).phase
  pub image_byte : (drive address : ℕ) → image drive address < 2 ^ 8

-- `n` bytes of a drive, from an address on.
abbrev pub bytes_of : (ℕ → ℕ) → ℕ → ℕ → List ℕ
bytes_of image address zero = []
bytes_of image address (suc n) = image address ∷ bytes_of image (suc address) n
