-- ===== src/Disk/Simulated.antt =====
-- Ports with a drive behind them, on which the driver of kernel/disk/disk.cpp runs in the checks.
use sepples_os.Prelude.{
  ℕ, ◌+◌, ◌*◌, ◌^◌, ◌<◌, ◌≡◌, refl, true, ◌==◌, ◌||◌, if◌then◌else◌, ◌⊎◌, inl, inr, arith,
}
use sepples_os.Disk.{Ports, missing, ata, Driver}
use sepples_os.Disk.Device.{
  IsDevice, Registers, Phase, idle, seeking, transfer, latched, is_register, with_phase, block_of,
  drive_of, next_poll, next_word,
}

abbrev status_of : Phase → ℕ
status_of idle = 0x40
status_of (seeking n drive block) = 0x80
status_of (transfer drive block word) = 0x48

abbrev word_of : (ℕ → ℕ → ℕ) → Phase → ℕ
word_of bytes idle = 0
word_of bytes (seeking n drive block) = 0
word_of bytes (transfer drive block word) =
    bytes drive (512 * block + 2 * word) + 2 ^ 8 * bytes drive (512 * block + 2 * word + 1)

abbrev sent : Phase → ℕ → ℕ → Registers → Registers
sent idle p v r =
    if is_register p
    then latched p v r
    else if p == 0x1F7
    then with_phase r (seeking 5 (drive_of r) (block_of r))
    else r
sent (seeking n drive block) p v r = r
sent (transfer drive block word) p v r = r

-- A drive whose state is its registers, and which is busy for five polls.
abbrev pub device : (ℕ → ℕ → ℕ) → Ports
device bytes = record {
  State = Registers;
  inb = λ p r. (
    status_of r.phase,
    if (p == 0x1F7) || (p == 0x3F6) then with_phase r (next_poll r.phase) else r,
  );
  inw = λ p r. (word_of bytes r.phase, with_phase r (next_word r.phase));
  outb = λ p v r. sent r.phase p v r;
}

pub polls : (p : ℕ) → (p ≡ 0x1F7) ⊎ (p ≡ 0x3F6) → ((p == 0x1F7) || (p == 0x3F6)) ≡ true
polls p (inl e) = rw e refl
polls p (inr e) = rw e refl

unfoldable pub device-IsDevice :
    (bytes : ℕ → ℕ → ℕ)
    → ((drive address : ℕ) → bytes drive address < 2 ^ 8)
    → IsDevice (device bytes) bytes 5
device-IsDevice bytes small = record {
  regs = λ r. r;
  regs-register = λ p v r i reg. rw (i, reg) refl;
  regs-control = λ r i. rw i refl;
  regs-command = λ r i one lba. rw i refl;
  regs-poll = λ p r port. rw (polls p port) refl;
  idle_status = λ r i. rw i refl;
  busy_status = λ n drive block r i. rw i (λ e. omega arith);
  ready_status = λ drive block word r i. rw i refl;
  word_value = λ drive block word r i. rw i refl;
  regs-word = λ r. refl;
  image_byte = small;
}

abbrev pub resting : Registers
resting = record { count = 0; low = 0; mid = 0; high = 0; device = 0; phase = idle }

abbrev pub started : Driver Registers
started = record { bus = resting; first = ata; second = missing }
