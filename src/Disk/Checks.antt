-- ===== src/Disk/Checks.antt =====
-- Runs of the driver of kernel/disk/disk.cpp on concrete ports.
use sepples_os.Prelude.{ℕ, suc, ◌+◌, ◌*◌, ◌%◌, ◌^◌, ◌<◌, ◌≡◌, refl, none, some, arith}
use sepples_os.Disk.{Ports, Config, missing, ata, Driver, Outcome, done, Drive, timeout, wait_ready}
use sepples_os.Disk.Device.{idle, bytes_of}
use sepples_os.Disk.Simulated.{device, device-IsDevice, started}
use sepples_os.Disk.Read.{disk_read, blocks_of}
use sepples_os.Disk.Triples.{Gives}
use sepples_os.Disk.Reading.{disk_read-bytes_of}
use sepples_os.Disk.Waiting.{Waits, wait_ready-Waits}
use sepples_os.Disk.Failing.{disk_read-busy, IsTried}

abbrev bytes : ℕ → ℕ → ℕ
bytes drive address = (7 * address + drive) % 2 ^ 8

bytes-small : (drive address : ℕ) → bytes drive address < 2 ^ 8
bytes-small drive address = omega arith

disk_read-bytes_of_example :
    Gives
      (disk_read (device bytes) 0 1000 600)
      started
      (λ o d'. (o ≡ some (bytes_of (bytes 0) 1000 600)) × (d'.bus.phase ≡ idle))
unfolding device-IsDevice
disk_read-bytes_of_example =
    disk_read-bytes_of (device bytes) bytes 5 (device-IsDevice bytes bytes-small) 0 1000 600 started
      (omega arith) (omega arith) refl (omega arith) (omega arith) refl

wait_ready-Waits_example :
    Waits (device bytes) 0x3F6 0x80 timeout started (wait_ready (device bytes) started)
wait_ready-Waits_example = wait_ready-Waits (device bytes) started

-- Ports that no drive answers read as all ones.
abbrev floating : Ports
floating = record {
  State = ℕ;
  inb = λ p n. (0xFF, suc n);
  inw = λ p n. (0xFFFF, suc n);
  outb = λ p v n. n;
}

abbrev open_bus : Driver ℕ
open_bus = record { bus = 0; first = ata; second = ata }

one_block : 0 < blocks_of 0 512
unfolding blocks_of sepples_os.Disk.Read.last_block
one_block = omega arith

disk_read-busy_example : Gives (disk_read floating 0 0 512) open_bus (λ o d'.
    (o ≡ none)
    × (d'.first ≡ ata)
    × (d'.second ≡ ata)
    × ((d1 : Drive floating) × (IsTried floating open_bus d1 × IsTried floating d1 d')))
disk_read-busy_example =
    disk_read-busy floating 0 0 512 open_bus (λ s e. omega arith) (omega arith) refl one_block
