-- ===== src/Disk.antt =====
-- The ATA driver of kernel/disk/disk.cpp: the ports, the monad that the driver is written in, and the
-- waits. The ports are a parameter. An int is its 32 bits; a drive number is not negative.
pub mod Commands
pub mod Read
pub mod Probe
pub mod Waiting
pub mod Triples
pub mod Bytes
pub mod Device
pub mod Preparing
pub mod Sectors
pub mod Addresses
pub mod Reading
pub mod Floating
pub mod Failing
pub mod Simulated
pub mod Checks
use sepples_os.Prelude.{ℕ, zero, suc, Bool, true, false, ◌==◌, if◌then◌else◌, bit_and}

-- `inb`, `inw` and `outb` of kernel/arch/pinio.h, on an unknown state of the hardware
pub record Ports : Type 1 where
  pub State : Type 0
  pub inb : ℕ → State → ℕ × State
  pub inw : ℕ → State → ℕ × State
  pub outb : ℕ → ℕ → State → State

-- The types that `regConfigInfo` records.
pub data Config : Type 0 where
  missing unknown ata atapi : Config

pub record Driver (S : Type 0) : Type 0 where
  pub bus : S
  pub first : Config
  pub second : Config

-- A call returns, or stops the machine in `fatalError`.
pub data Outcome (S A : Type 0) : Type 0 where
  done : A → S → Outcome S A
  halted : Outcome S A

abbrev pub Io : Type 0 → Type 0 → Type 0
Io S A = S → Outcome S A

abbrev pub and_then : {S A B : Type 0} → Outcome S A → (A → Io S B) → Outcome S B
and_then (done a s) f = f a s
and_then halted f = halted

infixl 5 ◌>>=◌
abbrev pub ◌>>=◌ : {S A B : Type 0} → Io S A → (A → Io S B) → Io S B
(m >>= f) s = and_then (m s) f

infixl 5 ◌>>◌
abbrev pub ◌>>◌ : {S B : Type 0} → Io S (Unit {0}) → Io S B → Io S B
m >> k = m >>= λ _. k

abbrev pub return : {S A : Type 0} → A → Io S A
return a s = done a s

abbrev pub timeout : ℕ
timeout = 0x100000

module _ (P : Ports) where
  abbrev pub Drive : Type 0
  Drive = Driver P.State

  unfoldable pub read_port : ℕ → Io Drive ℕ
  read_port p d = let (v, s) = P.inb p d.bus in done v (record d { bus = s })

  unfoldable pub read_word : ℕ → Io Drive ℕ
  read_word p d = let (v, s) = P.inw p d.bus in done v (record d { bus = s })

  unfoldable pub write_port : ℕ → ℕ → Io Drive (Unit {0})
  write_port p v d = done tt (record d { bus = P.outb p v d.bus })

  unfoldable pub wait400ns : Io Drive (Unit {0})
  wait400ns = do
    _ ← read_port 0x3F6
    _ ← read_port 0x3F6
    _ ← read_port 0x3F6
    _ ← read_port 0x3F6
    return tt

  -- `for (wait=0;;wait++)`, with the rounds that are left before `wait >= TIMEOUT`: read `port`,
  -- and stop when no bit of `mask` is set.
  unfoldable pub wait_loop : ℕ → ℕ → ℕ → Io Drive Bool
  wait_loop port mask zero = do status ← read_port port; return (bit_and status mask == 0)
  wait_loop port mask (suc rounds) =
      let rest = wait_loop port mask rounds in
      do status ← read_port port; if bit_and status mask == 0 then return true else rest

  unfoldable pub wait_ready : Io Drive Bool
  wait_ready = wait_loop 0x3F6 0x80 timeout
