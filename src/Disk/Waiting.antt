-- ===== src/Disk/Waiting.antt =====
-- The wait of kernel/disk/disk.cpp against the sequence of answers that the port gives.
use sepples_os.Prelude.{
  ℕ, zero, suc, ◌≤◌, ◌<◌, ◌≡◌, ◌≢◌, refl, Bool, true, false, ◌==◌, if◌then◌else◌, bit_and, ◌⊎◌, inl,
  inr, Bool-cases, ==_iff, arith, ==_of_ne,
}
use sepples_os.Disk.{Ports, Outcome, done, Drive, return, read_port, wait_loop, wait_ready, timeout}

pub if-apply :
    {A B : Type 0} (b : Bool) (f g : A → B) (x : A)
    → (if b then f else g) x ≡ (if b then f x else g x)
if-apply true f g x = refl
if-apply false f g x = refl

module _ (P : Ports) where
  -- The driver after `k` reads of a port, and the answer to the next one.
  unfoldable pub after : ℕ → ℕ → Drive P → Drive P
  after port zero d = d
  after port (suc k) d = after port k (record d { bus = (P.inb port d.bus).1 })

  unfoldable pub answer : ℕ → ℕ → Drive P → ℕ
  answer port k d = (P.inb port (after port k d).bus).0

  -- The answers before the `k`-th one have a bit of the mask.
  abbrev pub Busy : ℕ → ℕ → ℕ → Drive P → Type 0
  Busy port mask k d = (j : ℕ) → j < k → bit_and (answer port j d) mask ≢ 0

  unfoldable pub Waits : ℕ → ℕ → ℕ → Drive P → Outcome (Drive P) Bool → Type 0
  Waits port mask rounds d o =
      ((k : ℕ) × (k ≤ rounds)
        × Busy port mask k d
        × (bit_and (answer port k d) mask ≡ 0)
        × (o ≡ done true (after port (suc k) d)))
      ⊎ (Busy port mask (suc rounds) d × (o ≡ done false (after port (suc rounds) d)))

  abbrev pub step : ℕ → Drive P → Drive P
  step port d = record d { bus = (P.inb port d.bus).1 }

  one_round :
      (port mask rounds : ℕ) (d : Drive P)
      → wait_loop P port mask (suc rounds) d ≡ (
          if bit_and (answer port 0 d) mask == 0
          then done true (step port d)
          else wait_loop P port mask rounds (step port d))
  unfolding wait_loop answer after read_port
  one_round port mask rounds d =
      if-apply (bit_and (answer port 0 d) mask == 0) (return true) (wait_loop P port mask rounds)
        (step port d)

  -- A first answer without the bits ends the wait.
  pub wait_loop_now :
      (port mask rounds : ℕ) (d : Drive P)
      → bit_and (P.inb port d.bus).0 mask ≡ 0
      → wait_loop P port mask rounds d ≡ done true (step port d)
  unfolding wait_loop read_port
  wait_loop_now port mask zero d e = rw e refl
  wait_loop_now port mask (suc rounds) d e = rw e refl

  -- Any other first answer leaves the wait with a round less.
  pub wait_loop_later :
      (port mask rounds : ℕ) (d : Drive P)
      → bit_and (P.inb port d.bus).0 mask ≢ 0
      → wait_loop P port mask (suc rounds) d ≡ wait_loop P port mask rounds (step port d)
  unfolding wait_loop read_port
  wait_loop_later port mask rounds d h = rw (==_of_ne _ 0 h) refl

  Busy-suc :
      (port mask k : ℕ) (d : Drive P)
      → bit_and (answer port 0 d) mask ≢ 0
      → Busy port mask k (step port d)
      → Busy port mask (suc k) d
  unfolding answer after
  Busy-suc port mask k d h b zero lt = h
  Busy-suc port mask k d h b (suc j) lt = b j (omega arith)

  Waits-later :
      (port mask rounds : ℕ) (d : Drive P) (o : Outcome (Drive P) Bool)
      → bit_and (answer port 0 d) mask ≢ 0
      → Waits port mask rounds (step port d) o
      → Waits port mask (suc rounds) d o
  unfolding Waits answer after
  Waits-later port mask rounds d o h (inl (k, le, b, z, e)) =
      inl (suc k, omega arith, Busy-suc port mask k d h b, z, e)
  Waits-later port mask rounds d o h (inr (b, e)) = inr (Busy-suc port mask (suc rounds) d h b, e)

  one_round_zero :
      (port mask : ℕ) (d : Drive P)
      → wait_loop P port mask zero d ≡ done (bit_and (answer port 0 d) mask == 0) (step port d)
  unfolding wait_loop answer after read_port
  one_round_zero port mask d = refl

  Waits-now :
      (port mask rounds : ℕ) (d : Drive P)
      → (bit_and (answer port 0 d) mask == 0) ≡ true
      → Waits port mask rounds d (done true (step port d))
  unfolding Waits after
  Waits-now port mask rounds d e =
      inl (0, omega arith, (λ j lt. absurd (omega arith)), (==_iff _ _).0 e, refl)

  Busy-one :
      (port mask : ℕ) (d : Drive P)
      → (bit_and (answer port 0 d) mask == 0) ≡ false
      → Busy port mask 1 d
  Busy-one port mask d e zero lt = λ z. grind (arith, e, z)
  Busy-one port mask d e (suc j) lt = absurd (omega arith)

  Waits-never :
      (port mask : ℕ) (d : Drive P)
      → (bit_and (answer port 0 d) mask == 0) ≡ false
      → Waits port mask 0 d (done false (step port d))
  unfolding Waits after
  Waits-never port mask d e = inr (Busy-one port mask d e, refl)

  -- A wait ends, and it says which: true when an answer without the bits of the mask comes within
  -- its rounds, with no read after that answer; false when each of its answers has one of the bits.
  pub wait_loop-Waits :
      (port mask rounds : ℕ) (d : Drive P)
      → Waits port mask rounds d (wait_loop P port mask rounds d)
  wait_loop-Waits port mask zero d = elim (Bool-cases (bit_and (answer port 0 d) mask == 0)) [
    | inl e ↦ rw (one_round_zero port mask d, e) (Waits-now port mask 0 d e)
    | inr e ↦ rw (one_round_zero port mask d, e) (Waits-never port mask d e)
  ]
  wait_loop-Waits port mask (suc rounds) d =
      elim (Bool-cases (bit_and (answer port 0 d) mask == 0)) [
        | inl e ↦ rw (one_round port mask rounds d, e) (Waits-now port mask (suc rounds) d e)
        | inr e ↦
            let rest = wait_loop-Waits port mask rounds (step port d) in
            let later =
              Waits-later port mask rounds d _ (Busy-one port mask d e 0 (omega arith)) rest in
            rw (one_round port mask rounds d, e) later
      ]

  -- `waitReady` ends on every port.
  pub wait_ready-Waits : (d : Drive P) → Waits 0x3F6 0x80 timeout d (wait_ready P d)
  unfolding wait_ready
  wait_ready-Waits d = wait_loop-Waits 0x3F6 0x80 timeout d
