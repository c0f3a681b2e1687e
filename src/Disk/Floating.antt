-- ===== src/Disk/Floating.antt =====
-- `init` of kernel/disk/disk.cpp on ports that no drive answers.
use sepples_os.Prelude.{ℕ, ◌≡◌, refl, ap, ◌∙◌, false, ◌==◌, ◌&&◌, if◌then◌else◌}
use sepples_os.Disk.{Ports, Config, missing, Io, Drive, ◌>>=◌, ◌>>◌, return, read_port, write_port}
use sepples_os.Disk.Commands.{point_at, device_bits}
use sepples_os.Disk.Probe.{poke, probe, init}
use sepples_os.Disk.Triples.{Gives, Gives-return, Gives-bind, Gives-if_false}
use sepples_os.Disk.Failing.{
  Keeps, Types, soft_reset-Keeps, wait400ns-Keeps, write-Keeps, bind-Keeps,
}

module _ (P : Ports) where
  -- Every byte that is read has all of its bits set.
  abbrev pub IsFloating : Type 0
  IsFloating = (p : ℕ) (s : P.State) → (P.inb p s).0 ≡ 0xFF

  module _ (floating : IsFloating) (c1 c2 : Config) where
    read_floating :
        (p : ℕ) (d : Drive P)
        → Types P c1 c2 d
        → Gives (read_port P p) d (λ v d'. (v ≡ 0xFF) × Types P c1 c2 d')
    unfolding read_port
    read_floating p d t = record { answer = _; final = _; run = refl; post = (floating p d.bus, t) }

    point_at-Keeps : (n : ℕ) → Keeps P (point_at P n) c1 c2
    unfolding point_at
    point_at-Keeps n =
        bind-Keeps P c1 c2 (write-Keeps P c1 c2 0x1F6 (device_bits n))
          (λ _. wait400ns-Keeps P c1 c2)

    -- Two bytes that are read back are not those of a drive.
    read_back :
        (x y : ℕ) (m : Io (Drive P) (Unit {0}))
        → (0xFF == x) ≡ false
        → Keeps P
            (read_port P 0x1F2 >>= λ sc.
              read_port P 0x1F3 >>= λ sn. if (sc == x) && (sn == y) then m else return tt)
            c1
            c2
    read_back x y m ne d t = Gives-bind (read_floating 0x1F2 d t) (λ sc d1 (e, t1).
        Gives-bind (read_floating 0x1F3 d1 t1) (λ sn d2 (e2, t2).
          Gives-if_false m _ (ap (λ v. (v == x) && (sn == y)) e ∙ ap (λ b. b && (sn == y)) ne)
            (Gives-return tt d2 t2)))

    write_then-Keeps :
        {B : Type 0} {m : Io (Drive P) B} (p v : ℕ)
        → Keeps P m c1 c2
        → Keeps P (write_port P p v >> m) c1 c2
    write_then-Keeps p v km = bind-Keeps P c1 c2 (write-Keeps P c1 c2 p v) (λ _. km)

    poke-Keeps : (n : ℕ) → Keeps P (poke P n) c1 c2
    unfolding poke
    poke-Keeps n = bind-Keeps P c1 c2 (point_at-Keeps n) (λ _. write_then-Keeps 0x1F2 0x55 (
        write_then-Keeps 0x1F3 0xaa (
          write_then-Keeps 0x1F2 0xaa (
            write_then-Keeps 0x1F3 0x55 (
              write_then-Keeps 0x1F2 0x55
                (write_then-Keeps 0x1F3 0xaa (read_back 0x55 0xaa _ refl)))))))

    probe-Keeps : (n : ℕ) → Keeps P (probe P n) c1 c2
    unfolding probe
    probe-Keeps n = bind-Keeps P c1 c2 (point_at-Keeps n) (λ _. read_back 1 1 _ refl)

  -- Where no drive answers, `init` ends and records that there are none, whatever was recorded.
  pub init-floating :
      (d : Drive P)
      → IsFloating
      → Gives (init P) d (λ _ d'. (d'.first ≡ missing) × (d'.second ≡ missing))
  unfolding init
  init-floating d floating =
      let none_at : Types P missing missing (record d { first = missing; second = missing }) =
        (refl, refl) in
      let run = bind-Keeps P missing missing (write-Keeps P missing missing 0x3F6 2) (λ _.
        bind-Keeps P missing missing (poke-Keeps floating missing missing 0) (λ _.
          bind-Keeps P missing missing (poke-Keeps floating missing missing 1) (λ _.
            bind-Keeps P missing missing (point_at-Keeps floating missing missing 0) (λ _.
              bind-Keeps P missing missing (soft_reset-Keeps P missing missing) (λ _.
                bind-Keeps P missing missing (probe-Keeps floating missing missing 0)
                  (λ _. probe-Keeps floating missing missing 1)))))) in
      let g = run (record d { first = missing; second = missing }) none_at in
      record { answer = g.answer; final = g.final; run = g.run; post = g.post }
