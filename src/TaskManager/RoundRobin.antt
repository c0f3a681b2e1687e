-- ===== src/TaskManager/RoundRobin.antt =====
-- The choice of the next process in `schedule` of kernel/proc/process.cpp.
use sepples_os.Prelude.{
  ℕ, zero, suc, ◌+◌, ◌-◌, ◌≤◌, ◌<◌, ◌≡◌, refl, ◌≢◌, ◌⊎◌, inl, inr, true, false, arith, ltb, ◌==◌,
  if◌then◌else◌, Bool-cases, ◌↔◌,
}
use sepples_os.TaskManager.{State, is_ready, max_pid, scan, choose}

-- Either no process of the range is ready, or `r` is the first that is.
abbrev pub FirstReady : (ℕ → State) → ℕ → ℕ → ℕ → Type 0
FirstReady st lo hi r =
    ((r ≡ 0) × ((i : ℕ) → lo ≤ i → i < hi → is_ready (st i) ≡ false))
    ⊎ ((lo ≤ r)
        × (r < hi)
        × (is_ready (st r) ≡ true)
        × ((i : ℕ) → lo ≤ i → i < r → is_ready (st i) ≡ false))

FirstReady-step :
    (st : ℕ → State) (lo hi r : ℕ)
    → is_ready (st lo) ≡ false
    → FirstReady st (lo + 1) hi r
    → FirstReady st lo hi r
FirstReady-step st lo hi r m (inl (z, no_one)) = inl (z, λ i a b. ground (arith, no_one i))
FirstReady-step st lo hi r m (inr (a, b, f, no_one)) =
    inr (omega arith, b, f, λ i c d. ground (arith, no_one i))

scan-FirstReady : (st : ℕ → State) (n lo hi : ℕ) → lo + n ≡ hi → FirstReady st lo hi (scan st n lo)
unfolding scan
scan-FirstReady st zero lo hi e = inl (refl, λ i a b. absurd (omega arith))
scan-FirstReady st (suc n) lo hi e = elim (Bool-cases (is_ready (st lo))) [
  | inl r ↦ rw r (inr (omega arith, omega arith, r, λ i a b. absurd (omega arith)))
  | inr m ↦ rw m (FirstReady-step st lo hi _ m (scan-FirstReady st n (lo + 1) hi (omega arith)))
]

-- The choice falls to the first ready process behind the current one, then to the first in front.
abbrev pub Chosen : (ℕ → State) → ℕ → ℕ → Type 0
Chosen st cur r =
    (FirstReady st (cur + 1) max_pid r × (r ≢ 0))
    ⊎ (((i : ℕ) → cur + 1 ≤ i → i < max_pid → is_ready (st i) ≡ false) × FirstReady st 1 cur r)

pub choose-Chosen : (st : ℕ → State) (cur : ℕ) → cur < max_pid → Chosen st cur (choose st cur)
unfolding choose
choose-Chosen st cur h = pick (scan-FirstReady st (64 - (cur + 1)) (cur + 1) 64 (omega arith))
  where
    front : FirstReady st 1 cur (scan st (cur - 1) 1)
    front = elim (scan-FirstReady st (cur - 1) 1 (cur - 1 + 1) (omega arith)) [
      | inl (z, no_one) ↦ inl (z, λ i a b. no_one i a (omega arith))
      | inr (a, b, r, no_one) ↦ inr (a, omega arith, r, no_one)
    ]

    pick :
        FirstReady st (cur + 1) 64 (scan st (64 - (cur + 1)) (cur + 1))
        → Chosen st cur (choose st cur)
    pick (inl (z, no_one)) = rw z (inr (no_one, front))
    pick (inr (a, b, r, no_one)) =
        let ne : scan st (64 - (cur + 1)) (cur + 1) ≢ 0 = omega arith in
        let t : (scan st (64 - (cur + 1)) (cur + 1) == 0) ≡ false = ground arith in
        rw t (inl (inr (a, b, r, no_one), ne))

-- The next process is the kernel task, or a ready process from 1 to 63 other than the current one.
pub choose-ready :
    (st : ℕ → State) (cur : ℕ)
    → cur < max_pid
    → (choose st cur ≡ 0)
      ⊎ ((1 ≤ choose st cur)
          × (choose st cur < max_pid)
          × (choose st cur ≢ cur)
          × (is_ready (st (choose st cur)) ≡ true))
choose-ready st cur h = elim (choose-Chosen st cur h) [
  | inl (inl (z, _), ne) ↦ absurd (ne z)
  | inl (inr (a, b, r, _), ne) ↦ inr (omega arith, b, omega arith, r)
  | inr (_, inl (z, _)) ↦ inl z
  | inr (_, inr (a, b, r, _)) ↦ inr (a, omega arith, omega arith, r)
]

-- The kernel task is chosen exactly when no process from 1 to 63 but the current one is ready.
pub choose-kernel :
    (st : ℕ → State) (cur : ℕ)
    → cur < max_pid
    → (choose st cur ≡ 0) ↔ ((i : ℕ) → 1 ≤ i → i < max_pid → i ≢ cur → is_ready (st i) ≡ false)
choose-kernel st cur h = elim (choose-Chosen st cur h) [
  | inl (inl (z, _), ne) ↦ absurd (ne z)
  | inl (inr (a, b, r, _), ne) ↦ (
    λ z. absurd (ne z),
    λ all. let f = all (choose st cur) (omega arith) b (omega arith) in ground arith,
  )
  | inr (behind, inl (z, front)) ↦ (λ _ i lo hi ne. ground (arith, behind i, front i), λ _. z)
  | inr (_, inr (a, b, r, _)) ↦ (
    λ z. absurd (omega arith),
    λ all. let f = all (choose st cur) a (omega arith) (omega arith) in ground arith,
  )
]

-- How many pids the round robin passes from `cur` until it comes to `p`.
abbrev pub distance : ℕ → ℕ → ℕ
distance cur p = if ltb cur p then p - cur else p + max_pid - cur

-- Nobody is passed over: each choice is the ready process `p` or comes nearer to it.
pub choose-distance :
    (st : ℕ → State) (cur p : ℕ)
    → cur < max_pid
    → 1 ≤ p
    → p < max_pid
    → p ≢ cur
    → is_ready (st p) ≡ true
    → (choose st cur ≡ p) ⊎ ((choose st cur ≢ p) × (distance (choose st cur) p < distance cur p))
choose-distance st cur p h lo hi ne r = elim (choose-Chosen st cur h) [
  | inl (inl (z, _), nz) ↦ absurd (nz z)
  | inl (inr (a, b, _, first), nz) ↦ ground (arith, first p)
  | inr (behind, inl (z, front)) ↦ ground (arith, behind p, front p)
  | inr (behind, inr (a, b, _, first)) ↦ ground (arith, behind p, first p)
]

pub turns : (ℕ → State) → ℕ → ℕ → ℕ
unfolding choose
turns st zero cur = cur
turns st (suc n) cur = turns st n (choose st cur)
