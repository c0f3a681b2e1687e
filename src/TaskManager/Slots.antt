-- ===== src/TaskManager/Slots.antt =====
-- The search for a free slot in `loadTask` of kernel/proc/process.cpp.
use sepples_os.Prelude.{
  ℕ, zero, suc, ◌+◌, ◌≤◌, ◌<◌, ◌≡◌, refl, inl, inr, true, false, none, some, arith, ltb, Bool-cases,
  ◌↔◌,
}
use sepples_os.TaskManager.{State, is_used, max_pid, first_free, new_pid}

-- What the search has found: the first free slot from `pid` on, or one behind the last.
record Found (st : ℕ → State) (pid last r : ℕ) : Type 0 where
  above : pid ≤ r
  below : r ≤ last + 1
  used : (i : ℕ) → pid ≤ i → i < r → is_used (st i) ≡ true
  free : r ≤ last → is_used (st r) ≡ false

Found-step :
    (st : ℕ → State) (pid last r : ℕ)
    → is_used (st pid) ≡ true
    → Found st (pid + 1) last r
    → Found st pid last r
Found-step st pid last r u f = record {
  above = omega (arith, f.above);
  below = f.below;
  used = λ i lo hi. ground (arith, f.used i);
  free = f.free;
}

first_free-Found :
    (st : ℕ → State) (n pid last : ℕ) → pid + n ≡ last → Found st pid last (first_free st n pid)
unfolding first_free
first_free-Found st zero pid last e = elim (Bool-cases (is_used (st pid))) [
  | inl u ↦ rw u (record {
    above = omega arith;
    below = omega arith;
    used = λ i lo hi. ground arith;
    free = λ h. absurd (omega arith);
  })
  | inr f ↦ rw f (record {
    above = omega arith;
    below = omega arith;
    used = λ i lo hi. absurd (omega arith);
    free = λ _. f;
  })
]
first_free-Found st (suc n) pid last e = elim (Bool-cases (is_used (st pid))) [
  | inl u ↦ rw u (Found-step st pid last _ u (first_free-Found st n (pid + 1) last (omega arith)))
  | inr f ↦ rw f (record {
    above = omega arith;
    below = omega arith;
    used = λ i lo hi. absurd (omega arith);
    free = λ _. f;
  })
]

-- A pid that the search gives is a slot from 1 to 63 that is not in use, and every slot from 1
-- up to it is in use.
pub new_pid-free :
    (st : ℕ → State) (pid : ℕ)
    → new_pid st ≡ some pid
    → (1 ≤ pid)
      × (pid < max_pid)
      × (is_used (st pid) ≡ false)
      × ((i : ℕ) → 1 ≤ i → i < pid → is_used (st i) ≡ true)
unfolding new_pid
new_pid-free st pid e =
    let f = first_free-Found st 63 1 64 refl in
    elim (Bool-cases (ltb (first_free st 63 1) 64)) [
      | inl h ↦
          let p : first_free st 63 1 ≡ pid = ground arith in
          let g : Found st 1 64 pid = rw p at f in
          let k : pid < 64 = ground arith in (g.above, k, g.free (omega arith), g.used)
      | inr h ↦ ground arith
    ]

-- The search fails exactly when all of the slots from 1 to 63 are in use: slot 64 of the table is
-- looked at and never given out.
pub new_pid-none :
    (st : ℕ → State) → (new_pid st ≡ none) ↔ ((i : ℕ) → 1 ≤ i → i < max_pid → is_used (st i) ≡ true)
unfolding new_pid
new_pid-none st =
    let f = first_free-Found st 63 1 64 refl in
    (
      λ e i lo hi. f.used i lo (ground arith),
      λ all. elim (Bool-cases (ltb (first_free st 63 1) 64)) [
        | inl h ↦
            let k : first_free st 63 1 < 64 = ground arith in
            let u = all (first_free st 63 1) f.above k in
            let w = f.free (omega arith) in ground arith
        | inr h ↦ rw h
      ],
    )
