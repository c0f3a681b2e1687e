-- ===== src/LinkedList/Removing.antt =====
-- The removals of kernel/lib/llist.h as removals from the list of the values.
use sepples_os.Prelude.{
  ℕ, zero, suc, ◌<◌, ◌≡◌, ◌≢◌, refl, sym, ap, ◌∙◌, subst, ◌==◌, if◌then◌else◌, false, List, [], ◌∷◌,
  ◌++◌, length, map, update, ==_of_ne, arith, Bool-cases, inl, inr, drop, take, ◌^◌, ◌%◌,
}
use mathlib.Core.List.{append-nil}
use sepples_os.LinkedList.{
  Cells, Answer, answer, stopped, ◌>>=◌, size, step_to, remove_first, unlink, remove_at, empty,
  set_next, set_prev,
}
use sepples_os.LinkedList.Links.{
  Linked, NotIn, Distinct, last_of, Linked-middle, Linked-cut, Linked-skip,
}
use sepples_os.LinkedList.Refinement.{AllBelow, Represents, count_from-length}

step_to-middle :
    (s : Cells) (p z : ℕ) (xs ys : List ℕ)
    → Linked s.next s.prev p (xs ++ z ∷ ys)
    → step_to (suc (length xs)) p s ≡ answer z
unfolding step_to
step_to-middle s p z [] ys (e, b, nz, l) = rw (e, ==_of_ne z 0 nz) refl
step_to-middle s p z (x ∷ xs) ys (e, b, nz, l) =
    rw (e, ==_of_ne x 0 nz) (step_to-middle s x z xs ys l)

NotIn-without : (q z : ℕ) (xs ys : List ℕ) → NotIn q (xs ++ z ∷ ys) → NotIn q (xs ++ ys)
NotIn-without q z [] ys (ne, h) = h
NotIn-without q z (x ∷ xs) ys (ne, h) = (ne, NotIn-without q z xs ys h)

Distinct-without : (z : ℕ) (xs ys : List ℕ) → Distinct (xs ++ z ∷ ys) → Distinct (xs ++ ys)
Distinct-without z [] ys (h, d) = d
Distinct-without z (x ∷ xs) ys (h, d) = (NotIn-without x z xs ys h, Distinct-without z xs ys d)

AllBelow-without : (n z : ℕ) (xs ys : List ℕ) → AllBelow n (xs ++ z ∷ ys) → AllBelow n (xs ++ ys)
AllBelow-without n z [] ys (lt, h) = h
AllBelow-without n z (x ∷ xs) ys (lt, h) = (lt, AllBelow-without n z xs ys h)

-- The values around a place.
around :
    (f : ℕ → ℕ) (z : ℕ) (xs ys : List ℕ)
    → map f (xs ++ ys)
      ≡ take (length xs) (map f (xs ++ z ∷ ys)) ++ drop (suc (length xs)) (map f (xs ++ z ∷ ys))
around f z [] ys = refl
around f z (x ∷ xs) ys = ap (λ l. f x ∷ l) (around f z xs ys)

unlink-last : (s : Cells) (z q : ℕ) → s.next z ≡ 0 → s.prev z ≡ q → unlink z s ≡ set_next q 0 s
unfolding unlink
unlink-last s z q e b =
    ap
      (λ n.
        if n == 0 then set_next (s.prev z) 0 s else set_prev n (s.prev z) (set_next (s.prev z) n s))
      e
    ∙ ap (λ p. set_next p 0 s) b

unlink-inner :
    (s : Cells) (z q w : ℕ)
    → s.next z ≡ w
    → w ≢ 0
    → s.prev z ≡ q
    → unlink z s ≡ set_prev w q (set_next q w s)
unfolding unlink
unlink-inner s z q w e nz b =
    ap
      (λ n.
        if n == 0 then set_next (s.prev z) 0 s else set_prev n (s.prev z) (set_next (s.prev z) n s))
      e
    ∙ (ap
          (λ t.
            if t then set_next (s.prev z) 0 s else set_prev w (s.prev z) (set_next (s.prev z) w s))
          (==_of_ne w 0 nz)
        ∙ ap (λ p. set_prev w p (set_next p w s)) b)

unlink-links :
    (s : Cells) (this z : ℕ) (xs ys : List ℕ)
    → Distinct (this ∷ (xs ++ z ∷ ys))
    → Linked s.next s.prev this (xs ++ z ∷ ys)
    → Linked (unlink z s).next (unlink z s).prev this (xs ++ ys)
unlink-links s this z xs [] d l =
    let (before, behind) = Linked-middle s.next s.prev this z xs [] l in
    let cut = Linked-cut s.next s.prev this z xs d l in
    subst (λ t. Linked t.next t.prev this (xs ++ []))
      (sym (unlink-last s z (last_of this xs) behind before))
      (subst (λ cs. Linked (update s.next (last_of this xs) 0) s.prev this cs) (sym (append-nil xs))
        cut)
unlink-links s this z xs (w ∷ ys) d l =
    let (before, (e, b, nz, rest)) = Linked-middle s.next s.prev this z xs (w ∷ ys) l in
    subst (λ t. Linked t.next t.prev this (xs ++ w ∷ ys))
      (sym (unlink-inner s z (last_of this xs) w e nz before))
      (Linked-skip s.next s.prev this z w xs ys d l)

unlink_rest : (s : Cells) (z : ℕ) → ((unlink z s).value ≡ s.value) × ((unlink z s).fresh ≡ s.fresh)
unfolding unlink
unlink_rest s z = elim (Bool-cases (s.next z == 0)) [
  | inl e ↦ rw e (refl, refl)
  | inr e ↦ rw e (refl, refl)
]

unlink-Represents :
    (s : Cells) (this z : ℕ) (xs ys values : List ℕ)
    → Represents s this (xs ++ z ∷ ys) values
    → Represents
        (unlink z s)
        this
        (xs ++ ys)
        (take (length xs) values ++ drop (suc (length xs)) values)
unlink-Represents s this z xs ys values r =
    let (same_values, same_fresh) = unlink_rest s z in
    record {
      links = unlink-links s this z xs ys r.apart r.links;
      apart = Distinct-without z (this ∷ xs) ys r.apart;
      taken =
          subst (λ n. AllBelow n (this ∷ (xs ++ ys))) (sym same_fresh)
            (AllBelow-without s.fresh z (this ∷ xs) ys r.taken);
      head = r.head;
      holds =
          ap (λ f. map f (xs ++ ys)) same_values
          ∙ (around s.value z xs ys
              ∙ ap (λ l. take (length xs) l ++ drop (suc (length xs)) l) r.holds);
    }

remove_at-first :
    (s : Cells) (this index first : ℕ)
    → s.next this ≡ first
    → first ≢ 0
    → remove_at this index s ≡ (
        if index == 0
        then remove_first this s
        else (step_to index first s >>= λ i. answer (unlink i s)))
unfolding remove_at
remove_at-first s this index first e nz =
    ap
      (λ n.
        if n == 0
        then answer s
        else (if index == 0
            then remove_first this s
            else (step_to index n s >>= λ i. answer (unlink i s))))
      e
    ∙ ap
        (λ b.
          if b
          then answer s
          else (if index == 0
              then remove_first this s
              else (step_to index first s >>= λ i. answer (unlink i s))))
        (==_of_ne first 0 nz)

-- `remove_first` of the cell `first`.
abbrev dropped : Cells → ℕ → ℕ → Cells
dropped s this first =
    if s.next first == 0
    then set_next this 0 s
    else set_prev (s.next first) this (set_next this (s.next first) s)

-- The first cell is taken out as another one is.
remove_first-unlink :
    (s : Cells) (this first : ℕ)
    → s.next this ≡ first
    → s.prev first ≡ this
    → first ≢ 0
    → remove_first this s ≡ answer (unlink first s)
unfolding remove_first unlink
remove_first-unlink s this first e b nz =
    ap (λ f. if f == 0 then stopped else answer (dropped s this f)) e
    ∙ (ap (λ t. if t then stopped else answer (dropped s this first)) (==_of_ne first 0 nz)
        ∙ ap (λ p. answer (dropped s p first)) (sym b))

-- `removeAt` takes the cell at an index out of the list, and its value out of the values; the cells
-- before and behind it stay in their order.
pub remove_at-Represents :
    (s : Cells) (this z : ℕ) (xs ys values : List ℕ)
    → Represents s this (xs ++ z ∷ ys) values
    → (s' : Cells) × (remove_at this (length xs) s ≡ answer s')
      × Represents s' this (xs ++ ys) (take (length xs) values ++ drop (suc (length xs)) values)
remove_at-Represents s this z [] ys values r = (
  unlink z s,
  remove_at-first s this 0 z r.links.0 r.links.2
      ∙ remove_first-unlink s this z r.links.0 r.links.1 r.links.2,
  unlink-Represents s this z [] ys values r,
)
remove_at-Represents s this z (x ∷ xs) ys values r =
    let (e, b, nz, l) = r.links in
    (
      unlink z s,
      remove_at-first s this (suc (length xs)) x e nz
          ∙ (ap
                (λ t.
                  if t
                  then remove_first this s
                  else (step_to (suc (length xs)) x s >>= λ i. answer (unlink i s)))
                (==_of_ne (suc (length xs)) 0 (λ h. omega (arith, h)))
              ∙ ap (λ o. o >>= λ i. answer (unlink i s)) (step_to-middle s x z xs ys l)),
      unlink-Represents s this z (x ∷ xs) ys values r,
    )

size-length :
    (s : Cells) (this rounds : ℕ) (cells values : List ℕ)
    → Represents s this cells values
    → length cells < rounds
    → size rounds this s ≡ answer (length cells % 2 ^ 32)
unfolding size
size-length s this rounds [] values r lt = rw r.links refl
size-length s this rounds (c ∷ cs) values r lt =
    let (e, b, nz, l) = r.links in
    rw (e, ==_of_ne c 0 nz)
      (ap (λ o. o >>= λ n. answer (n % 2 ^ 32))
        (count_from-length s this (c ∷ cs) rounds r.links lt))

-- One round of `empty` on a list of `n` cells.
abbrev round : ℕ → ℕ → Cells → ℕ → Answer Cells
round rounds this s n =
    if n == 0 then answer s else (remove_first this s >>= λ t. empty rounds this t)

-- `empty` ends, on a list that is shorter than 2^32, and the list is empty then.
pub empty-Represents :
    (rounds this : ℕ) (s : Cells) (cells values : List ℕ)
    → Represents s this cells values
    → length cells < rounds
    → length cells < 2 ^ 32
    → (s' : Cells) × (empty rounds this s ≡ answer s') × Represents s' this [] []
unfolding empty
empty-Represents zero this s cells values r lt small = absurd (omega arith)
empty-Represents (suc rounds) this s [] values r lt small = (
  s,
  ap (λ o. o >>= round rounds this s) (size-length s this (suc rounds) [] values r lt),
  subst (λ vs. Represents s this [] vs) (sym r.holds) r,
)
empty-Represents (suc rounds) this s (c ∷ cs) values r lt small =
    let n = length (c ∷ cs) % 2 ^ 32 in
    let nonzero : (n == 0) ≡ false = ==_of_ne n 0 (λ h. omega (arith, h, small)) in
    let (s', runs, rest) =
      empty-Represents rounds this (unlink c s) cs (drop 1 values)
        (unlink-Represents s this c [] cs values r) (omega arith) (omega arith) in
    (
      s',
      ap (λ o. o >>= round rounds this s) (size-length s this (suc rounds) (c ∷ cs) values r lt)
          ∙ (ap (λ t. if t then answer s else (remove_first this s >>= λ u. empty rounds this u))
                nonzero
              ∙ (ap (λ o. o >>= λ u. empty rounds this u)
                    (remove_first-unlink s this c r.links.0 r.links.1 r.links.2)
                  ∙ runs)),
      rest,
    )
