-- ===== src/LinkedList.antt =====
-- The doubly linked list of kernel/lib/llist.h. A list is a head cell, whose data is not used, and the
-- cells behind it; 0 is nullptr. Each walk has a number of rounds, one more than there are cells.
pub mod Links
pub mod Refinement
pub mod Removing
pub mod Splicing
pub mod Inserting
pub mod Checks
use sepples_os.Prelude.{
  ℕ, zero, suc, ◌+◌, ◌-◌, ◌==◌, ltb, if◌then◌else◌, Bool, true, false, ◌&&◌, Option, none, some,
  update, ◌%◌, ◌^◌,
}

-- The fields of the cells by address, and the address of the next cell that `new` makes.
pub record Cells : Type 0 where
  pub next : ℕ → ℕ
  pub prev : ℕ → ℕ
  pub value : ℕ → ℕ
  pub fresh : ℕ

-- `stopped` is `fatalError`, or an access at address 0.
pub data Answer (A : Type 0) : Type 0 where
  answer : A → Answer A
  stopped : Answer A
  out_of_fuel : Answer A

infixl 5 ◌>>=◌
abbrev pub ◌>>=◌ : {A B : Type 0} → Answer A → (A → Answer B) → Answer B
answer a >>= f = f a
stopped >>= f = stopped
out_of_fuel >>= f = out_of_fuel

abbrev pub set_next : ℕ → ℕ → Cells → Cells
set_next a v s = record s { next = update s.next a v }

abbrev pub set_prev : ℕ → ℕ → Cells → Cells
set_prev a v s = record s { prev = update s.prev a v }

abbrev pub set_value : ℕ → ℕ → Cells → Cells
set_value a v s = record s { value = update s.value a v }

-- `new llist`, with both links empty.
unfoldable pub new_cell : Cells → Cells
new_cell s = record (set_next s.fresh 0 (set_prev s.fresh 0 s)) { fresh = suc s.fresh }

-- The cells behind `i`.
unfoldable pub count_from : ℕ → ℕ → Cells → Answer ℕ
count_from zero i s = out_of_fuel
count_from (suc rounds) i s =
    let rest = count_from rounds (s.next i) s in
    if s.next i == 0 then answer 0 else (rest >>= λ n. answer (suc n))

-- `size`, an unsigned number.
unfoldable pub size : ℕ → ℕ → Cells → Answer ℕ
size rounds this s =
    if s.next this == 0 then answer 0 else (count_from rounds this s >>= λ n. answer (n % 2 ^ 32))

unfoldable pub is_empty : ℕ → Cells → Bool
is_empty this s = s.next this == 0

-- The cell `left` links behind `i`.
unfoldable pub step_to : ℕ → ℕ → Cells → Answer ℕ
step_to zero i s = answer i
step_to (suc left) i s =
    let rest = step_to left (s.next i) s in if s.next i == 0 then stopped else rest

unfoldable pub at : ℕ → ℕ → Cells → Answer ℕ
at this pos s =
    if s.next this == 0 then answer 0 else (step_to pos (s.next this) s >>= λ i. answer (s.value i))

unfoldable pub prepend : ℕ → ℕ → Cells → Cells
prepend this udata s =
    let n = s.fresh in
    let linked = set_next n (s.next this) (set_prev n this (new_cell s)) in
    let back = if s.next this == 0 then linked else set_prev (s.next this) n linked in
    set_value n udata (set_next this n back)

-- The last cell, from `i` on.
unfoldable pub last_from : ℕ → ℕ → Cells → Answer ℕ
last_from zero i s = out_of_fuel
last_from (suc rounds) i s =
    let rest = last_from rounds (s.next i) s in if s.next i == 0 then answer i else rest

-- A new cell behind the cell `i`, which is the last one.
unfoldable pub link_behind : ℕ → ℕ → Cells → Cells
link_behind i udata s =
    let n = s.fresh in set_value n udata (set_prev n i (set_next i n (new_cell s)))

unfoldable pub append : ℕ → ℕ → ℕ → Cells → Answer Cells
append rounds this udata s =
    if s.next this == 0
    then answer (link_behind this udata s)
    else (last_from rounds (s.next this) s >>= λ i. answer (link_behind i udata s))

-- A new cell before the cell `i`.
unfoldable pub link_before : ℕ → ℕ → Cells → Cells
link_before i udata s =
    let n = s.fresh in
    let made = new_cell s in
    let forward = set_next (made.prev i) n made in
    let linked = set_next n i (set_prev n (forward.prev i) forward) in
    set_value n udata (set_prev i n linked)

-- The search of `insert` from the cell `i` on, `left` links before the place: the cell, and whether the
-- place is behind it.
unfoldable pub place_from : ℕ → ℕ → Cells → Answer (ℕ × Bool)
place_from zero i s = answer (i, false)
place_from (suc left) i s =
    let rest = place_from left (s.next i) s in
    if s.next i == 0 then (if left == 0 then answer (i, true) else stopped) else rest

unfoldable pub insert : ℕ → ℕ → ℕ → Cells → Answer Cells
insert this pos udata s =
    if pos == 0
    then answer (prepend this udata s)
    else if s.next this == 0
    then answer s
    else (place_from pos (s.next this) s >>= λ (i, behind).
        answer (if behind then link_behind i udata s else link_before i udata s))

unfoldable pub remove_last : ℕ → ℕ → Cells → Answer Cells
remove_last rounds this s =
    if s.next this == 0
    then answer s
    else (last_from rounds (s.next this) s >>= λ i. answer (set_next (s.prev i) 0 s))

unfoldable pub remove_first : ℕ → Cells → Answer Cells
remove_first this s =
    let first = s.next this in
    if first == 0
    then stopped
    else answer (
        if s.next first == 0
        then set_next this 0 s
        else set_prev (s.next first) this (set_next this (s.next first) s))

-- Takes the cell `i` out of its list.
unfoldable pub unlink : ℕ → Cells → Cells
unlink i s =
    if s.next i == 0
    then set_next (s.prev i) 0 s
    else set_prev (s.next i) (s.prev i) (set_next (s.prev i) (s.next i) s)

unfoldable pub remove_at : ℕ → ℕ → Cells → Answer Cells
remove_at this index s =
    if s.next this == 0
    then answer s
    else if index == 0
    then remove_first this s
    else (step_to index (s.next this) s >>= λ i. answer (unlink i s))

-- `empty`: the loop while `size()` is not 0.
unfoldable pub empty : ℕ → ℕ → Cells → Answer Cells
empty zero this s = out_of_fuel
empty (suc rounds) this s = size (suc rounds) this s >>= λ n.
    if n == 0 then answer s else (remove_first this s >>= λ t. empty rounds this t)
