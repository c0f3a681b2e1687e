-- ===== src/LinkedList/Checks.antt =====
-- The operations of kernel/lib/llist.h on a concrete list.
use sepples_os.Prelude.{ℕ, zero, suc, ◌≡◌, refl, [], ◌∷◌, arith, ◌*◌, ◌-◌}
use sepples_os.LinkedList.{Cells, answer, append, remove_at, empty, insert}
use sepples_os.LinkedList.Refinement.{Represents, append-Represents}
use sepples_os.LinkedList.Inserting.{insert-Represents}
use sepples_os.LinkedList.Removing.{remove_at-Represents, empty-Represents}

-- The head at 1, and the values 10 and 20 at 2 and 3.
abbrev next_of : ℕ → ℕ
next_of zero = 0
next_of (suc zero) = 2
next_of (suc (suc zero)) = 3
next_of (suc (suc (suc n))) = 0

abbrev prev_of : ℕ → ℕ
prev_of zero = 0
prev_of (suc zero) = 0
prev_of (suc (suc n)) = suc n

abbrev cells : Cells
cells = record { next = next_of; prev = prev_of; value = λ a. 10 * (a - 1); fresh = 4 }

cells-Represents : Represents cells 1 (2 ∷ 3 ∷ []) (10 ∷ 20 ∷ [])
cells-Represents = record {
  links = (refl, refl, (λ e. omega (arith, e)), (refl, refl, (λ e. omega (arith, e)), refl));
  apart = (
    ((λ e. omega (arith, e)), ((λ e. omega (arith, e)), tt)),
    (((λ e. omega (arith, e)), tt), (tt, tt)),
  );
  taken = (omega arith, (omega arith, (omega arith, tt)));
  head = λ e. omega (arith, e);
  holds = refl;
}

append-Represents_example :
    (s' : Cells) × (append 3 1 30 cells ≡ answer s')
    × Represents s' 1 (2 ∷ 3 ∷ 4 ∷ []) (10 ∷ 20 ∷ 30 ∷ [])
append-Represents_example =
    append-Represents 3 1 30 cells (2 ∷ 3 ∷ []) (10 ∷ 20 ∷ []) cells-Represents (omega arith)
      (omega arith)

remove_at-Represents_example :
    (s' : Cells) × (remove_at 1 1 cells ≡ answer s') × Represents s' 1 (2 ∷ []) (10 ∷ [])
remove_at-Represents_example =
    remove_at-Represents cells 1 3 (2 ∷ []) [] (10 ∷ 20 ∷ []) cells-Represents

empty-Represents_example : (s' : Cells) × (empty 3 1 cells ≡ answer s') × Represents s' 1 [] []
empty-Represents_example =
    empty-Represents 3 1 cells (2 ∷ 3 ∷ []) (10 ∷ 20 ∷ []) cells-Represents (omega arith)
      (omega arith)

insert-Represents_example :
    (s' : Cells) × (insert 1 1 15 cells ≡ answer s')
    × Represents s' 1 (2 ∷ 4 ∷ 3 ∷ []) (10 ∷ 15 ∷ 20 ∷ [])
insert-Represents_example =
    insert-Represents cells 1 15 (2 ∷ []) (3 ∷ []) (10 ∷ 20 ∷ []) cells-Represents (omega arith)
