-- ===== src/Vfs/Checks.antt =====
-- Paths and mount points of kernel/disk/vfs.cpp on concrete trees.
use sepples_os.Prelude.{
  ℕ, zero, suc, ◌+◌, ◌≤◌, ◌≡◌, ◌≢◌, refl, sym, ap, ◌∙◌, ◌==◌, if◌then◌else◌, some, List, [], ◌∷◌,
  arith, get_elem?, ==_refl, get_or, length, subst, update,
}
use mathlib.Core.Option.{some-injective, none-ne-some}
use sepples_os.Disk.{Drive, done}
use sepples_os.Disk.Simulated.{device, started}
use sepples_os.PartTable.Types.{Partition, linux, empty}
use sepples_os.Vfs.{State, Node, Filesystem, root, no_childs, put_node}
use sepples_os.Vfs.Path.{resolve_path, found}
use sepples_os.Vfs.Walk.{walk, components, resolve_path-walk}
use sepples_os.Vfs.RoundTrip.{plain, path_of, IsName, IsWellNamed, Below, resolve_path-path_of}
use sepples_os.Vfs.Mounting.{NamesAsTold, childs_of, update_ne}

-- The root, its child `ab` at 2, and `c` below that at 3.
abbrev node_at : ℕ → Node
node_at zero = no_childs [] 1 0
node_at (suc zero) = record { name = []; parent = 1; type = 0; childs = 2 ∷ [] }
node_at (suc (suc zero)) = record { name = 97 ∷ 98 ∷ []; parent = 1; type = 0; childs = 3 ∷ [] }
node_at (suc (suc (suc n))) = no_childs (99 ∷ []) 2 0

abbrev tree : State ℕ
tree = record { nodes = node_at; fresh = 4; below = 0 }

-- `//ab/../ab/./c/`
resolve_path-walk_example :
    resolve_path plain
      (47 ∷ 47 ∷ 97 ∷ 98 ∷ 47 ∷ 46 ∷ 46 ∷ 47 ∷ 97 ∷ 98 ∷ 47 ∷ 46 ∷ 47 ∷ 99 ∷ 47 ∷ [])
      tree
    ≡ walk plain
        (components (47 ∷ 47 ∷ 97 ∷ 98 ∷ 47 ∷ 46 ∷ 46 ∷ 47 ∷ 97 ∷ 98 ∷ 47 ∷ 46 ∷ 47 ∷ 99 ∷ 47 ∷ []))
        root
        tree
resolve_path-walk_example =
    resolve_path-walk plain 47
      (47 ∷ 97 ∷ 98 ∷ 47 ∷ 46 ∷ 46 ∷ 47 ∷ 97 ∷ 98 ∷ 47 ∷ 46 ∷ 47 ∷ 99 ∷ 47 ∷ []) tree

only_child : (x c i : ℕ) → get_elem? (x ∷ []) i ≡ some c → c ≡ x
only_child x c zero e = sym (some-injective x c e)
only_child x c (suc i) e = absurd (none-ne-some _ e)

first_differs : (a b : ℕ) (s t : List ℕ) → a ≢ b → a ∷ s ≢ b ∷ t
first_differs a b s t ne e = ne (ap (λ l. get_or l 0 0) e)

c-IsName : IsName (99 ∷ [])
c-IsName = (
  (omega arith, omega arith, tt),
  (λ e. omega arith, tt),
  (λ e. omega (arith, ap length e)),
  first_differs 99 46 [] [] (λ e. omega arith),
  first_differs 99 46 [] (46 ∷ []) (λ e. omega arith),
)

ab-IsName : IsName (97 ∷ 98 ∷ [])
ab-IsName = (
  (omega arith, omega arith, (omega arith, omega arith, tt)),
  (λ e. omega arith, (λ e. omega arith, tt)),
  (λ e. omega (arith, ap length e)),
  first_differs 97 46 (98 ∷ []) [] (λ e. omega arith),
  first_differs 97 46 (98 ∷ []) (46 ∷ []) (λ e. omega arith),
)

one_child :
    (n x : ℕ)
    → (node_at n).childs ≡ x ∷ []
    → IsName (node_at x).name
    → (c i : ℕ) → get_elem? (node_at n).childs i ≡ some c
    → IsName (node_at c).name
      × ((d j : ℕ)
          → get_elem? (node_at n).childs j ≡ some d
          → (node_at d).name ≡ (node_at c).name
          → d ≡ c)
one_child n x childs ok c i at =
    let is_it = λ (d j : ℕ) (h : get_elem? (node_at n).childs j ≡ some d).
      only_child x d j (subst (λ l. get_elem? l j ≡ some d) childs h) in
    (
      subst (λ k. IsName (node_at k).name) (sym (is_it c i at)) ok,
      λ d j h _. is_it d j h ∙ sym (is_it c i at),
    )

tree-IsWellNamed : IsWellNamed tree
tree-IsWellNamed zero c i at = absurd (none-ne-some _ at)
tree-IsWellNamed (suc zero) c i at = one_child 1 2 refl ab-IsName c i at
tree-IsWellNamed (suc (suc zero)) c i at = one_child 2 3 refl c-IsName c i at
tree-IsWellNamed (suc (suc (suc n))) c i at = absurd (none-ne-some _ at)

resolve_path-path_of_example :
    resolve_path plain (path_of ((97 ∷ 98 ∷ []) ∷ (99 ∷ []) ∷ [])) tree ≡ done (found 3) tree
resolve_path-path_of_example =
    resolve_path-path_of tree 3 ((97 ∷ 98 ∷ []) ∷ (99 ∷ []) ∷ []) tree-IsWellNamed
      (Below.child 1 2 3 0 ((99 ∷ []) ∷ []) refl (Below.child 2 3 3 0 [] refl (Below.here 3)))

abbrev total : List ℕ → ℕ
total [] = 0
total (x ∷ xs) = x + total xs

below-total : (xs : List ℕ) (c i : ℕ) → get_elem? xs i ≡ some c → c ≤ total xs
below-total [] c i e = absurd (none-ne-some _ e)
below-total (x ∷ xs) c zero e = omega (arith, some-injective x c e)
below-total (x ∷ xs) c (suc i) e = omega (arith, below-total xs c i e)

-- A file system that takes every partition, and puts its node behind the mount points.
abbrev taking : Filesystem (Drive (device (λ d a. 0)))
taking part parent name s =
    let a = total (childs_of s) + 2 in done (some a) (put_node a (no_childs name parent 0) s)

update_at : (f : ℕ → Node) (p : ℕ) (v : Node) (q : ℕ) → p ≡ q → update f p v q ≡ v
update_at f p v q e = ap (λ b. if b then v else f q) (ap (λ x. p == x) (sym e) ∙ ==_refl p)

taking-NamesAsTold : NamesAsTold taking
taking-NamesAsTold part parent name s =
    let a = total (childs_of s) + 2 in
    let v = no_childs name parent 0 in
    record {
      answer = some a;
      final = put_node a v s;
      run = refl;
      post = (
        (
          ap (λ m. m.childs) (update_ne s.nodes a v root (omega arith)),
          λ c i at.
              ap (λ m. m.name)
                (update_ne s.nodes a v c (omega (arith, below-total (childs_of s) c i at))),
        ),
        λ node e.
            let same = some-injective a node e in
            (omega (arith, same), ap (λ m. m.name) (update_at s.nodes a v node same)),
      );
    }

abbrev empty_root : State (Drive (device (λ d a. 0)))
empty_root = record { nodes = λ a. no_childs [] 1 0; fresh = 2; below = started }

abbrev table : List Partition
table =
    record { start_lba = 8; size_lba = 8; disk_id = 0; type = linux }
    ∷ record { start_lba = 0; size_lba = 0; disk_id = 0; type = empty }
    ∷ record { start_lba = 16; size_lba = 8; disk_id = 0; type = linux }
    ∷ []
