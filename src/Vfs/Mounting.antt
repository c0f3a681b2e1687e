-- ===== src/Vfs/Mounting.antt =====
-- The names of the mount points of kernel/disk/vfs.cpp, and the mounting of a table of
-- kernel/disk/partTable.cpp.
use sepples_os.Prelude.{
  ℕ, zero, suc, ◌≡◌, ◌≢◌, refl, sym, ap, ◌∙◌, subst, if◌then◌else◌, none, some, List, [], ◌∷◌, ◌++◌,
  length, get_elem?, Bool-cases, ◌⊎◌, inl, inr, update, ==_of_ne, Option-cases,
}
use mathlib.Core.Option.{some-injective, none-ne-some}
use sepples_os.Disk.{Ports, Drive, ◌>>=◌, return}
use sepples_os.Disk.Triples.{Gives, Gives-return, Gives-bind, Gives-same}
use sepples_os.Strings.{utoa}
use sepples_os.PartTable.Types.{Partition}
use sepples_os.PartTable.{is_mountable, mount_each}
use sepples_os.Vfs.{State, Vfs, Filesystem, root, append_child, add_child, try_filesystems, mount}

pub update_ne : {A : Type 0} (f : ℕ → A) (p : ℕ) (v : A) (q : ℕ) → p ≢ q → update f p v q ≡ f q
update_ne f p v q ne = ap (λ b. if b then v else f q) (==_of_ne p q ne)

get_elem?-snoc :
    (xs : List ℕ) (x c i : ℕ)
    → get_elem? (xs ++ x ∷ []) i ≡ some c
    → (get_elem? xs i ≡ some c) ⊎ ((i ≡ length xs) × (c ≡ x))
get_elem?-snoc [] x c zero e = inr (refl, sym (some-injective x c e))
get_elem?-snoc [] x c (suc i) e = absurd (none-ne-some _ e)
get_elem?-snoc (y ∷ xs) x c zero e = inl e
get_elem?-snoc (y ∷ xs) x c (suc i) e = elim (get_elem?-snoc xs x c i e) [
  | inl h ↦ inl h
  | inr (h, k) ↦ inr (ap suc h, k)
]

module _ {T : Type 0} where
  abbrev pub childs_of : State T → List ℕ
  childs_of s = (s.nodes root).childs

  -- The mount points are named by their numbers, from 0 on.
  abbrev pub IsNumbered : State T → Type 0
  IsNumbered s =
      (c i : ℕ) → get_elem? (childs_of s) i ≡ some c → (c ≢ root) × ((s.nodes c).name ≡ utoa i 10)

  -- What `s'` keeps of `s`: the mount points and their names.
  abbrev pub KeepsMounts : State T → State T → Type 0
  KeepsMounts s s' =
      (childs_of s' ≡ childs_of s)
      × ((c i : ℕ) → get_elem? (childs_of s) i ≡ some c → (s'.nodes c).name ≡ (s.nodes c).name)

  -- A file system does not touch the mount points, and names its node as it is told.
  abbrev pub NamesAsTold : Filesystem T → Type 0
  NamesAsTold fs =
      (part : Partition) (parent : ℕ) (name : List ℕ) (s : State T)
      → Gives (fs part parent name) s (λ o s'.
        KeepsMounts s s'
        × ((node : ℕ) → o ≡ some node → (node ≢ root) × ((s'.nodes node).name ≡ name)))

  abbrev pub AllNameAsTold : List (Filesystem T) → Type 0
  AllNameAsTold [] = Unit
  AllNameAsTold (fs ∷ others) = NamesAsTold fs × AllNameAsTold others

  KeepsMounts-IsNumbered : (s s' : State T) → KeepsMounts s s' → IsNumbered s → IsNumbered s'
  KeepsMounts-IsNumbered s s' (same, names) n c i at =
      let at' = subst (λ l. get_elem? l i ≡ some c) same at in
      ((n c i at').0, names c i at' ∙ (n c i at').1)

  name-append_child :
      (c node : ℕ) (s : State T)
      → c ≢ root
      → ((append_child root node s).nodes c).name ≡ (s.nodes c).name
  name-append_child c node s ne = ap (λ m. m.name) (update_ne s.nodes root _ c (λ e. ne (sym e)))

  append_child-IsNumbered :
      (node : ℕ) (s : State T)
      → IsNumbered s
      → node ≢ root
      → (s.nodes node).name ≡ utoa (length (childs_of s)) 10
      → IsNumbered (append_child root node s)
  append_child-IsNumbered node s n ne named c i at =
      elim (get_elem?-snoc (childs_of s) node c i at) [
        | inl h ↦ ((n c i h).0, name-append_child c node s (n c i h).0 ∙ (n c i h).1)
        | inr (last, same) ↦
            let c_ne : c ≢ root = λ e. ne (sym same ∙ e) in
            let is_named =
              ap (λ x. (s.nodes x).name) same ∙ (named ∙ ap (λ k. utoa k 10) (sym last)) in
            (c_ne, name-append_child c node s c_ne ∙ is_named)
      ]

  added-IsNumbered :
      (node : ℕ) (s : State T)
      → IsNumbered s
      → node ≢ root
      → (s.nodes node).name ≡ utoa (length (childs_of s)) 10
      → Gives (add_child root node >>= λ _. return (some node)) s (λ _ s'. IsNumbered s')
  unfolding add_child
  added-IsNumbered node s n ne named = record {
    answer = some node;
    final = append_child root node s;
    run = refl;
    post = append_child-IsNumbered node s n ne named;
  }

  try_filesystems-IsNumbered :
      (fs : List (Filesystem T)) (part : Partition) (parent : ℕ) (name : List ℕ) (s : State T)
      → AllNameAsTold fs
      → IsNumbered s
      → name ≡ utoa (length (childs_of s)) 10
      → Gives (try_filesystems fs part parent name) s (λ _ s'. IsNumbered s')
  unfolding try_filesystems
  try_filesystems-IsNumbered [] part parent name s told n e = Gives-return none s n
  try_filesystems-IsNumbered (f ∷ fs) part parent name s (told, others) n e =
      Gives-bind (told part parent name s) (λ o s' (keeps, node).
        let n' = KeepsMounts-IsNumbered s s' keeps n in
        let e' : name ≡ utoa (length (childs_of s')) 10 =
          e ∙ ap (λ l. utoa (length l) 10) (sym keeps.0) in
        elim (Option-cases o) [
          | inl eo ↦ rw eo (try_filesystems-IsNumbered fs part parent name s' others n' e')
          | inr (a, eo) ↦
              let (ne, named) = node a eo in rw eo (added-IsNumbered a s' n' ne (named ∙ e'))
        ])

  mount-IsNumbered :
      (v : Vfs T) (part : Partition) (parent : ℕ) (s : State T)
      → AllNameAsTold v.filesystems
      → IsNumbered s
      → Gives (mount v part parent none) s (λ _ s'. IsNumbered s')
  unfolding mount
  mount-IsNumbered v part parent s told n =
      Gives-same (try_filesystems v.filesystems part parent (utoa (length (childs_of s)) 10)) refl
        (try_filesystems-IsNumbered v.filesystems part parent _ s told n refl)

-- Mounting a table ends, and the mount points are named by their numbers from 0 on, in the order in
-- which they were mounted, if they were so before, over file systems that keep the mount points and
-- name their nodes as they are told.
pub mount_each-IsNumbered :
    (P : Ports) (v : Vfs (Drive P)) (parts : List Partition) (s : State (Drive P))
    → AllNameAsTold v.filesystems
    → IsNumbered s
    → Gives (mount_each P v parts) s (λ _ s'. IsNumbered s')
unfolding mount_each
mount_each-IsNumbered P v [] s told n = Gives-return tt s n
mount_each-IsNumbered P v (part ∷ parts) s told n = elim (Bool-cases (is_mountable part.type)) [
  | inl e ↦ rw e (
      Gives-bind (mount-IsNumbered v part root s told n)
        (λ _ s' n'. mount_each-IsNumbered P v parts s' told n'))
  | inr e ↦ rw e (mount_each-IsNumbered P v parts s told n)
]
