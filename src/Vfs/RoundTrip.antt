-- ===== src/Vfs/RoundTrip.antt =====
-- The path of a node of kernel/disk/vfs.cpp, and back.
use sepples_os.Prelude.{
  ℕ, zero, suc, ◌≡◌, ◌≢◌, refl, sym, ap, ◌∙◌, ◌==◌, false, none, some, List, [], ◌∷◌, ◌++◌,
  get_elem?, Bool-cases, inl, inr, arith, ==_of_ne, ==_iff,
}
use mathlib.Core.List.{append-nil, append_assoc}
use sepples_os.Disk.{done, Io}
use sepples_os.Strings.{strcmp}
use sepples_os.Strings.Compare.{IsString, strcmp-equal_iff}
use sepples_os.Vfs.{State, root, lookup}
use sepples_os.Vfs.Path.{
  NodeClass, Resolved, found, slash, dot, dot_dot, find_child, descend, enter, arrive, look_among,
  resolve_path,
}
use sepples_os.Vfs.Walk.{words_from, components, walk, resolve_path-walk}

-- The methods of `Node` itself.
abbrev pub plain : {T : Type 0} → NodeClass (State T)
plain = record {
  lookup = lookup;
  get_name = λ a s. (s.nodes a).name;
  get_parent = λ a s. (s.nodes a).parent;
}

abbrev pub NoSlash : List ℕ → Type 0
NoSlash [] = Unit
NoSlash (c ∷ p) = (c ≢ slash) × NoSlash p

-- A name that a path can hold.
abbrev pub IsName : List ℕ → Type 0
IsName name = IsString name × NoSlash name × (name ≢ []) × (name ≢ dot) × (name ≢ dot_dot)

-- `path_of` has a slash before each name, and one at its end.
unfoldable pub path_of : List (List ℕ) → List ℕ
path_of [] = slash ∷ []
path_of (name ∷ names) = slash ∷ (name ++ path_of names)

abbrev pub AllNames : List (List ℕ) → Type 0
AllNames [] = Unit
AllNames (name ∷ names) = IsName name × AllNames names

words_from-word :
    (name w p : List ℕ) → NoSlash name → words_from w (name ++ p) ≡ words_from (w ++ name) p
unfolding words_from
words_from-word [] w p h = ap (λ x. words_from x p) (sym (append-nil w))
words_from-word (c ∷ name) w p (ne, h) = rw (==_of_ne c slash ne) (
    words_from-word name (w ++ c ∷ []) p h
    ∙ ap (λ x. words_from x p) (append_assoc w (c ∷ []) name))

-- What follows a name starts with a slash.
words_from-path_of :
    (w : List ℕ) (names : List (List ℕ))
    → w ≢ []
    → words_from w (path_of names) ≡ w ∷ words_from [] (path_of names)
unfolding words_from path_of
words_from-path_of [] names h = absurd (h refl)
words_from-path_of (c ∷ w) [] h = refl
words_from-path_of (c ∷ w) (name ∷ names) h = refl

-- The path of some names holds these names.
pub components-path_of :
    (names : List (List ℕ)) → AllNames names → components (path_of names) ≡ names
unfolding path_of words_from
components-path_of [] h = refl
components-path_of (name ∷ names) (n, h) =
    words_from-word name [] (path_of names) n.1
    ∙ (words_from-path_of name names n.2 ∙ ap (λ x. name ∷ x) (components-path_of names h))

some-injective : {a b : ℕ} → some a ≡ some b → a ≡ b
some-injective {a = a} e = ap (λ o. elim o [ none ↦ a | some x ↦ x ]) e

none≢some : {a : ℕ} → none ≢ some a
none≢some e = cc

dot-IsString : IsString dot
dot-IsString = (omega arith, omega arith, tt)

dot_dot-IsString : IsString dot_dot
dot_dot-IsString = (omega arith, omega arith, (omega arith, omega arith, tt))

strcmp-differs : (a b : List ℕ) → IsString a → IsString b → a ≢ b → (strcmp a b == 0) ≡ false
strcmp-differs a b sa sb ne = ==_of_ne (strcmp a b) 0 (λ e. ne ((strcmp-equal_iff a b sa sb).0 e))

module _ {T : Type 0} (s : State T) where
  -- `Below n names m`: `names` are the names of the nodes from a child of `n` down to `m`.
  pub data Below : ℕ → List (List ℕ) → ℕ → Type 0 where
    here : (n : ℕ) → Below n [] n
    child :
        (n c m i : ℕ) (names : List (List ℕ))
        → get_elem? (s.nodes n).childs i ≡ some c
        → Below c names m
        → Below n ((s.nodes c).name ∷ names) m

  -- The children of a node have names that a path can hold, and no name twice.
  abbrev pub IsWellNamed : Type 0
  IsWellNamed =
      (n c i : ℕ)
      → get_elem? (s.nodes n).childs i ≡ some c
      → IsName (s.nodes c).name
        × ((d j : ℕ)
            → get_elem? (s.nodes n).childs j ≡ some d
            → (s.nodes d).name ≡ (s.nodes c).name
            → d ≡ c)

  among :
      (childs : List ℕ) (i current : ℕ) (name : List ℕ) (c : ℕ) (next : ℕ → Io (State T) Resolved)
      → get_elem? childs i ≡ some c
      → descend plain current name childs s ≡ some c
      → look_among plain current name next childs s ≡ next c s
  unfolding look_among arrive
  among [] i current name c next at e = absurd (none≢some at)
  among (d ∷ childs) i current name c next at e = rw e refl

  resolve_slash :
      (names : List (List ℕ))
      → resolve_path plain (path_of names) s ≡ walk plain (components (path_of names)) root s
  unfolding path_of
  resolve_slash [] = resolve_path-walk plain slash [] s
  resolve_slash (name ∷ names) = resolve_path-walk plain slash (name ++ path_of names) s

  found-first :
      (childs : List ℕ) (c i : ℕ)
      → get_elem? childs i ≡ some c
      → IsString (s.nodes c).name
      → ((d j : ℕ) → get_elem? childs j ≡ some d → IsString (s.nodes d).name)
      → ((d j : ℕ) → get_elem? childs j ≡ some d → (s.nodes d).name ≡ (s.nodes c).name → d ≡ c)
      → find_child plain (s.nodes c).name childs s ≡ some c
  unfolding find_child
  found-first [] c i at ok all only = absurd (none≢some at)
  found-first (d ∷ childs) c zero at ok all only =
      let same : (s.nodes d).name ≡ (s.nodes c).name =
        ap (λ x. (s.nodes x).name) (some-injective at) in
      let equal = (strcmp-equal_iff _ _ (all d 0 refl) ok).1 same in rw (ap (λ x. x == 0) equal) at
  found-first (d ∷ childs) c (suc i) at ok all only =
      elim (Bool-cases (strcmp (s.nodes d).name (s.nodes c).name == 0)) [
        | inl e ↦
            let same = (strcmp-equal_iff _ _ (all d 0 refl) ok).0 ((==_iff _ _).0 e) in
            rw e (ap some (only d 0 refl same))
        | inr e ↦ rw e (found-first childs c i at ok (λ x j. all x (suc j)) (λ x j. only x (suc j)))
      ]

  -- A name leads from a node to the child that it names.
  descend-child :
      (n c i : ℕ)
      → IsWellNamed
      → get_elem? (s.nodes n).childs i ≡ some c
      → descend plain n (s.nodes c).name (s.nodes n).childs s ≡ some c
  unfolding descend
  descend-child n c i w at =
      let (ok, only) = w n c i at in
      rw
        (
          strcmp-differs dot_dot _ dot_dot-IsString ok.0 (λ e. ok.4 (sym e)),
          strcmp-differs dot _ dot-IsString ok.0 (λ e. ok.3 (sym e)),
        )
        (found-first (s.nodes n).childs c i at ok.0 (λ d j h. (w n d j h).0.0) only)

  enter-child :
      (n c i : ℕ) (next : ℕ → Io (State T) Resolved)
      → IsWellNamed
      → get_elem? (s.nodes n).childs i ≡ some c
      → enter plain n (s.nodes c).name next s ≡ next c s
  unfolding enter lookup
  enter-child n c i next w at =
      among (s.nodes n).childs i n (s.nodes c).name c next at (descend-child n c i w at)

  Below-walk :
      (n m : ℕ) (names : List (List ℕ))
      → IsWellNamed
      → Below n names m
      → walk plain names n s ≡ done (found m) s
  unfolding walk
  Below-walk n m names w (here _) = refl
  Below-walk n m names w (child _ c _ i names' at b) =
      enter-child n c i (walk plain names') w at ∙ Below-walk c m names' w b

  Below-AllNames :
      (n m : ℕ) (names : List (List ℕ)) → IsWellNamed → Below n names m → AllNames names
  Below-AllNames n m names w (here _) = tt
  Below-AllNames n m names w (child _ c _ i names' at b) =
      ((w n c i at).0, Below-AllNames c m names' w b)

  -- In a tree with proper names, the path of a node leads back to it: the names of the nodes from
  -- the root down to it, with slashes between them.
  pub resolve_path-path_of :
      (m : ℕ) (names : List (List ℕ))
      → IsWellNamed
      → Below root names m
      → resolve_path plain (path_of names) s ≡ done (found m) s
  resolve_path-path_of m names w b =
      resolve_slash names
      ∙ (ap (λ x. walk plain x root s) (components-path_of names (Below-AllNames root m names w b))
          ∙ Below-walk root m names w b)
