-- ===== src/Vfs/Walk.antt =====
-- What a path of kernel/disk/vfs.cpp means: the names between its slashes, followed one by one.
use sepples_os.Prelude.{
  ℕ, zero, suc, ◌≤◌, ◌≡◌, ◌≢◌, refl, sym, ap, ap₂, ◌∙◌, ◌==◌, if◌then◌else◌, Bool, true, Option,
  none, some, List, [], ◌∷◌, ◌++◌, length, Bool-cases, inl, inr, arith, not,
}
use mathlib.Core.List.{append-nil, append_assoc}
use sepples_os.Disk.{Outcome, done, halted, Io, and_then, return}
use sepples_os.Vfs.{root}
use sepples_os.Vfs.Path.{
  NodeClass, Resolved, found, slash, skip_slashes, take_name, drop_name, descend, enter, arrive,
  look_among, resolve_from, resolve_path,
}

-- A word that is not empty, before others.
abbrev pub flush : List ℕ → List (List ℕ) → List (List ℕ)
flush [] words = words
flush (c ∷ w) words = (c ∷ w) ∷ words

-- The words of `p` between slashes, of which `w` is the start of the first.
unfoldable pub words_from : List ℕ → List ℕ → List (List ℕ)
words_from w [] = flush w []
words_from w (c ∷ p) =
    let ends = words_from [] p in
    let goes_on = words_from (w ++ c ∷ []) p in if c == slash then flush w ends else goes_on

abbrev pub components : List ℕ → List (List ℕ)
components p = words_from [] p

words_from-skip : (p : List ℕ) → components (skip_slashes p) ≡ components p
unfolding words_from skip_slashes
words_from-skip [] = refl
words_from-skip (c ∷ p) = elim (Bool-cases (c == slash)) [
  | inl e ↦ rw e (words_from-skip p)
  | inr e ↦ rw e (rw e refl)
]

chosen {ℓ} : {A : Type ℓ} (b : Bool) (x y : A) → b ≡ true → (if b then x else y) ≡ x
chosen b x y e = rw e refl

nonempty-append : (w v : List ℕ) (c : ℕ) → w ++ c ∷ v ≢ []
nonempty-append [] v c e = cc
nonempty-append (d ∷ w) v c e = cc

flush-nonempty : (w : List ℕ) (words : List (List ℕ)) → w ≢ [] → flush w words ≡ w ∷ words
flush-nonempty [] words h = absurd (h refl)
flush-nonempty (c ∷ w) words h = refl

components-slash : (c : ℕ) (p : List ℕ) → (c == slash) ≡ true → components (c ∷ p) ≡ components p
unfolding words_from
components-slash c p e = rw e refl

name_ends :
    (c : ℕ) (p w : List ℕ)
    → (c == slash) ≡ true
    → (w ++ take_name (c ∷ p)) ∷ components (drop_name (c ∷ p)) ≡ (w ++ []) ∷ components (c ∷ p)
unfolding take_name drop_name
name_ends c p w e = ap₂ (λ x y. (w ++ x) ∷ components y) (chosen _ [] _ e) (chosen _ (c ∷ p) _ e)

-- A word that has started ends where the name ends.
words_from-name :
    (p w : List ℕ) → w ≢ [] → words_from w p ≡ (w ++ take_name p) ∷ components (drop_name p)
unfolding words_from take_name drop_name
words_from-name [] w h = flush-nonempty w [] h ∙ ap (λ x. x ∷ []) (sym (append-nil w))
words_from-name (c ∷ p) w h = elim (Bool-cases (c == slash)) [
  | inl e ↦
      let whole : w ∷ components p ≡ (w ++ []) ∷ components (c ∷ p) =
        ap₂ (λ x y. x ∷ y) (sym (append-nil w)) (sym (components-slash c p e)) in
      let ends : words_from w (c ∷ p) ≡ w ∷ components p =
        rw e (flush-nonempty w (words_from [] p) h) in
      let rest : (w ++ take_name (c ∷ p)) ∷ components (drop_name (c ∷ p))
          ≡ (w ++ []) ∷ components (c ∷ p) =
        name_ends c p w e in
      ends ∙ (whole ∙ sym rest)
  | inr e ↦ rw e (
      words_from-name p (w ++ c ∷ []) (nonempty-append w [] c)
      ∙ ap (λ x. x ∷ components (drop_name p)) (append_assoc w (c ∷ []) (take_name p)))
]

starts_clean : List ℕ → Bool
starts_clean [] = true
starts_clean (c ∷ p) = not (c == slash)

skip-clean : (p : List ℕ) → starts_clean (skip_slashes p) ≡ true
unfolding starts_clean skip_slashes
skip-clean [] = refl
skip-clean (c ∷ p) = elim (Bool-cases (c == slash)) [
  | inl e ↦ rw e (skip-clean p)
  | inr e ↦ rw e (rw e refl)
]

length-skip : (p : List ℕ) → length (skip_slashes p) ≤ length p
unfolding skip_slashes
length-skip [] = omega arith
length-skip (c ∷ p) = ground (arith, length-skip p)

length-drop_name : (p : List ℕ) → length (drop_name p) ≤ length p
unfolding drop_name
length-drop_name [] = omega arith
length-drop_name (c ∷ p) = ground (arith, length-drop_name p)

-- A path that does not start with a slash is its first name and the names behind it.
components-first :
    (c : ℕ) (p : List ℕ)
    → starts_clean (c ∷ p) ≡ true
    → components (c ∷ p) ≡ (c ∷ take_name p) ∷ components (skip_slashes (drop_name p))
unfolding words_from starts_clean
components-first c p clean = elim (Bool-cases (c == slash)) [
  | inl e ↦ absurd (grind (arith, e, clean))
  | inr e ↦ rw e (
      words_from-name p (c ∷ []) (nonempty-append [] [] c)
      ∙ ap (λ x. (c ∷ take_name p) ∷ x) (sym (words_from-skip (drop_name p))))
]

and_then-congr :
    {S A B : Type 0} (o : Outcome S A) {f g : A → Io S B}
    → ((a : A) (s : S) → f a s ≡ g a s)
    → and_then o f ≡ and_then o g
and_then-congr (done a s) h = h a s
and_then-congr halted h = refl

module _ {S : Type 0} (C : NodeClass S) where
  -- Follows names from a node.
  unfoldable pub walk : List (List ℕ) → ℕ → Io S Resolved
  walk [] node = return (found node)
  walk (name ∷ names) node = enter C node name (walk names)

  arrive-congr :
      (o : Option ℕ) (s : S) (f g : ℕ → Io S Resolved)
      → ((n : ℕ) (t : S) → f n t ≡ g n t)
      → arrive C o f s ≡ arrive C o g s
  unfolding arrive
  arrive-congr none s f g h = refl
  arrive-congr (some node) s f g h = h node s

  look_among-congr :
      (current : ℕ) (name : List ℕ) (f g : ℕ → Io S Resolved) (childs : List ℕ) (s : S)
      → ((n : ℕ) (t : S) → f n t ≡ g n t)
      → look_among C current name f childs s ≡ look_among C current name g childs s
  unfolding look_among
  look_among-congr current name f g [] s h = refl
  look_among-congr current name f g (first ∷ others) s h =
      arrive-congr (descend C current name (first ∷ others) s) s f g h

  enter-congr :
      (current : ℕ) (name : List ℕ) (f g : ℕ → Io S Resolved) (s : S)
      → ((n : ℕ) (t : S) → f n t ≡ g n t)
      → enter C current name f s ≡ enter C current name g s
  unfolding enter
  enter-congr current name f g s h =
      and_then-congr (C.lookup current s) (λ childs t. look_among-congr current name f g childs t h)

  resolve_from-walk :
      (fuel : ℕ) (p : List ℕ) (current : ℕ) (s : S)
      → length p ≤ fuel
      → starts_clean p ≡ true
      → resolve_from C fuel p current s ≡ walk (components p) current s
  unfolding resolve_from walk words_from
  resolve_from-walk fuel [] current s enough clean = refl
  resolve_from-walk zero (c ∷ p) current s enough clean = absurd (omega arith)
  resolve_from-walk (suc fuel) (c ∷ p) current s enough clean =
      let rest = skip_slashes (drop_name p) in
      let shorter : length rest ≤ fuel =
        omega (arith, length-skip (drop_name p), length-drop_name p) in
      enter-congr current (c ∷ take_name p) (resolve_from C fuel rest) (walk (components rest)) s
        (λ n t. resolve_from-walk fuel rest n t shorter (skip-clean (drop_name p)))
      ∙ ap (λ names. walk names current s) (sym (components-first c p clean))

  -- A path that is not empty leads to the node that its names lead to from the root, one by one; a
  -- slash at its start or end and slashes that follow each other make no difference.
  pub resolve_path-walk :
      (c : ℕ) (p : List ℕ) (s : S) → resolve_path C (c ∷ p) s ≡ walk (components (c ∷ p)) root s
  unfolding resolve_path
  resolve_path-walk c p s =
      resolve_from-walk (suc (length p)) (skip_slashes (c ∷ p)) root s (length-skip (c ∷ p))
        (skip-clean (c ∷ p))
      ∙ ap (λ names. walk names root s) (words_from-skip (c ∷ p))
