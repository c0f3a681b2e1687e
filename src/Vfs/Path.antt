-- ===== src/Vfs/Path.antt =====
-- `resolvePath` of kernel/disk/vfs.cpp. A path is the list of its characters before the end mark.
use sepples_os.Prelude.{
  ℕ, zero, suc, ◌==◌, if◌then◌else◌, Option, none, some, List, [], ◌∷◌, length,
}
use sepples_os.Disk.{done, Io, ◌>>=◌, return}
use sepples_os.Strings.{strcmp}
use sepples_os.Vfs.{root}

-- The methods of a node, which a file system overrides.
pub record NodeClass (S : Type 0) : Type 0 where
  pub lookup : ℕ → Io S (List ℕ)
  pub get_name : ℕ → S → List ℕ
  pub get_parent : ℕ → S → ℕ

pub data Resolved : Type 0 where
  found : ℕ → Resolved
  null : Resolved
  out_of_fuel : Resolved

abbrev pub slash : ℕ
slash = 47

abbrev pub dot : List ℕ
dot = 46 ∷ []

abbrev pub dot_dot : List ℕ
dot_dot = 46 ∷ 46 ∷ []

unfoldable pub skip_slashes : List ℕ → List ℕ
skip_slashes [] = []
skip_slashes (c ∷ p) = let rest = skip_slashes p in if c == slash then rest else c ∷ p

-- What stands before the next slash, and what is left from there on.
unfoldable pub take_name : List ℕ → List ℕ
take_name [] = []
take_name (c ∷ p) = let rest = take_name p in if c == slash then [] else c ∷ rest

unfoldable pub drop_name : List ℕ → List ℕ
drop_name [] = []
drop_name (c ∷ p) = let rest = drop_name p in if c == slash then c ∷ p else rest

module _ {S : Type 0} (C : NodeClass S) where
  unfoldable pub find_child : List ℕ → List ℕ → S → Option ℕ
  find_child name [] s = none
  find_child name (child ∷ childs) s =
      let rest = find_child name childs s in
      if strcmp (C.get_name child s) name == 0 then some child else rest

  -- The node that a name leads to from `current`, which has `childs`.
  unfoldable pub descend : ℕ → List ℕ → List ℕ → S → Option ℕ
  descend current name childs s =
      if strcmp dot_dot name == 0
      then some (C.get_parent current s)
      else if strcmp dot name == 0
      then some current
      else find_child name childs s

  unfoldable pub arrive : Option ℕ → (ℕ → Io S Resolved) → Io S Resolved
  arrive none next = return null
  arrive (some node) next = next node

  -- A node without children leads nowhere.
  unfoldable pub look_among : ℕ → List ℕ → (ℕ → Io S Resolved) → List ℕ → Io S Resolved
  look_among current name next [] s = done null s
  look_among current name next (first ∷ others) s =
      arrive (descend current name (first ∷ others) s) next s

  -- Looks a name up and goes on with the node.
  unfoldable pub enter : ℕ → List ℕ → (ℕ → Io S Resolved) → Io S Resolved
  enter current name next = do childs ← C.lookup current; look_among current name next childs

  -- The loop from `beg_p` on, behind the slashes. `end_p` starts one character later.
  unfoldable pub resolve_from : ℕ → List ℕ → ℕ → Io S Resolved
  resolve_from fuel [] current = return (found current)
  resolve_from zero (c ∷ p) current = return out_of_fuel
  resolve_from (suc fuel) (c ∷ p) current =
      enter current (c ∷ take_name p) (resolve_from fuel (skip_slashes (drop_name p)))

  -- A name and the slashes behind it are at least a character: the length is fuel enough.
  unfoldable pub resolve_path : List ℕ → Io S Resolved
  resolve_path [] = return null
  resolve_path (c ∷ p) = resolve_from (suc (length p)) (skip_slashes (c ∷ p)) root
