-- ===== src/Ext2/Contents.antt =====
-- The contents of a file by the blocks that its inode names, and what `ext2ReadFile` of
-- kernel/disk/ext2.cpp copies of them.
use sepples_os.Prelude.{
  ℕ, zero, suc, ◌-◌, ◌/◌, ◌≤◌, ◌≡◌, refl, sym, ap, ap₂, ◌∙◌, ◌==◌, if◌then◌else◌, List, [], ◌∷◌,
  ◌++◌, length, length-append, get_or, take, arith, inl, inr, le-or-lt, ltb_of_le, lt→ltb,
}
use mathlib.Core.List.{append_assoc, append-nil}
use sepples_os.Disk.Device.{bytes_of}
use sepples_os.Disk.Bytes.{length-bytes_of}
use sepples_os.Ext2.{Inode, Ext2Disk, words_of}
use sepples_os.Ext2.Files.{Copy, copy_block, block_position, wide_position}

-- The block numbers before the first 0.
unfoldable pub until_zero : List ℕ → List ℕ
until_zero [] = []
until_zero (p ∷ ps) = let rest = until_zero ps in if p == 0 then [] else p ∷ rest

abbrev pub copy_of : List ℕ → ℕ → Copy
copy_of out size = record { out = out; size = size }

abbrev pub join_map : {A : Type 0} → (A → List ℕ) → List A → List ℕ
join_map f [] = []
join_map f (x ∷ xs) = f x ++ join_map f xs

module _ (hd : Ext2Disk) (image : ℕ → ℕ) where
  abbrev pub block_at : ℕ → List ℕ
  block_at at = bytes_of image at hd.blocksize

  -- Where the data blocks stand below the block at a position.
  unfoldable pub data_below : ℕ → ℕ → List ℕ
  data_below zero at = at ∷ []
  data_below (suc level) at =
      join_map (λ p. data_below level (block_position hd p))
        (until_zero (words_of (hd.blocksize / 4) 4 (block_at at)))

  unfoldable pub data_of_tree : ℕ → ℕ → ℕ → List ℕ
  data_of_tree level p at = if p == 0 then [] else data_below level at

  -- Where the data blocks of a file stand, in the order of its bytes.
  unfoldable pub data_of : Inode → List ℕ
  data_of inode =
      join_map (λ p. data_below 0 (block_position hd p)) (until_zero (take 12 inode.block))
      ++ (data_of_tree 1 (get_or inode.block 12 0) (wide_position hd (get_or inode.block 12 0))
          ++ (data_of_tree 2 (get_or inode.block 13 0) (block_position hd (get_or inode.block 13 0))
              ++ data_of_tree 3 (get_or inode.block 14 0)
                  (block_position hd (get_or inode.block 14 0))))

  abbrev pub contents_of : Inode → List ℕ
  contents_of inode = join_map block_at (data_of inode)

  -- The copies of the blocks at some positions.
  unfoldable pub copies : List ℕ → Copy → Copy
  copies [] c = c
  copies (at ∷ ats) c = copies ats (copy_block hd.blocksize (block_at at) c)

  pub copies-append : (xs ys : List ℕ) (c : Copy) → copies (xs ++ ys) c ≡ copies ys (copies xs c)
  unfolding copies
  copies-append [] ys c = refl
  copies-append (x ∷ xs) ys c = copies-append xs ys (copy_block hd.blocksize (block_at x) c)

  take_nil : (n : ℕ) → take {A = ℕ} n [] ≡ []
  take_nil zero = refl
  take_nil (suc n) = refl

  take_all : (n : ℕ) (xs : List ℕ) → length xs ≤ n → take n xs ≡ xs
  take_all zero [] le = refl
  take_all (suc n) [] le = refl
  take_all zero (x ∷ xs) le = absurd (omega arith)
  take_all (suc n) (x ∷ xs) le = ap (λ l. x ∷ l) (take_all n xs (omega arith))

  take-append : (n : ℕ) (xs ys : List ℕ) → take n (xs ++ ys) ≡ take n xs ++ take (n - length xs) ys
  take-append zero [] ys = refl
  take-append (suc n) [] ys = let all : suc n ≡ suc n - 0 = omega arith in ap (λ k. take k ys) all
  take-append zero (x ∷ xs) ys =
      let nothing : 0 ≡ 0 - suc (length xs) = omega arith in ap (λ k. take k ys) nothing
  take-append (suc n) (x ∷ xs) ys =
      let left : n - length xs ≡ suc n - suc (length xs) = omega arith in
      ap (λ l. x ∷ l) (take-append n xs ys ∙ ap (λ k. take n xs ++ take k ys) left)

  -- One block: what is left of the file, or all of it.
  copy_block_lem :
      (at : ℕ) (c : Copy)
      → copy_block hd.blocksize (block_at at) c
        ≡ record { out = c.out ++ take c.size (block_at at); size = c.size - hd.blocksize }
  unfolding copy_block
  copy_block_lem at c = elim (le-or-lt c.size hd.blocksize) [
    | inl le ↦
        let none_left : c.size - c.size ≡ c.size - hd.blocksize = omega arith in
        rw (ltb_of_le hd.blocksize c.size le)
          (ap (copy_of (c.out ++ take c.size (block_at at))) none_left)
    | inr lt ↦
        let whole = length-bytes_of image at hd.blocksize in
        let cut =
          take_all hd.blocksize (block_at at) (omega (arith, whole))
          ∙ sym (take_all c.size (block_at at) (omega (arith, whole))) in
        rw (lt→ltb hd.blocksize c.size lt)
          (ap (λ l. copy_of (c.out ++ l) (c.size - hd.blocksize)) cut)
  ]

  pub copies_lem :
      (ats : List ℕ) (c : Copy)
      → copies ats c ≡ record {
        out = c.out ++ take c.size (join_map block_at ats);
        size = c.size - length (join_map block_at ats);
      }
  unfolding copies
  copies_lem [] c =
      let same : c.size ≡ c.size - 0 = omega arith in
      ap₂ copy_of (sym (append-nil c.out) ∙ ap (λ l. c.out ++ l) (sym (take_nil c.size))) same
  copies_lem (at ∷ ats) c =
      let rest = join_map block_at ats in
      let whole = length-bytes_of image at hd.blocksize in
      let after = copy_of (c.out ++ take c.size (block_at at)) (c.size - hd.blocksize) in
      let both : (c.out ++ take c.size (block_at at)) ++ take (c.size - hd.blocksize) rest
          ≡ c.out ++ take c.size (block_at at ++ rest) =
        append_assoc c.out (take c.size (block_at at)) (take (c.size - hd.blocksize) rest)
        ∙ (ap (λ k. c.out ++ (take c.size (block_at at) ++ take (c.size - k) rest)) (sym whole)
            ∙ ap (λ l. c.out ++ l) (sym (take-append c.size (block_at at) rest))) in
      let left : c.size - hd.blocksize - length rest ≡ c.size - length (block_at at ++ rest) =
        omega (arith, whole, length-append (block_at at) rest) in
      ap (copies ats) (copy_block_lem at c) ∙ (copies_lem ats after ∙ ap₂ copy_of both left)
