-- ===== src/Ext2/Reading.antt =====
-- `ext2ReadFile` of kernel/disk/ext2.cpp over a disk that reads.
use sepples_os.Prelude.{
  ℕ, zero, suc, ◌+◌, ◌-◌, ◌*◌, ◌%◌, ◌^◌, ◌<◌, ◌≤◌, ◌≡◌, refl, sym, ap, ◌∙◌, ◌==◌, if◌then◌else◌,
  true, List, [], ◌∷◌, ◌++◌, length, get_or, take, arith, Bool-cases, inl, inr, min, ltb, ltb_of_le,
  lt→ltb, le-or-lt,
}
use sepples_os.Disk.{Io, ◌>>=◌, return}
use sepples_os.Disk.Device.{bytes_of}
use sepples_os.Disk.Triples.{Gives, Gives-return, Gives-bind, Gives-weaken, Gives-if_true}
use sepples_os.Ext2.{Reader, Inode, Ext2Disk}
use sepples_os.Ext2.Files.{
  Copy, copy_block, each_block, block_position, wide_position, read_level, read_tree, read_file,
}
use sepples_os.Ext2.Directories.{NodeExt2, is_file_type, read_node, copy_out}
use sepples_os.Ext2.Contents.{
  until_zero, join_map, data_below, data_of_tree, data_of, contents_of, copies, copies-append,
  copies_lem, copy_of,
}

-- Each read of a whole block below 8 GiB, in a good state, gives the bytes of the disk, and leaves a
-- good state.
abbrev pub ReadsBlocks : {S : Type 0} → Reader S → Ext2Disk → (ℕ → ℕ) → (S → Type 0) → Type 0
ReadsBlocks {S = S} R hd image Good =
    (offset : ℕ) (s : S)
    → offset + hd.blocksize ≤ 2 ^ 33
    → Good s
    → Gives (R.read hd.device offset hd.blocksize) s
        (λ b s'. (b ≡ bytes_of image offset hd.blocksize) × Good s')

-- The partition ends below 8 GiB, with the 4 GiB that a block number can reach.
abbrev pub Fits : Ext2Disk → Type 0
Fits hd = hd.part.start_lba * 512 + 2 ^ 32 + hd.blocksize ≤ 2 ^ 33

fits_of :
    (start q size : ℕ)
    → q < 2 ^ 32
    → start + 2 ^ 32 + size ≤ 2 ^ 33
    → (start % 2 ^ 64 + q % 2 ^ 64) % 2 ^ 64 + size ≤ 2 ^ 33
fits_of start q size lt fits = omega arith

module _ {S : Type 0} (R : Reader S) (hd : Ext2Disk) (image : ℕ → ℕ) (Good : S → Type 0) where
  module _ (reads : ReadsBlocks R hd image Good) (fits : Fits hd) where
    position-fits : (p : ℕ) → block_position hd p + hd.blocksize ≤ 2 ^ 33
    unfolding block_position
    position-fits p = omega (arith, fits)

    -- A run that copies the blocks at some positions.
    abbrev Copies : (Copy → Io S Copy) → List ℕ → Type 0
    Copies m ats =
        (c : Copy) (s : S)
        → Good s
        → Gives (m c) s (λ c' s'. (c' ≡ copies hd image ats c) × Good s')

    each_block-Copies :
        (next : ℕ → Copy → Io S Copy) (ats : ℕ → List ℕ) (ps : List ℕ)
        → ((p : ℕ) → Copies (next p) (ats p))
        → Copies (each_block next ps) (join_map ats (until_zero ps))
    unfolding each_block until_zero copies
    each_block-Copies next ats [] step c s good = Gives-return c s (refl, good)
    each_block-Copies next ats (p ∷ ps) step c s good = elim (Bool-cases (p == 0)) [
      | inl e ↦ rw e (Gives-return c s (refl, good))
      | inr e ↦ rw e (
          Gives-bind (step p c s good) (λ c1 s1 (e1, good1).
            Gives-weaken (each_block-Copies next ats ps step c1 s1 good1) (λ c2 s2 (e2, good2). (
              e2
                  ∙ (ap (copies hd image (join_map ats (until_zero ps))) e1
                      ∙ sym (copies-append hd image (ats p) (join_map ats (until_zero ps)) c)),
              good2,
            ))))
    ]

    read_level-Copies :
        (level at : ℕ)
        → at + hd.blocksize ≤ 2 ^ 33
        → Copies (read_level R hd level at) (data_below hd image level at)
    unfolding read_level data_below copies
    read_level-Copies zero at le c s good =
        Gives-bind (reads at s le good)
          (λ b s1 (e, good1). Gives-return _ s1 (ap (λ x. copy_block hd.blocksize x c) e, good1))
    read_level-Copies (suc level) at le c s good =
        Gives-bind (reads at s le good) (λ b s1 (e, good1). rw e (
          each_block-Copies (λ p. read_level R hd level (block_position hd p)) _ _
            (λ p. read_level-Copies level (block_position hd p) (position-fits p)) c s1 good1))

    read_tree-Copies :
        (level p at : ℕ)
        → at + hd.blocksize ≤ 2 ^ 33
        → Copies (read_tree R hd level p at) (data_of_tree hd image level p at)
    unfolding read_tree data_of_tree copies
    read_tree-Copies level p at le c s good = elim (Bool-cases (p == 0)) [
      | inl e ↦ rw e (Gives-return c s (refl, good))
      | inr e ↦ rw e (read_level-Copies level at le c s good)
    ]

    wide-fits : (p : ℕ) → p * hd.blocksize < 2 ^ 32 → wide_position hd p + hd.blocksize ≤ 2 ^ 33
    unfolding wide_position
    wide-fits p lt =
        let start = hd.part.start_lba * 512 in
        let q = p * hd.blocksize in fits_of start q hd.blocksize lt fits

    Copies-then :
        (m : Copy → Io S Copy) (xs ys : List ℕ) (c : Copy) (s : S) {n : Copy → Io S Copy}
        → Gives (m c) s (λ c' s'. (c' ≡ copies hd image xs c) × Good s')
        → Copies n ys
        → Gives (m c >>= n) s (λ c' s'. (c' ≡ copies hd image (xs ++ ys) c) × Good s')
    Copies-then m xs ys c s first next = Gives-bind first (λ c1 s1 (e1, good1).
        Gives-weaken (next c1 s1 good1) (λ c2 s2 (e2, good2).
          (e2 ∙ (ap (copies hd image ys) e1 ∙ sym (copies-append hd image xs ys c)), good2)))

    read_file-copies :
        (inode : Inode) (s : S)
        → Good s
        → get_or inode.block 12 0 * hd.blocksize < 2 ^ 32
        → Gives (read_file R hd inode) s (λ c s'.
          (c ≡ copies hd image (data_of hd image inode) (copy_of [] inode.size)) × Good s')
    unfolding read_file data_of
    read_file-copies inode s good lt =
        let b1 = get_or inode.block 12 0 in
        let b2 = get_or inode.block 13 0 in
        let b3 = get_or inode.block 14 0 in
        let single = read_tree-Copies 1 b1 (wide_position hd b1) (wide-fits b1 lt) in
        let double = read_tree-Copies 2 b2 (block_position hd b2) (position-fits b2) in
        let triple = read_tree-Copies 3 b3 (block_position hd b3) (position-fits b3) in
        let direct =
          each_block-Copies (λ p. read_level R hd 0 (block_position hd p)) _ (take 12 inode.block)
            (λ p. read_level-Copies 0 (block_position hd p) (position-fits p)) in
        let level0 =
          each_block (λ p. read_level R hd 0 (block_position hd p)) (take 12 inode.block) in
        let level1 = read_tree R hd 1 b1 (wide_position hd b1) in
        let level2 = read_tree R hd 2 b2 (block_position hd b2) in
        let level3 = read_tree R hd 3 b3 (block_position hd b3) in
        Copies-then level0 _ _ (copy_of [] inode.size) s
          {n = λ c. level1 c >>= λ d. level2 d >>= level3} (direct (copy_of [] inode.size) s good)
          (λ c1 s1 g1.
            Copies-then level1 _ _ c1 s1 {n = λ d. level2 d >>= level3} (single c1 s1 g1)
              (λ c2 s2 g2. Copies-then level2 _ _ c2 s2 {n = level3} (double c2 s2 g2) triple))

-- Over a disk that reads, in a partition below 8 GiB, the call copies the contents of the file up to
-- its size: the data blocks that the direct numbers and the three trees name, each up to its first 0.
-- What is left to copy is what the blocks do not cover.
pub read_file-contents_of :
    {S : Type 0} (R : Reader S) (hd : Ext2Disk) (image : ℕ → ℕ) (Good : S → Type 0) (inode : Inode)
    (s : S)
    → ReadsBlocks R hd image Good
    → Fits hd
    → get_or inode.block 12 0 * hd.blocksize < 2 ^ 32
    → Good s
    → Gives (read_file R hd inode) s (λ c s'.
      (c.out ≡ take inode.size (contents_of hd image inode))
      × (c.size ≡ inode.size - length (contents_of hd image inode))
      × Good s')
read_file-contents_of R hd image Good inode s reads fits lt good =
    Gives-weaken (read_file-copies R hd image Good reads fits inode s good lt) (λ c s' (e, g).
      let all = e ∙ copies_lem hd image (data_of hd image inode) (copy_of [] inode.size) in
      (ap (λ x. x.out) all, ap (λ x. x.size) all, g))

min_zero : (b : ℕ) → min 0 b ≡ 0
min_zero b = omega arith

zero_min : (a : ℕ) → min (suc a) 0 ≡ 0
zero_min a = omega arith

min-suc : (a b : ℕ) → min (suc a) (suc b) ≡ suc (min a b)
min-suc a b = omega arith

take-take : (a b : ℕ) (xs : List ℕ) → take a (take b xs) ≡ take (min a b) xs
take-take zero b xs = ap (λ k. take k xs) (sym (min_zero b))
take-take (suc a) zero xs = ap (λ k. take k xs) (sym (zero_min a))
take-take (suc a) (suc b) [] = ap (λ k. take k []) (sym (min-suc a b))
take-take (suc a) (suc b) (x ∷ xs) =
    ap (λ l. x ∷ l) (take-take a b xs) ∙ ap (λ k. take k (x ∷ xs)) (sym (min-suc a b))

out_of :
    (n : NodeExt2) (len : ℕ) (out contents : List ℕ)
    → out ≡ take n.inode.size contents
    → ((copy_out len n.inode.size out).0 ≡ take (min len n.inode.size) contents)
      × ((copy_out len n.inode.size out).1 ≡ (if ltb n.inode.size len then 0 else len))
unfolding copy_out
out_of n len out contents e = elim (le-or-lt len n.inode.size) [
  | inl le ↦
      rw (ltb_of_le n.inode.size len le)
        (ap (take len) e ∙ take-take len n.inode.size contents, refl)
  | inr lt ↦
      let least : min n.inode.size n.inode.size ≡ min len n.inode.size = omega arith in
      let none_left : n.inode.size - n.inode.size ≡ 0 = omega arith in
      rw (lt→ltb n.inode.size len lt) (
        ap (take n.inode.size) e
            ∙ (take-take n.inode.size n.inode.size contents ∙ ap (λ k. take k contents) least),
        none_left,
      )
]

-- A read of a file writes its first `len` bytes, or all of them if it is shorter. The answer is `len`
-- when the file is that long, and 0 when it is shorter.
pub read_node-answer :
    {S : Type 0} (R : Reader S) (n : NodeExt2) (len : ℕ) (contents : List ℕ) (s : S)
    → is_file_type n.type ≡ true
    → Gives (read_file R n.hd n.inode) s (λ c _. c.out ≡ take n.inode.size contents)
    → Gives (read_node R n len) s (λ r _.
      (r.0 ≡ take (min len n.inode.size) contents)
      × (r.1 ≡ (if ltb n.inode.size len then 0 else len)))
unfolding read_node copy_out
read_node-answer R n len contents s file copied =
    Gives-if_true (return ([], 0)) _ file
      (Gives-bind copied (λ c s1 e. Gives-return _ s1 (out_of n len c.out contents e)))
