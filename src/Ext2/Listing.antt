-- ===== src/Ext2/Listing.antt =====
-- What `lookup` of kernel/disk/ext2.cpp lists of a directory.
use sepples_os.Prelude.{
  ℕ, zero, suc, ◌+◌, ◌-◌, ◌%◌, ◌^◌, ◌<◌, ◌≡◌, refl, ap, ap₂, ◌∙◌, ◌==◌, if◌then◌else◌, Bool, true,
  false, Option, none, some, List, [], ◌∷◌, ◌++◌, length, length-append, drop, arith, Bool-cases,
  inl, inr, ==_of_ne, map,
}
use mathlib.Core.List.{append_assoc}
use mathlib.Core.Option.{some-injective, none-ne-some}
use sepples_os.Disk.{done, Io, ◌>>=◌, return}
use sepples_os.Disk.Triples.{
  Gives, Gives-return, Gives-bind, Gives-same, Gives-if_false, Gives-if_true,
}
use sepples_os.Ext2.{Reader, Inode, Ext2Disk, read_inode, inode_of, inode_position}
use sepples_os.Ext2.Directories.{
  NodeExt2, Listing, listed, out_of_fuel, entry_inode, rec_len, entry_name, is_dots, cons_listing,
  make_child, list_entries, is_directory, lookup,
}
use sepples_os.Ext2.Entries.{
  DirEntry, IsEntry, AllEntries, size_of, encode, encode_all, entry_inode-encode, rec_len-encode,
  entry_name-encode, drop-encode, length-encode,
}
use sepples_os.Ext2.Files.{read_file}

-- The names and inode numbers of the entries, without `.` and `..`.
unfoldable pub listing_of : List DirEntry → List (List ℕ × ℕ)
listing_of [] = []
listing_of (e ∷ es) =
    let rest = listing_of es in if is_dots e.name then rest else (e.name, e.inum) ∷ rest

abbrev pub heads : Listing → Option (List (List ℕ × ℕ))
heads (listed ns) = some (map (λ n. (n.name, n.inum)) ns)
heads out_of_fuel = none

heads-cons :
    (child : NodeExt2) (l : Listing) (names : List (List ℕ × ℕ)) (name : List ℕ) (inum : ℕ)
    → child.name ≡ name
    → child.inum ≡ inum
    → heads l ≡ some names
    → heads (cons_listing child l) ≡ some ((name, inum) ∷ names)
heads-cons child (listed ns) names name inum en ei h =
    ap₂ (λ x l. some (x ∷ l)) (ap₂ (λ x y. (x, y)) en ei) (some-injective _ names h)
heads-cons child out_of_fuel names name inum en ei h = absurd (none-ne-some names h)

if-heads :
    {S : Type 0} (b : Bool) {m n : Io S Listing} {s : S} {x y : List (List ℕ × ℕ)}
    → Gives m s (λ l _. heads l ≡ some x)
    → Gives n s (λ l _. heads l ≡ some y)
    → Gives (if b then m else n) s (λ l _. heads l ≡ some (if b then x else y))
if-heads true gm gn = gm
if-heads false gm gn = gn

module _ {S : Type 0} (R : Reader S) where
  -- The read of an inode from its place on the disk ends.
  abbrev pub InodeRead : Ext2Disk → ℕ → Type 0
  InodeRead hd inum =
      (s : S) → Gives (R.read hd.device (inode_position R hd inum) 128) s (λ _ _. Unit {0})

  abbrev pub InodesRead : Ext2Disk → List DirEntry → Type 0
  InodesRead hd [] = Unit
  InodesRead hd (e ∷ es) = InodeRead hd e.inum × InodesRead hd es

  module _ (hd : Ext2Disk) (grouped : (hd.sb.inodes_per_group == 0) ≡ false) where
    read_inode_lem :
        (inum : ℕ) (s : S)
        → InodeRead hd inum
        → Gives (read_inode R hd inum) s (λ o _. (i : Inode) × (o ≡ some i))
    unfolding read_inode
    read_inode_lem inum s reads =
        Gives-if_false (return none) _ grouped
          (Gives-bind (reads s) (λ buf s1 _. Gives-return _ s1 (inode_of buf, refl)))

    make_child_lem :
        (name : List ℕ) (inum : ℕ) (s : S)
        → InodeRead hd inum
        → Gives (make_child R hd name inum) s (λ n _. (n.name ≡ name) × (n.inum ≡ inum))
    unfolding make_child
    make_child_lem name inum s reads =
        Gives-bind (read_inode_lem inum s reads)
          (λ o s1 (i, e). rw e (Gives-return _ s1 (refl, refl)))

    -- One round over an entry in use.
    one_entry :
        (fuel : ℕ) (buf : List ℕ) (dsize inum : ℕ) (name next : List ℕ) (left : ℕ)
        → entry_inode buf ≡ inum
        → (inum == 0) ≡ false
        → (dsize == 0) ≡ false
        → entry_name buf ≡ name
        → drop (rec_len buf) buf ≡ next
        → (dsize + (2 ^ 32 - rec_len buf)) % 2 ^ 32 ≡ left
        → list_entries R (suc fuel) hd buf dsize ≡ (
            if is_dots name
            then list_entries R fuel hd next left
            else (make_child R hd name inum >>= λ child.
                list_entries R fuel hd next left >>= λ others. return (cons_listing child others)))
    unfolding list_entries
    one_entry fuel buf dsize inum name next left ei used more en ed el =
        rw (ei, used, more) (rw (en, ed) (rw el refl))

    no_entry :
        (fuel : ℕ) (buf : List ℕ) (s : S)
        → list_entries R (suc fuel) hd buf 0 s ≡ done (listed []) s
    unfolding list_entries
    no_entry fuel buf s = elim (Bool-cases (entry_inode buf == 0)) [
      | inl e ↦ rw e refl
      | inr e ↦ rw e refl
    ]

    abbrev choice : Bool → ℕ → List ℕ → ℕ → DirEntry → Io S Listing
    choice dots fuel next left e =
        if dots
        then list_entries R fuel hd next left
        else (make_child R hd e.name e.inum >>= λ child.
            list_entries R fuel hd next left >>= λ others. return (cons_listing child others))

    -- An entry at the head of a buffer, before what is listed of the others.
    entry-listed :
        (e : DirEntry) (fuel dsize left : ℕ) (next : List ℕ) (names : List (List ℕ × ℕ)) (s : S)
        → InodeRead hd e.inum
        → IsEntry e
        → dsize ≡ size_of e + left
        → dsize < 2 ^ 32
        → ((t : S) → Gives (list_entries R fuel hd next left) t (λ l _. heads l ≡ some names))
        → Gives
            (list_entries R (suc fuel) hd (encode e ++ next) dsize)
            s
            (λ l _. heads l ≡ some (if is_dots e.name then names else (e.name, e.inum) ∷ names))
    entry-listed e fuel dsize left next names s reads ok total fits others =
        let len = rec_len-encode e next ok in
        let step =
          one_entry fuel (encode e ++ next) dsize e.inum e.name next left
            (entry_inode-encode e next ok) (==_of_ne e.inum 0 (omega (arith, ok.in_use)))
            (==_of_ne dsize 0 (omega (arith, total))) (entry_name-encode e next ok)
            (drop-encode e next ok) (omega (arith, len, total)) in
        Gives-same (choice (is_dots e.name) fuel next left e) (ap (λ m. m s) step) (
          if-heads (is_dots e.name) (others s) (
            Gives-bind (make_child_lem e.name e.inum s reads) (λ child s1 (en, ei).
              Gives-bind (others s1)
                (λ l s2 h. Gives-return _ s2 (heads-cons child l names e.name e.inum en ei h)))))

    list_entries_lem :
        (es : List DirEntry) (fuel : ℕ) (behind : List ℕ) (s : S)
        → InodesRead hd es
        → AllEntries es
        → length (encode_all es) < fuel
        → length (encode_all es) < 2 ^ 32
        → Gives
            (list_entries R fuel hd (encode_all es ++ behind) (length (encode_all es)))
            s
            (λ l _. heads l ≡ some (listing_of es))
    unfolding encode_all listing_of
    list_entries_lem es zero behind s reads ok enough fits = absurd (omega arith)
    list_entries_lem [] (suc fuel) behind s reads ok enough fits =
        Gives-same (return (listed [])) (no_entry fuel behind s) (Gives-return (listed []) s refl)
    list_entries_lem (e ∷ es) (suc fuel) behind s (read, reads) (ok, oks) enough fits =
        let total : length (encode e ++ encode_all es) ≡ size_of e + length (encode_all es) =
          length-append (encode e) (encode_all es)
          ∙ ap (λ x. x + length (encode_all es)) (length-encode e) in
        let flat : encode e ++ encode_all es ++ behind ≡ encode e ++ (encode_all es ++ behind) =
          append_assoc (encode e) (encode_all es) behind in
        let others = λ (t : S).
          list_entries_lem es fuel behind t reads oks (omega (arith, total))
            (omega (arith, total)) in
        Gives-same
          (list_entries R (suc fuel) hd (encode e ++ (encode_all es ++ behind))
            (length (encode e ++ encode_all es)))
          (ap (λ b. list_entries R (suc fuel) hd b (length (encode e ++ encode_all es)) s) flat)
          (entry-listed e fuel _ (length (encode_all es)) (encode_all es ++ behind) (listing_of es)
            s read ok total fits others)

-- A directory whose bytes are those of entries in use that fit is listed, one child for each entry
-- but `.` and `..`, in their order and with their names and inode numbers, whatever stands in memory
-- behind them, if the file can be read and the read of each entry's inode from its place ends.
pub lookup-listing_of :
    {S : Type 0} (R : Reader S) (n : NodeExt2) (es : List DirEntry) (behind : List ℕ) (s : S)
    → InodesRead R n.hd es
    → (n.hd.sb.inodes_per_group == 0) ≡ false
    → is_directory n.inode ≡ true
    → AllEntries es
    → length (encode_all es) < 2 ^ 32
    → n.inode.size ≡ length (encode_all es)
    → Gives (read_file R n.hd n.inode) s (λ c _. c.out ≡ encode_all es)
    → Gives (lookup R behind n) s (λ l _. heads l ≡ some (listing_of es))
unfolding lookup
lookup-listing_of R n es behind s reads grouped dir ok fits size copied =
    Gives-if_true (return (listed [])) _ dir (
      Gives-bind copied (λ c s1 e.
        let same : list_entries R (suc n.inode.size) n.hd (c.out ++ behind) n.inode.size s1
            ≡ list_entries R (suc (length (encode_all es))) n.hd (encode_all es ++ behind)
                (length (encode_all es)) s1 =
          ap₂ (λ k b. list_entries R (suc k) n.hd (b ++ behind) k s1) size e in
        Gives-same _ same (
          list_entries_lem R n.hd grouped es (suc (length (encode_all es))) behind s1 reads ok
            (omega arith) fits)))
