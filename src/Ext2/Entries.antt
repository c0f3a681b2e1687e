-- ===== src/Ext2/Entries.antt =====
-- The entries of a directory as kernel/disk/ext2.h lays them out, and the fields that are read of them.
use sepples_os.Prelude.{
  ℕ, zero, suc, ◌+◌, ◌/◌, ◌%◌, ◌^◌, ◌<◌, ◌≡◌, refl, sym, ap, ◌∙◌, List, [], ◌∷◌, ◌++◌, length,
  length-append, take, drop, arith, ◌≢◌, ==_of_ne,
}
use mathlib.Core.List.{append_assoc}
use sepples_os.PartTable.{word32}
use sepples_os.Ext2.{word16}
use sepples_os.Ext2.Directories.{entry_inode, rec_len, entry_name, c_string}

-- The padding stands behind the name.
pub record DirEntry : Type 0 where
  pub inum : ℕ
  pub kind : ℕ
  pub name : List ℕ
  pub padding : List ℕ

abbrev pub bytes16 : ℕ → List ℕ
bytes16 n = n % 2 ^ 8 ∷ n / 2 ^ 8 % 2 ^ 8 ∷ []

abbrev pub size_of : DirEntry → ℕ
size_of e = 8 + length e.name + length e.padding

unfoldable pub encode : DirEntry → List ℕ
encode e =
    e.inum % 2 ^ 8
    ∷ e.inum / 2 ^ 8 % 2 ^ 8
    ∷ e.inum / 2 ^ 16 % 2 ^ 8
    ∷ e.inum / 2 ^ 24 % 2 ^ 8
    ∷ size_of e % 2 ^ 8
    ∷ size_of e / 2 ^ 8 % 2 ^ 8
    ∷ length e.name
    ∷ e.kind
    ∷ (e.name ++ e.padding)

unfoldable pub encode_all : List DirEntry → List ℕ
encode_all [] = []
encode_all (e ∷ es) = encode e ++ encode_all es

abbrev pub NoZero : List ℕ → Type 0
NoZero [] = Unit
NoZero (c ∷ s) = (c ≢ 0) × NoZero s

-- An entry in use, whose fields fit, with a name without the character 0.
pub record IsEntry (e : DirEntry) : Type 0 where
  pub in_use : 0 < e.inum
  pub inum_fits : e.inum < 2 ^ 32
  pub size_fits : size_of e < 2 ^ 16
  pub name_fits : length e.name < 2 ^ 8
  pub plain : NoZero e.name

abbrev pub AllEntries : List DirEntry → Type 0
AllEntries [] = Unit
AllEntries (e ∷ es) = IsEntry e × AllEntries es

pub entry_inode-encode :
    (e : DirEntry) (rest : List ℕ) → IsEntry e → entry_inode (encode e ++ rest) ≡ e.inum
unfolding encode word32
entry_inode-encode e rest ok = omega (arith, ok.inum_fits)

pub rec_len-encode :
    (e : DirEntry) (rest : List ℕ) → IsEntry e → rec_len (encode e ++ rest) ≡ size_of e
unfolding encode word16
rec_len-encode e rest ok = omega (arith, ok.size_fits)

take-length : (xs ys : List ℕ) → take (length xs) (xs ++ ys) ≡ xs
take-length [] ys = refl
take-length (x ∷ xs) ys = ap (λ l. x ∷ l) (take-length xs ys)

drop-length : (xs ys : List ℕ) (n : ℕ) → n ≡ length xs → drop n (xs ++ ys) ≡ ys
drop-length [] ys zero e = refl
drop-length [] ys (suc n) e = absurd (omega (arith, e))
drop-length (x ∷ xs) ys zero e = absurd (omega (arith, e))
drop-length (x ∷ xs) ys (suc n) e = drop-length xs ys n (omega (arith, e))

c_string-NoZero : (s : List ℕ) → NoZero s → c_string s ≡ s
unfolding c_string
c_string-NoZero [] h = refl
c_string-NoZero (c ∷ s) (ne, h) = rw (==_of_ne c 0 ne) (ap (λ l. c ∷ l) (c_string-NoZero s h))

pub entry_name-encode :
    (e : DirEntry) (rest : List ℕ) → IsEntry e → entry_name (encode e ++ rest) ≡ e.name
unfolding encode
entry_name-encode e rest ok =
    ap (λ l. c_string (take (length e.name) l)) (append_assoc e.name e.padding rest)
    ∙ (ap c_string (take-length e.name (e.padding ++ rest)) ∙ c_string-NoZero e.name ok.plain)

pub length-encode : (e : DirEntry) → length (encode e) ≡ size_of e
unfolding encode
length-encode e = omega (arith, length-append e.name e.padding)

-- The next entry stands behind this one.
pub drop-encode :
    (e : DirEntry) (rest : List ℕ)
    → IsEntry e
    → drop (rec_len (encode e ++ rest)) (encode e ++ rest) ≡ rest
drop-encode e rest ok =
    drop-length (encode e) rest _ (rec_len-encode e rest ok ∙ sym (length-encode e))
