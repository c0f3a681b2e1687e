-- ===== src/Disk/Bytes.antt =====
-- The bytes of a range of the disk, cut and joined as `diskRead` of kernel/disk/disk.cpp does it.
use sepples_os.Prelude.{
  ℕ, zero, suc, ◌+◌, ◌-◌, ◌*◌, ◌≤◌, ◌≡◌, refl, sym, ap, ap₂, ◌∙◌, ◌∷◌, ◌++◌, take, drop, length,
  arith,
}
use sepples_os.Disk.Device.{bytes_of}

pub bytes_of-add :
    (f : ℕ → ℕ) (a m n : ℕ) → bytes_of f a (m + n) ≡ bytes_of f a m ++ bytes_of f (a + m) n
bytes_of-add f a zero n = ap₂ (bytes_of f) (omega arith) (omega arith)
bytes_of-add f a (suc m) n =
    let one : suc m + n ≡ suc (m + n) = omega arith in
    let next : suc a + m ≡ a + suc m = omega arith in
    ap (bytes_of f a) one
    ∙ ap (λ l. f a ∷ l)
        (bytes_of-add f (suc a) m n ∙ ap (λ x. bytes_of f (suc a) m ++ bytes_of f x n) next)

pub length-bytes_of : (f : ℕ → ℕ) (a n : ℕ) → length (bytes_of f a n) ≡ n
length-bytes_of f a zero = refl
length-bytes_of f a (suc n) = ap suc (length-bytes_of f (suc a) n)

take-bytes_of : (f : ℕ → ℕ) (a n m : ℕ) → n ≤ m → take n (bytes_of f a m) ≡ bytes_of f a n
take-bytes_of f a zero m le = refl
take-bytes_of f a (suc n) zero le = absurd (omega arith)
take-bytes_of f a (suc n) (suc m) le = ap (λ l. f a ∷ l) (take-bytes_of f (suc a) n m (omega arith))

drop-bytes_of :
    (f : ℕ → ℕ) (a n m : ℕ) → n ≤ m → drop n (bytes_of f a m) ≡ bytes_of f (a + n) (m - n)
drop-bytes_of f a zero m le = ap₂ (bytes_of f) (omega arith) (omega arith)
drop-bytes_of f a (suc n) zero le = absurd (omega arith)
drop-bytes_of f a (suc n) (suc m) le =
    drop-bytes_of f (suc a) n m (omega arith) ∙ ap₂ (bytes_of f) (omega arith) (omega arith)

-- `count` bytes from `skip` on, of a range that holds them.
pub slice-bytes_of :
    (f : ℕ → ℕ) (a skip count total : ℕ)
    → skip + count ≤ total
    → take count (drop skip (bytes_of f a total)) ≡ bytes_of f (a + skip) count
slice-bytes_of f a skip count total fits =
    ap (take count) (drop-bytes_of f a skip total (omega arith))
    ∙ take-bytes_of f (a + skip) count (total - skip) (omega arith)

-- A block of 512 bytes before the blocks behind it.
pub sectors-join :
    (f : ℕ → ℕ) (block blocks : ℕ)
    → bytes_of f (512 * block) 512 ++ bytes_of f (512 * suc block) (512 * blocks)
      ≡ bytes_of f (512 * block) (512 * suc blocks)
sectors-join f block blocks =
    let next : 512 * suc block ≡ 512 * block + 512 = omega arith in
    let total : 512 + 512 * blocks ≡ 512 * suc blocks = omega arith in
    ap (λ a. bytes_of f (512 * block) 512 ++ bytes_of f a (512 * blocks)) next
    ∙ (sym (bytes_of-add f (512 * block) 512 (512 * blocks)) ∙ ap (bytes_of f (512 * block)) total)
