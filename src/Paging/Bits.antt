-- ===== src/Paging/Bits.antt =====
-- The bits of a byte, by a check of all bytes.
use sepples_os.Prelude.{
  ℕ, ◌<◌, ◌≡◌, refl, ◌≢◌, Bool, true, false, ◌&&◌, ◌||◌, not, arith, ltb, ◌==◌, holds_below,
  holds_below-at, if◌then◌else◌,
}
use sepples_os.Paging.{test_bit, set_bit, clear_bit}

same : Bool → Bool → Bool
same true b = b
same false b = not b

eq_of_same : (a b : Bool) → same a b ≡ true → a ≡ b
unfolding same
eq_of_same a b h = ground arith

and_right : (a b : Bool) → (a && b) ≡ true → b ≡ true
and_right a b h = ground arith

-- What writing bit `b` as `v` makes of the bits of a byte.
good_write : (ℕ → ℕ → ℕ) → Bool → ℕ → ℕ → Bool
unfolding same
good_write write v x b =
    ltb (write x b) 256
    && holds_below 8 (λ c. same (test_bit (write x b) c) (if b == c then v else test_bit x c))

set_table : holds_below 256 (λ x. holds_below 8 (good_write set_bit true x)) ≡ true
unfolding holds_below good_write set_bit
set_table = refl

clear_table : holds_below 256 (λ x. holds_below 8 (good_write clear_bit false x)) ≡ true
unfolding holds_below good_write clear_bit
clear_table = refl

full_table : holds_below 256 (λ x. (x == 255) || not (holds_below 8 (test_bit x))) ≡ true
unfolding holds_below
full_table = refl

good_set : (x b : ℕ) → x < 256 → b < 8 → good_write set_bit true x b ≡ true
good_set x b hx hb = holds_below-at 8 _ b (holds_below-at 256 _ x set_table hx) hb

good_clear : (x b : ℕ) → x < 256 → b < 8 → good_write clear_bit false x b ≡ true
good_clear x b hx hb = holds_below-at 8 _ b (holds_below-at 256 _ x clear_table hx) hb

good_write_bit :
    (write : ℕ → ℕ → ℕ) (v : Bool) (x b c : ℕ)
    → good_write write v x b ≡ true
    → c < 8
    → test_bit (write x b) c ≡ (if b == c then v else test_bit x c)
unfolding good_write
good_write_bit write v x b c h hc = eq_of_same _ _ (holds_below-at 8 _ c (and_right _ _ h) hc)

pub set_bit-lt : (x b : ℕ) → x < 256 → b < 8 → set_bit x b < 256
unfolding good_write
set_bit-lt x b hx hb = ground (arith, good_set x b)

pub clear_bit-lt : (x b : ℕ) → x < 256 → b < 8 → clear_bit x b < 256
unfolding good_write
clear_bit-lt x b hx hb = ground (arith, good_clear x b)

pub test_bit-set_bit :
    (x b c : ℕ)
    → x < 256
    → b < 8
    → c < 8
    → test_bit (set_bit x b) c ≡ (if b == c then true else test_bit x c)
test_bit-set_bit x b c hx hb hc = good_write_bit set_bit true x b c (good_set x b hx hb) hc

pub test_bit-clear_bit :
    (x b c : ℕ)
    → x < 256
    → b < 8
    → c < 8
    → test_bit (clear_bit x b) c ≡ (if b == c then false else test_bit x c)
test_bit-clear_bit x b c hx hb hc = good_write_bit clear_bit false x b c (good_clear x b hx hb) hc

-- A byte that is not 0xFF has a clear bit.
pub not_all_set : (x : ℕ) → x < 256 → x ≢ 255 → holds_below 8 (test_bit x) ≡ false
not_all_set x h ne =
    let t =
      holds_below-at 256 (λ x. (x == 255) || not (holds_below 8 (test_bit x))) x full_table h in
    ground arith

full_byte : holds_below 8 (test_bit 255) ≡ true
unfolding holds_below
full_byte = refl

pub test_bit_full : (c : ℕ) → c < 8 → test_bit 255 c ≡ true
test_bit_full c h = holds_below-at 8 (test_bit 255) c full_byte h

zero_byte : holds_below 8 (λ c. not (test_bit 0 c)) ≡ true
unfolding holds_below
zero_byte = refl

pub test_bit_zero : (c : ℕ) → c < 8 → test_bit 0 c ≡ false
test_bit_zero c h = let t = holds_below-at 8 (λ c. not (test_bit 0 c)) c zero_byte h in ground arith
