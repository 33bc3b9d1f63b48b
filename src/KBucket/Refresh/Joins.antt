-- ===== src/KBucket/Refresh/Joins.antt =====
-- The joins of high bits of one number, the last of them flipped, with low bits of another.
use native.Mathlib.Nat.{pow-suc}
use Prim.Native.Nat.{bit_and, bit_or, bit_xor}
use dep2p.Base.{
  ℕ, zero, suc, ◌+◌, ◌-◌, ◌*◌, ◌/◌, ◌%◌, ◌^◌, ◌<◌, ◌≡◌, refl, ap, ◌∙◌, Bool, arith, ◌==◌, ==_iff,
}
use dep2p.Base.Bits.{
  bit_and_lowest, bit_or_lowest, IsDigitwise, bit_and-IsDigitwise, bit_or-IsDigitwise, op_blocks,
  bit_and-ones, bit_and-zero, bit_or-zero, zero-bit_or, checked, checked-holds,
}
use dep2p.Keyspace.Xor.{xor_step, xor_comm, xor_cancel, xor-lt-pow, zero-xor}
use dep2p.KBucket.Refresh.{mixed_byte}

bit_xor-IsDigitwise : IsDigitwise bit_xor
bit_xor-IsDigitwise = record {
  digit = λ x y. (x + y) % 2;
  step = λ a b. omega (arith, xor_step a b);
  none = refl;
}

pub xor-zero : (x : ℕ) → bit_xor x 0 ≡ x
xor-zero x = xor_comm x 0 ∙ zero-xor x

-- The blocks of a number at a power of two.
pub xor_blocks :
    (k a b c d : ℕ)
    → b < 2 ^ k
    → d < 2 ^ k
    → bit_xor (a * 2 ^ k + b) (c * 2 ^ k + d) ≡ bit_xor a c * 2 ^ k + bit_xor b d
xor_blocks = op_blocks bit_xor bit_xor-IsDigitwise

and_blocks :
    (k a b c d : ℕ)
    → b < 2 ^ k
    → d < 2 ^ k
    → bit_and (a * 2 ^ k + b) (c * 2 ^ k + d) ≡ bit_and a c * 2 ^ k + bit_and b d
and_blocks = op_blocks bit_and bit_and-IsDigitwise

or_blocks :
    (k a b c d : ℕ)
    → b < 2 ^ k
    → d < 2 ^ k
    → bit_or (a * 2 ^ k + b) (c * 2 ^ k + d) ≡ bit_or a c * 2 ^ k + bit_or b d
or_blocks = op_blocks bit_or bit_or-IsDigitwise

-- Flipping the lowest bit differs from the number in that bit only.
pub flip_differs : (x : ℕ) → bit_xor (bit_xor x 1) x ≡ 1
flip_differs x = let e = xor_cancel 1 x 0 in rw (xor_comm x 1) (rw (xor-zero x) at e)

-- The high part of the byte, from its two masks.
high_part : (n x : ℕ) → x < 2 ^ suc n → bit_or (bit_and x ((2 ^ n - 1) * 2)) (bit_and x 1) ≡ x
high_part n x p =
    let double : 2 ^ suc n ≡ 2 ^ n * 2 = pow-suc 2 n in
    let half : (2 ^ n - 1) * 2 / 2 ≡ 2 ^ n - 1 = omega arith in
    let high : bit_and x ((2 ^ n - 1) * 2) ≡ x / 2 * 2 =
      bit_and_lowest x ((2 ^ n - 1) * 2)
      ∙ rw half (omega (arith, bit_and-ones n (x / 2) (omega (arith, double)))) in
    let low : bit_and x 1 ≡ x % 2 = bit_and_lowest x 1 ∙ omega (arith, bit_and-zero (x / 2)) in
    let whole : x / 2 * 2 / 2 ≡ x / 2 = omega arith in
    let nothing : x % 2 / 2 ≡ 0 = omega arith in
    rw (high, low)
      (bit_or_lowest (x / 2 * 2) (x % 2) ∙ rw (whole, nothing) (omega (arith, bit_or-zero (x / 2))))

-- The masks in blocks, checked for every shift.
abbrev byte_high : ℕ → Bool
byte_high i = (255 * 2 ^ suc i) % 256 == (2 ^ (7 - i) - 1) * 2 * 2 ^ i + 0

abbrev byte_low : ℕ → Bool
byte_low i = (255 - (255 * 2 ^ suc i) % 256) / 2 == 0 * 2 ^ i + (2 ^ i - 1)

abbrev word_high : ℕ → Bool
word_high i = (0xffff * 2 ^ i) % 2 ^ 16 == (2 ^ (16 - i) - 1) * 2 ^ i + 0

abbrev word_low : ℕ → Bool
word_low i = 0xffff - (0xffff * 2 ^ i) % 2 ^ 16 == 0 * 2 ^ i + (2 ^ i - 1)

byte_masks :
    (j : ℕ)
    → j < 8
    → ((255 * 2 ^ suc j) % 256 ≡ (2 ^ (7 - j) - 1) * 2 * 2 ^ j + 0)
      × ((255 - (255 * 2 ^ suc j) % 256) / 2 ≡ 0 * 2 ^ j + (2 ^ j - 1))
unfolding checked
byte_masks j lt = (
  (==_iff _ _).0 (checked-holds 8 byte_high j refl lt),
  (==_iff _ _).0 (checked-holds 8 byte_low j refl lt),
)

word_masks :
    (j : ℕ)
    → j < 16
    → ((0xffff * 2 ^ j) % 2 ^ 16 ≡ (2 ^ (16 - j) - 1) * 2 ^ j + 0)
      × (0xffff - (0xffff * 2 ^ j) % 2 ^ 16 ≡ 0 * 2 ^ j + (2 ^ j - 1))
unfolding checked
word_masks j lt = (
  (==_iff _ _).0 (checked-holds 16 word_high j refl lt),
  (==_iff _ _).0 (checked-holds 16 word_low j refl lt),
)

one_block : (k : ℕ) → 2 ^ k ≡ 1 * 2 ^ k + 0
one_block k = omega arith

pub pow-pos : (k : ℕ) → 0 < 2 ^ k
pow-pos zero = omega arith
pow-pos (suc k) = omega (arith, pow-suc 2 k, pow-pos k)

one-lt-pow : (k : ℕ) → 0 < k → 1 < 2 ^ k
one-lt-pow zero p = absurd (omega arith)
one-lt-pow (suc k) p = omega (arith, pow-suc 2 k, pow-pos k)

no_low : (a m : ℕ) → a * m + 0 ≡ a * m
no_low a m = omega arith

module _ (j a l r s : ℕ) (pl : l < 2 ^ j) (ps : s < 2 ^ j) where
  full : 2 ^ j - 1 < 2 ^ j
  full = omega (arith, pow-pos j)

  -- The low bits of the other number.
  low_part :
      (mask : ℕ) → mask ≡ 0 * 2 ^ j + (2 ^ j - 1) → bit_and (r * 2 ^ j + s) mask ≡ 0 * 2 ^ j + s
  low_part mask e =
      rw e (and_blocks j r s 0 (2 ^ j - 1) ps full ∙ rw (bit_and-zero r, bit_and-ones j s ps) refl)

  -- The flipped high part.
  flipped :
      (n mask bit : ℕ)
      → a < 2 ^ suc n
      → mask ≡ (2 ^ n - 1) * 2 * 2 ^ j + 0
      → bit ≡ 1 * 2 ^ j + 0
      → bit_xor (bit_or (bit_and (a * 2 ^ j + l) mask) (bit_and (a * 2 ^ j + l) bit)) bit
        ≡ bit_xor a 1 * 2 ^ j + 0
  flipped n mask bit pa e f =
      let none_low : 0 < 2 ^ j = pow-pos j in
      rw (e, f)
        (rw
          (
            and_blocks j a l ((2 ^ n - 1) * 2) 0 pl none_low,
            and_blocks j a l 1 0 pl none_low,
            bit_and-zero l,
            or_blocks j (bit_and a ((2 ^ n - 1) * 2)) 0 (bit_and a 1) 0 none_low none_low,
            high_part n a pa,
          )
          (xor_blocks j a 0 1 0 none_low none_low))

  joined : (x : ℕ) → bit_or (x * 2 ^ j + 0) (0 * 2 ^ j + s) ≡ x * 2 ^ j + s
  joined x = or_blocks j x 0 0 s (pow-pos j) ps ∙ rw (bit_or-zero x, zero-bit_or s) refl

  pub mixed_byte-blocks :
      j < 8
      → a < 2 ^ suc (7 - j)
      → mixed_byte (suc j) (a * 2 ^ j + l) (r * 2 ^ j + s) ≡ bit_xor a 1 * 2 ^ j + s
  unfolding mixed_byte
  mixed_byte-blocks lt pa =
      let (mask, low_mask) = byte_masks j lt in
      let same : suc j - 1 ≡ j = omega arith in
      let bit : 2 ^ (suc j - 1) ≡ 1 * 2 ^ j + 0 = ap (λ k. 2 ^ k) same ∙ one_block j in
      rw (flipped (7 - j) _ _ pa mask bit, low_part _ low_mask) (joined (bit_xor a 1))

  -- The join on 16 bits, the lowest of the high bits already flipped.
  pub word-blocks :
      (bit : ℕ)
      → j < 16
      → a < 2 ^ (16 - j)
      → 0 < 16 - j
      → bit ≡ 2 ^ j
      → bit_or
          (bit_and (bit_xor (a * 2 ^ j + l) bit) ((0xffff * 2 ^ j) % 2 ^ 16))
          (bit_and (r * 2 ^ j + s) (0xffff - (0xffff * 2 ^ j) % 2 ^ 16))
        ≡ bit_xor a 1 * 2 ^ j + s
  word-blocks bit lt pa room e =
      let (mask, low_mask) = word_masks j lt in
      let none_low : 0 < 2 ^ j = pow-pos j in
      let one_bit : bit ≡ 1 * 2 ^ j + 0 = omega (arith, e) in
      let small : 1 < 2 ^ (16 - j) = one-lt-pow (16 - j) room in
      let toggled : bit_xor (a * 2 ^ j + l) bit ≡ bit_xor a 1 * 2 ^ j + l =
        rw one_bit (xor_blocks j a l 1 0 pl none_low ∙ rw (xor-zero l) refl) in
      let high : bit_and (bit_xor a 1 * 2 ^ j + l) ((2 ^ (16 - j) - 1) * 2 ^ j + 0)
          ≡ bit_xor a 1 * 2 ^ j + 0 =
        and_blocks j (bit_xor a 1) l (2 ^ (16 - j) - 1) 0 pl none_low
        ∙ rw
            (bit_and-ones (16 - j) (bit_xor a 1) (xor-lt-pow (16 - j) a 1 pa small), bit_and-zero l)
            refl in
      rw (low_part _ low_mask, toggled, mask, high) (joined (bit_xor a 1))
