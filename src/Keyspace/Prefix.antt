-- ===== src/Keyspace/Prefix.antt =====
-- Zero prefixes against values and against exclusive or.
use Prim.Native.Nat.{bit_xor}
use native.Mathlib.Nat.{pow-suc, add_comm, one-le-pow}
use mathlib.Core.Path.{ap₂}
use native.Mathlib.Numerals.{towards_suc}
use dep2p.Base.{
  ℕ, zero, suc, ◌+◌, ◌-◌, ◌*◌, ◌^◌, ◌≤◌, ◌<◌, ◌≡◌, refl, ap, true, [], ◌∷◌, arith, length,
}
use dep2p.Keyspace.{Bytes, IsBytes, leading_zeros8, zero_prefix_len, less_bytes, be_value, zip_xor}
use dep2p.Keyspace.Bytes.{be_value-lt, zero_prefix_len-nil, zero_prefix_len-cons}
use dep2p.Keyspace.Xor.{
  zero-xor, xor-lt-pow, xor-lt-top, xor_cancel, xor_comm, xor_self, eq_of_xor-zero,
}

-- A byte's leading zeros scale it into the upper half of the byte's range.
lz_scale :
    (x : ℕ) → x < 256 → 0 < x → (x * 2 ^ leading_zeros8 x < 256) × (128 ≤ x * 2 ^ leading_zeros8 x)
unfolding leading_zeros8
lz_scale x h p = ground arith

lz-le : (x : ℕ) → leading_zeros8 x ≤ 8
unfolding leading_zeros8
lz-le x = ground arith

lz-lt : (x : ℕ) → 0 < x → leading_zeros8 x < 8
unfolding leading_zeros8
lz-lt x h = ground arith

lz_of_lt : (m x : ℕ) → x < 2 ^ m → 8 ≤ leading_zeros8 x + m
unfolding leading_zeros8
lz_of_lt zero x h = ground arith
lz_of_lt (suc zero) x h = ground arith
lz_of_lt (suc (suc zero)) x h = ground arith
lz_of_lt (suc (suc (suc zero))) x h = ground arith
lz_of_lt (suc (suc (suc (suc zero)))) x h = ground arith
lz_of_lt (suc (suc (suc (suc (suc zero))))) x h = ground arith
lz_of_lt (suc (suc (suc (suc (suc (suc zero)))))) x h = ground arith
lz_of_lt (suc (suc (suc (suc (suc (suc (suc zero))))))) x h = ground arith
lz_of_lt (suc (suc (suc (suc (suc (suc (suc (suc m)))))))) x h = omega arith

lt_of_lz : (m x : ℕ) → x < 256 → m ≤ 8 → 8 ≤ leading_zeros8 x + m → x < 2 ^ m
unfolding leading_zeros8
lt_of_lz zero x b c h = ground arith
lt_of_lz (suc zero) x b c h = ground arith
lt_of_lz (suc (suc zero)) x b c h = ground arith
lt_of_lz (suc (suc (suc zero))) x b c h = ground arith
lt_of_lz (suc (suc (suc (suc zero)))) x b c h = ground arith
lt_of_lz (suc (suc (suc (suc (suc zero))))) x b c h = ground arith
lt_of_lz (suc (suc (suc (suc (suc (suc zero)))))) x b c h = ground arith
lt_of_lz (suc (suc (suc (suc (suc (suc (suc zero))))))) x b c h = ground arith
lt_of_lz (suc (suc (suc (suc (suc (suc (suc (suc zero)))))))) x b c h = omega arith
lt_of_lz (suc (suc (suc (suc (suc (suc (suc (suc (suc m))))))))) x b c h = absurd (omega arith)

-- More leading zeros, smaller byte.
lt_of_lz-lt : (x y : ℕ) → leading_zeros8 y < leading_zeros8 x → x < y
unfolding leading_zeros8
lt_of_lz-lt x y h = ground arith

-- The leading zeros of an exclusive or are at least those that both bytes have.
lz-xor :
    (k x y : ℕ)
    → x < 256
    → y < 256
    → k ≤ leading_zeros8 x
    → k ≤ leading_zeros8 y
    → k ≤ leading_zeros8 (bit_xor x y)
lz-xor k x y hx hy p q =
    let small : k ≤ 8 = omega (arith, lz-le x) in
    omega (
      arith,
      lz_of_lt (8 - k) (bit_xor x y) (
          xor-lt-pow (8 - k) x y (lt_of_lz (8 - k) x hx (omega arith) (omega arith))
            (lt_of_lz (8 - k) y hy (omega arith) (omega arith))),
    )

byte_room : (x : ℕ) → x < 256 → ((x + 1) * 2 ^ leading_zeros8 x ≤ 256) × (0 < 2 ^ leading_zeros8 x)
unfolding leading_zeros8
byte_room x h = ground arith

pow_shift : (z : ℕ) → 2 ^ (8 + z) ≡ 256 * 2 ^ z
pow_shift z = rw (add_comm 8 z) (simp towards_suc (omega arith))

mul_mono : (a b c : ℕ) → a ≤ b → a * c ≤ b * c
mul_mono a b c h = grind arith

scale_upper : (x R V p : ℕ) → V < R → (x + 1) * p ≤ 256 → 0 < p → (x * R + V) * p < R * 256
scale_upper x R V p hV hx hp =
    let below : x * R + V + 1 ≤ (x + 1) * R = omega arith in
    omega (arith, mul_mono _ _ R hx, mul_mono _ _ p below)

scale_lower : (x R V p : ℕ) → 128 ≤ x * p → R * 256 ≤ 2 * ((x * R + V) * p)
scale_lower x R V p h = omega (arith, mul_mono _ _ R h)

first : (x : ℕ) (a : Bytes) → zero_prefix_len (suc x ∷ a) ≡ leading_zeros8 (suc x)
first x a = ground (arith, zero_prefix_len-cons (suc x) a)

-- The value of a slice, scaled by its zero prefix, fits the slice, and fills its upper half if
-- the slice is not all zeros.
pub zero_prefix_len-scale :
    (a : Bytes)
    → IsBytes a
    → (be_value a * 2 ^ zero_prefix_len a < 256 ^ length a)
      × (zero_prefix_len a < 8 * length a
          → 256 ^ length a ≤ 2 * (be_value a * 2 ^ zero_prefix_len a))
      × (zero_prefix_len a ≤ 8 * length a)
unfolding be_value
zero_prefix_len-scale [] h =
    let e : zero_prefix_len [] ≡ 0 = zero_prefix_len-nil in
    rw e (omega arith, λ p. absurd (omega arith), omega arith)
zero_prefix_len-scale (zero ∷ a) h =
    let (upper, lower, bound) = zero_prefix_len-scale a h.1 in
    let e : zero_prefix_len (zero ∷ a) ≡ 8 + zero_prefix_len a = zero_prefix_len-cons zero a in
    rw (e, pow_shift (zero_prefix_len a), pow-suc 256 (length a))
      (omega arith, λ p. omega (arith, lower (omega arith)), omega arith)
zero_prefix_len-scale (suc x ∷ a) h =
    let e : zero_prefix_len (suc x ∷ a) ≡ leading_zeros8 (suc x) = first x a in
    let (room, positive) = byte_room (suc x) h.0 in
    let large = (lz_scale (suc x) h.0 (omega arith)).1 in
    rw (e, pow-suc 256 (length a))
      (
        scale_upper (suc x) _ _ _ (be_value-lt a h.1) room positive,
        λ p. scale_lower (suc x) _ _ _ large,
        omega (arith, lz-le (suc x)),
      )

-- A longer zero prefix makes the smaller slice.
pub less_bytes_of_prefix-lt :
    (a b : Bytes)
    → length a ≡ length b
    → zero_prefix_len b < zero_prefix_len a
    → less_bytes a b ≡ true
unfolding less_bytes
less_bytes_of_prefix-lt [] [] e h = absurd (omega arith)
less_bytes_of_prefix-lt [] (y ∷ b) e h = absurd (omega arith)
less_bytes_of_prefix-lt (x ∷ a) [] e h = absurd (omega arith)
less_bytes_of_prefix-lt (x ∷ a) (y ∷ b) e h = ground (
  arith,
  zero_prefix_len-cons x a,
  zero_prefix_len-cons y b,
  lz-le x,
  lz-le y,
  lt_of_lz-lt x y,
  lz-lt y,
  lz-lt x,
  less_bytes_of_prefix-lt a b (omega arith),
)

-- The zero prefix of an exclusive or is at least the one that both slices have.
pub zero_prefix_len-zip :
    (k : ℕ) (a b : Bytes)
    → IsBytes a
    → IsBytes b
    → length a ≡ length b
    → k ≤ zero_prefix_len a
    → k ≤ zero_prefix_len b
    → k ≤ zero_prefix_len (zip_xor a b)
unfolding zip_xor
zero_prefix_len-zip k [] [] ha hb e p q = p
zero_prefix_len-zip k [] (y ∷ b) ha hb e p q = absurd (omega arith)
zero_prefix_len-zip k (x ∷ a) [] ha hb e p q = absurd (omega arith)
zero_prefix_len-zip k (x ∷ a) (y ∷ b) ha hb e p q = ground (
  arith,
  zero_prefix_len-cons x a,
  zero_prefix_len-cons y b,
  zero_prefix_len-cons (bit_xor x y) (zip_xor a b),
  lz-le x,
  lz-le y,
  lz-xor k x y ha.0 hb.0,
  zero-xor y,
  xor_comm x y,
  zero-xor x,
  lz-lt x,
  lz-lt y,
  zero_prefix_len-zip (k - 8) a b ha.1 hb.1 (omega arith),
)

pub zip_xor_comm : (a b : Bytes) → zip_xor a b ≡ zip_xor b a
unfolding zip_xor
zip_xor_comm [] [] = refl
zip_xor_comm [] (y ∷ b) = refl
zip_xor_comm (x ∷ a) [] = refl
zip_xor_comm (x ∷ a) (y ∷ b) = ground (arith, xor_comm x y, zip_xor_comm a b)

pub zip_xor-cancel :
    (a b c : Bytes)
    → length a ≡ length b
    → length b ≡ length c
    → zip_xor (zip_xor a b) (zip_xor b c) ≡ zip_xor a c
unfolding zip_xor
zip_xor-cancel [] [] [] p q = refl
zip_xor-cancel [] [] (z ∷ c) p q = refl
zip_xor-cancel [] (y ∷ b) c p q = absurd (omega arith)
zip_xor-cancel (x ∷ a) [] c p q = absurd (omega arith)
zip_xor-cancel (x ∷ a) (y ∷ b) [] p q = refl
zip_xor-cancel (x ∷ a) (y ∷ b) (z ∷ c) p q =
    ground (arith, xor_cancel x y z, zip_xor-cancel a b c (omega arith) (omega arith))

pub length-zip_xor : (a b : Bytes) → length a ≡ length b → length (zip_xor a b) ≡ length a
unfolding zip_xor
length-zip_xor [] b e = refl
length-zip_xor (x ∷ a) [] e = absurd (omega arith)
length-zip_xor (x ∷ a) (y ∷ b) e = ap suc (length-zip_xor a b (omega arith))

pub zip_xor-IsBytes : (a b : Bytes) → IsBytes a → IsBytes b → IsBytes (zip_xor a b)
unfolding zip_xor
zip_xor-IsBytes [] b ha hb = tt
zip_xor-IsBytes (x ∷ a) [] ha hb = tt
zip_xor-IsBytes (x ∷ a) (y ∷ b) ha hb = (xor-lt-pow 8 x y ha.0 hb.0, zip_xor-IsBytes a b ha.1 hb.1)

parts_zero : (w R V : ℕ) → 0 < R → w * R + V ≡ 0 → (w ≡ 0) × (V ≡ 0)
parts_zero zero R V p e = omega arith
parts_zero (suc w) R V p e = absurd (omega (arith, mul_mono 1 (suc w) R (omega arith)))

-- All zeros exactly at equal slices.
pub eq_of_zip_xor-zero : (a b : Bytes) → length a ≡ length b → be_value (zip_xor a b) ≡ 0 → a ≡ b
unfolding zip_xor be_value
eq_of_zip_xor-zero [] [] e h = refl
eq_of_zip_xor-zero [] (y ∷ b) e h = absurd (omega arith)
eq_of_zip_xor-zero (x ∷ a) [] e h = absurd (omega arith)
eq_of_zip_xor-zero (x ∷ a) (y ∷ b) e h =
    let (head, tail) = parts_zero _ _ _ (one-le-pow (length (zip_xor a b)) 256 (omega arith)) h in
    ap₂ ◌∷◌ (eq_of_xor-zero x y head) (eq_of_zip_xor-zero a b (omega arith) tail)

pub zip_xor_self : (a : Bytes) → be_value (zip_xor a a) ≡ 0
unfolding zip_xor be_value
zip_xor_self [] = refl
zip_xor_self (x ∷ a) = rw (xor_self x) (omega (arith, zip_xor_self a))

-- The highest bit of a byte that is not 0.
top_of_lz :
    (x : ℕ)
    → x < 256
    → 0 < x
    → (2 ^ (7 - leading_zeros8 x) ≤ x) × (x < 2 ^ suc (7 - leading_zeros8 x))
unfolding leading_zeros8
top_of_lz x h p = ground arith

lz-xor-same :
    (x y : ℕ)
    → x < 256
    → y < 256
    → 0 < x
    → 0 < y
    → leading_zeros8 x ≡ leading_zeros8 y
    → leading_zeros8 x < leading_zeros8 (bit_xor x y)
lz-xor-same x y hx hy p q e =
    let (low, high) = top_of_lz x hx p in
    let (low', high') = top_of_lz y hy q in
    let small = lz-lt x p in
    omega (
      arith,
      small,
      lz_of_lt (7 - leading_zeros8 x) (bit_xor x y)
          (xor-lt-top (7 - leading_zeros8 x) x y low high (rw e low') (rw e high')),
    )

-- The zero prefix of the exclusive or is longer than one that both have, with a bit behind it.
pub zero_prefix_len-zip_same :
    (a b : Bytes)
    → IsBytes a
    → IsBytes b
    → length a ≡ length b
    → zero_prefix_len a ≡ zero_prefix_len b
    → zero_prefix_len a < 8 * length a
    → zero_prefix_len a < zero_prefix_len (zip_xor a b)
unfolding zip_xor
zero_prefix_len-zip_same [] b ha hb e p q = absurd (omega arith)
zero_prefix_len-zip_same (x ∷ a) [] ha hb e p q = absurd (omega arith)
zero_prefix_len-zip_same (x ∷ a) (y ∷ b) ha hb e p q = ground (
  arith,
  zero_prefix_len-cons x a,
  zero_prefix_len-cons y b,
  zero_prefix_len-cons (bit_xor x y) (zip_xor a b),
  lz-le x,
  lz-le y,
  zero-xor y,
  lz-lt x,
  lz-lt y,
  lz-xor-same x y ha.0 hb.0,
  zero_prefix_len-zip_same a b ha.1 hb.1 (omega arith),
)
