-- ===== src/KBucket/Refresh/Keys.antt =====
-- A random key for a prefix shares with the local key exactly that many bits.
use Prim.Native.Nat.{bit_xor}
use native.Mathlib.Nat.{mod-lt, div-lt_iff_lt-mul, div-add-mod'}
use dep2p.Base.{
  ℕ, zero, suc, ◌+◌, ◌-◌, ◌*◌, ◌/◌, ◌%◌, ◌^◌, ◌<◌, ◌≡◌, refl, ap, ◌∙◌, Bool, false, [], ◌∷◌, ◌++◌,
  some, length, get_or, take, set, length-take, length-set, length-append, leb, ◌==◌, if_false,
  arith, ==_iff,
}
use dep2p.Base.Bits.{checked, checked-holds}
use dep2p.Keyspace.{
  Bytes, IsBytes, Primitives, common_prefix_len, leading_zeros8, zero_prefix_len, zip_xor,
}
use dep2p.Keyspace.Xor.{xor-lt-pow, xor_self}
use dep2p.Keyspace.Bytes.{zero_prefix_len-cons}
use dep2p.KBucket.Table.{RoutingTable}
use dep2p.KBucket.Refresh.{mixed_byte, gen_random_key}
use dep2p.KBucket.Refresh.Joins.{xor_blocks, flip_differs, pow-pos, mixed_byte-blocks}

-- The leading zeros of a byte whose highest bit is at `j`.
pub lz_high : (j v : ℕ) → j < 8 → v < 2 ^ j → leading_zeros8 (1 * 2 ^ j + v) ≡ 7 - j
unfolding leading_zeros8
lz_high zero v lt p = ground arith
lz_high (suc zero) v lt p = ground arith
lz_high (suc (suc zero)) v lt p = ground arith
lz_high (suc (suc (suc zero))) v lt p = ground arith
lz_high (suc (suc (suc (suc zero)))) v lt p = ground arith
lz_high (suc (suc (suc (suc (suc zero))))) v lt p = ground arith
lz_high (suc (suc (suc (suc (suc (suc zero)))))) v lt p = ground arith
lz_high (suc (suc (suc (suc (suc (suc (suc zero))))))) v lt p = ground arith
lz_high (suc (suc (suc (suc (suc (suc (suc (suc j)))))))) v lt p = absurd (omega arith)

-- The two sides of a byte make 256, for every shift.
abbrev makes_byte : ℕ → Bool
makes_byte j = 2 ^ suc (7 - j) * 2 ^ j == 256

sides : (j : ℕ) → j < 8 → 2 ^ suc (7 - j) * 2 ^ j ≡ 256
unfolding checked
sides j lt = (==_iff _ _).0 (checked-holds 8 makes_byte j refl lt)

-- The join differs from the local byte first at the flipped bit.
mixed_byte-differs :
    (j x y : ℕ) → j < 8 → x < 256 → leading_zeros8 (bit_xor (mixed_byte (suc j) x y) x) ≡ 7 - j
mixed_byte-differs j x y lt hx =
    let room = pow-pos j in
    let low : x % 2 ^ j < 2 ^ j = mod-lt x room in
    let low_y : y % 2 ^ j < 2 ^ j = mod-lt y room in
    let ex : x / 2 ^ j * 2 ^ j + x % 2 ^ j ≡ x = div-add-mod' x (2 ^ j) in
    let ey : y / 2 ^ j * 2 ^ j + y % 2 ^ j ≡ y = div-add-mod' y (2 ^ j) in
    let small : x / 2 ^ j < 2 ^ suc (7 - j) = (div-lt_iff_lt-mul room).1 (rw (sides j lt) hx) in
    let e =
      mixed_byte-blocks j (x / 2 ^ j) (x % 2 ^ j) (y / 2 ^ j) (y % 2 ^ j) low low_y lt small in
    let f = xor_blocks j (bit_xor (x / 2 ^ j) 1) (y % 2 ^ j) (x / 2 ^ j) (x % 2 ^ j) low_y low in
    let g : bit_xor (mixed_byte (suc j) x y) x ≡ 1 * 2 ^ j + bit_xor (y % 2 ^ j) (x % 2 ^ j) =
      rw (ex, ey) at
        (ap (λ m. bit_xor m (x / 2 ^ j * 2 ^ j + x % 2 ^ j)) e
          ∙ f
          ∙ ap (λ m. m * 2 ^ j + bit_xor (y % 2 ^ j) (x % 2 ^ j)) (flip_differs (x / 2 ^ j))) in
    rw g (lz_high j _ lt (xor-lt-pow j _ _ low_y low))

pub no_bits : leading_zeros8 0 ≡ 8
unfolding leading_zeros8
no_bits = refl

-- A key that begins like the local one, then has its own byte.
differs_at :
    (q m : ℕ) (local random : Bytes)
    → q < length local
    → length random ≡ length local - q
    → leading_zeros8 (bit_xor m (get_or local q 0)) < 8
    → zero_prefix_len (zip_xor (set (take q local ++ random) q m) local)
      ≡ 8 * q + leading_zeros8 (bit_xor m (get_or local q 0))
unfolding zip_xor
differs_at q m [] random lt e h = absurd (omega arith)
differs_at zero m (x ∷ local) [] lt e h = absurd (omega arith)
differs_at zero m (x ∷ local) (y ∷ random) lt e h =
    ground (arith, zero_prefix_len-cons (bit_xor m x) (zip_xor random local), no_bits)
differs_at (suc q) m (x ∷ local) random lt e h = ground (
  arith,
  zero_prefix_len-cons (bit_xor x x) (zip_xor (set (take q local ++ random) q m) local),
  xor_self x,
  differs_at q m local random,
)

get_or-byte : (bs : Bytes) (i : ℕ) → IsBytes bs → get_or bs i 0 < 256
get_or-byte [] i h = omega arith
get_or-byte (b ∷ bs) zero h = h.0
get_or-byte (b ∷ bs) (suc i) h = get_or-byte bs i h.1

byte_differs :
    (r x y : ℕ) → r < 8 → x < 256 → leading_zeros8 (bit_xor (mixed_byte (8 - r) x y) x) ≡ r
byte_differs r x y lt hx =
    let e : 8 - r ≡ suc (7 - r) = omega arith in
    rw e (omega (arith, mixed_byte-differs (7 - r) x y (omega arith) hx))

module _ (P : Primitives) {S : Type 0} where
  open P use {xor_bytes-eq-zip}

  -- For a prefix shorter than the local key, the key that `GenRandomKey` returns has the length of
  -- the local key and shares exactly that many bits with it, whatever the random bytes are.
  pub gen_random_key-prefix :
      (target : ℕ) (random : Bytes) (t : RoutingTable S)
      → IsBytes t.local
      → length random ≡ length t.local - target / 8
      → target + 1 < length t.local * 8
      → (k : Bytes) × (gen_random_key target random t ≡ some k)
        × (length k ≡ length t.local)
        × (common_prefix_len P k t.local ≡ target)
  unfolding gen_random_key common_prefix_len
  gen_random_key-prefix target random t bytes e h =
      let q = target / 8 in
      let x = get_or t.local q 0 in
      let output = take q t.local ++ random in
      let m = mixed_byte (8 - target % 8) x (get_or output q 0) in
      let room : q < length t.local = omega arith in
      let size : length (set output q m) ≡ length t.local = omega (
        arith,
        length-set output q m,
        length-append (take q t.local) random,
        length-take q t.local,
      ) in
      let lz : leading_zeros8 (bit_xor m x) ≡ target % 8 =
        byte_differs (target % 8) x _ (omega arith) (get_or-byte t.local q bytes) in
      let d = differs_at q m t.local random room e (omega (arith, lz)) in
      let guard : leb (length t.local * 8) (target + 1) ≡ false = ground arith in
      (
        set output q m,
        if_false _ _ guard,
        size,
        ap zero_prefix_len (xor_bytes-eq-zip (set output q m) t.local size) ∙ d ∙ omega (arith, lz),
      )
