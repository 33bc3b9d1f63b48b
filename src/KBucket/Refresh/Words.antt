-- ===== src/KBucket/Refresh/Words.antt =====
-- A peer identity generated from the table of 16-bit prefixes shares with the local key exactly the
-- bits asked for.
use Prim.Native.Nat.{bit_xor}
use native.Mathlib.Nat.{pow-suc, mod-lt, div-lt_iff_lt-mul, div-add-mod', pow-le-pow_right}
use dep2p.Base.{
  ℕ, suc, ◌+◌, ◌-◌, ◌*◌, ◌/◌, ◌%◌, ◌^◌, ◌≤◌, ◌<◌, ◌≡◌, refl, sym, ap, ◌∙◌, Bool, false, [], ◌∷◌,
  some, ltb, leb, leb→le, Bool-cases, inl, inr, ◌==◌, if_false, arith, ==_iff,
}
use dep2p.Base.Bits.{checked, checked-holds}
use dep2p.Keyspace.{
  PeerId, Bytes, Primitives, common_prefix_len, convert_peer_id, zero_prefix_len, zip_xor,
}
use dep2p.Keyspace.Xor.{xor-lt-pow, xor_cancel}
use dep2p.Keyspace.Bytes.{zero_prefix_len-cons}
use dep2p.Keyspace.Distance.{IsDigest, sum256-IsDigest}
use dep2p.KBucket.Table.{RoutingTable}
use dep2p.KBucket.Refresh.{target_prefix, big_endian16, gen_rand_peer_id}
use dep2p.KBucket.Refresh.Joins.{xor-zero, xor_blocks, flip_differs, pow-pos, word-blocks}
use dep2p.KBucket.Refresh.Keys.{lz_high}

-- The powers of two of the word, checked for every shift.
abbrev bit_at : ℕ → Bool
bit_at t = 0x8000 / 2 ^ t == 2 ^ (15 - t)

abbrev makes_word : ℕ → Bool
makes_word j = 2 ^ (16 - j) * 2 ^ j == 65536

abbrev high_bit : ℕ → Bool
high_bit i = 2 ^ (8 + i) == 2 ^ i * 256

bit_at-eq : (t : ℕ) → t < 16 → 0x8000 / 2 ^ t ≡ 2 ^ (15 - t)
unfolding checked
bit_at-eq t lt = (==_iff _ _).0 (checked-holds 16 bit_at t refl lt)

makes_word-eq : (j : ℕ) → j < 16 → 2 ^ (16 - j) * 2 ^ j ≡ 65536
unfolding checked
makes_word-eq j lt = (==_iff _ _).0 (checked-holds 16 makes_word j refl lt)

high_bit-eq : (i : ℕ) → i < 8 → 2 ^ (8 + i) ≡ 2 ^ i * 256
unfolding checked
high_bit-eq i lt = (==_iff _ _).0 (checked-holds 8 high_bit i refl lt)

-- The word made for a prefix differs from the local word first at that bit.
target_prefix-differs :
    (t x y : ℕ)
    → t < 16
    → x < 65536
    → (v : ℕ) × (v < 2 ^ (15 - t)) × (bit_xor (target_prefix t x y) x ≡ 1 * 2 ^ (15 - t) + v)
unfolding target_prefix
target_prefix-differs t x y lt hx =
    let j = 15 - t in
    let room = pow-pos j in
    let low : x % 2 ^ j < 2 ^ j = mod-lt x room in
    let low_y : y % 2 ^ j < 2 ^ j = mod-lt y room in
    let ex : x / 2 ^ j * 2 ^ j + x % 2 ^ j ≡ x = div-add-mod' x (2 ^ j) in
    let ey : y / 2 ^ j * 2 ^ j + y % 2 ^ j ≡ y = div-add-mod' y (2 ^ j) in
    let shift : 16 - (t + 1) ≡ j = omega arith in
    let small : x / 2 ^ j < 2 ^ (16 - j) =
      (div-lt_iff_lt-mul room).1 (rw (makes_word-eq j (omega arith)) hx) in
    let e =
      word-blocks j (x / 2 ^ j) (x % 2 ^ j) (y / 2 ^ j) (y % 2 ^ j) low low_y (0x8000 / 2 ^ t)
        (omega arith) small (omega arith) (bit_at-eq t lt) in
    let f = xor_blocks j (bit_xor (x / 2 ^ j) 1) (y % 2 ^ j) (x / 2 ^ j) (x % 2 ^ j) low_y low in
    (
      bit_xor (y % 2 ^ j) (x % 2 ^ j),
      xor-lt-pow j _ _ low_y low,
      rw shift (
          rw (ex, ey) at
            (ap (λ m. bit_xor m (x / 2 ^ j * 2 ^ j + x % 2 ^ j)) e
              ∙ f
              ∙ ap (λ m. m * 2 ^ j + bit_xor (y % 2 ^ j) (x % 2 ^ j)) (flip_differs (x / 2 ^ j)))),
    )

-- The zero prefix of two bytes is read off the word that they make.
two_bytes :
    (t v a b : ℕ) (bs : Bytes)
    → t < 16
    → a < 256
    → b < 256
    → v < 2 ^ (15 - t)
    → a * 256 + b ≡ 1 * 2 ^ (15 - t) + v
    → zero_prefix_len (a ∷ b ∷ bs) ≡ t
two_bytes t v a b bs lt ha hb hv e = elim (Bool-cases (leb t 7)) [
  | inl h ↦
      let i = 7 - t in
      let le : t ≤ 7 = leb→le t 7 h in
      let j : 15 - t ≡ 8 + i = omega arith in
      let wide : 2 ^ (15 - t) ≡ 2 ^ i * 256 = ap (λ k. 2 ^ k) j ∙ high_bit-eq i (omega arith) in
      let lead : a ≡ 1 * 2 ^ i + v / 256 = omega arith in
      let positive = pow-pos i in
      let lz = lz_high i (v / 256) (omega arith) (omega arith) in
      ground (arith, zero_prefix_len-cons a (b ∷ bs))
  | inr h ↦
      let j = 15 - t in
      let gt : 7 < t = ground arith in
      let narrow : 2 ^ suc j ≤ 2 ^ 8 =
        pow-le-pow_right {n = 2} (omega arith) {i = suc j} {j = 8} (omega arith) in
      let double = pow-suc 2 j in
      let none : a ≡ 0 = omega arith in
      let lead : b ≡ 1 * 2 ^ j + v = omega arith in
      let positive = pow-pos j in
      let lz = lz_high j v (omega arith) hv in
      ground (arith, zero_prefix_len-cons a (b ∷ bs), zero_prefix_len-cons b bs)
]

-- The prefix of two keys against their first words.
words_differ :
    (P : Primitives) (t v : ℕ) {a b : Bytes}
    → IsDigest a
    → IsDigest b
    → t < 16
    → v < 2 ^ (15 - t)
    → bit_xor (big_endian16 a) (big_endian16 b) ≡ 1 * 2 ^ (15 - t) + v
    → common_prefix_len P a b ≡ t
unfolding common_prefix_len big_endian16 zip_xor
words_differ P t v {a = []} da db lt hv e = absurd (omega (arith, da.size))
words_differ P t v {a = x ∷ []} da db lt hv e = absurd (omega (arith, da.size))
words_differ P t v {a = x ∷ y ∷ a} {b = []} da db lt hv e = absurd (omega (arith, db.size))
words_differ P t v {a = x ∷ y ∷ a} {b = z ∷ []} da db lt hv e = absurd (omega (arith, db.size))
words_differ P t v {a = x ∷ y ∷ a} {b = z ∷ w ∷ b} da db lt hv e =
    let zipped = P.xor_bytes-eq-zip (x ∷ y ∷ a) (z ∷ w ∷ b) (omega (arith, da.size, db.size)) in
    let blocks : bit_xor (x * 256 + y) (z * 256 + w) ≡ bit_xor x z * 256 + bit_xor y w =
      xor_blocks 8 x y z w da.bytes.1.0 db.bytes.1.0 in
    ap zero_prefix_len zipped
    ∙ two_bytes t v (bit_xor x z) (bit_xor y w) (zip_xor a b) lt
        (xor-lt-pow 8 x z da.bytes.0 db.bytes.0) (xor-lt-pow 8 y w da.bytes.1.0 db.bytes.1.0) hv
        (sym blocks ∙ e)

big_endian16-lt : (a : Bytes) → IsDigest a → big_endian16 a < 65536
unfolding big_endian16
big_endian16-lt [] d = omega arith
big_endian16-lt (x ∷ []) d = absurd (omega (arith, d.size))
big_endian16-lt (x ∷ y ∷ a) d = omega (arith, d.bytes.0, d.bytes.1.0)

convert-IsDigest : (P : Primitives) (p : PeerId) → IsDigest (convert_peer_id P p)
unfolding convert_peer_id
convert-IsDigest P p = sum256-IsDigest P p

-- A difference below the word's range leaves the word in range.
in_range : (m w x d : ℕ) → x < 2 ^ m → d < 2 ^ m → bit_xor w x ≡ d → w < 2 ^ m
in_range m w x d hx hd e =
    let back = xor_cancel w x 0 in
    let whole : bit_xor d x ≡ w = rw (xor-zero x, xor-zero w, e) at back in
    rw (sym whole) (xor-lt-pow m d x hd hx)

module _ (P : Primitives) {S : Type 0} where
  -- Where the table holds, for each 16-bit prefix, an entry whose identity hashes to that prefix,
  -- the identity that `GenRandPeerID` makes for a prefix length up to 15 shares exactly that many
  -- bits with the local key.
  pub gen_rand_peer_id-prefix :
      (key_prefix_map : ℕ → ℕ) (peer_of : ℕ → PeerId) (target rand_prefix : ℕ) (t : RoutingTable S)
      → ((w : ℕ) → w < 65536 → big_endian16 (convert_peer_id P (peer_of (key_prefix_map w))) ≡ w)
      → IsDigest t.local
      → rand_prefix < 65536
      → target ≤ 15
      → (p : PeerId) × (gen_rand_peer_id key_prefix_map peer_of target rand_prefix t ≡ some p)
        × (common_prefix_len P (convert_peer_id P p) t.local ≡ target)
  unfolding gen_rand_peer_id
  gen_rand_peer_id-prefix key_prefix_map peer_of target rand_prefix t listed digest hr le =
      let w = target_prefix target (big_endian16 t.local) rand_prefix in
      let (v, hv, e) =
        target_prefix-differs target (big_endian16 t.local) rand_prefix (omega arith)
          (big_endian16-lt t.local digest) in
      let narrow : 2 ^ suc (15 - target) ≤ 2 ^ 16 =
        pow-le-pow_right {n = 2} (omega arith) {i = suc (15 - target)} {j = 16} (omega arith) in
      let double = pow-suc 2 (15 - target) in
      let difference : 1 * 2 ^ (15 - target) + v < 2 ^ 16 = omega arith in
      let small : w < 65536 =
        in_range 16 w (big_endian16 t.local) _ (big_endian16-lt t.local digest) difference e in
      let guard : ltb 15 target ≡ false = ground arith in
      let same = listed w small in
      (
        peer_of (key_prefix_map w),
        if_false _ _ guard,
        words_differ P target v (convert-IsDigest P (peer_of (key_prefix_map w))) digest
            (omega arith) hv (ap (λ k. bit_xor k (big_endian16 t.local)) same ∙ e),
      )
