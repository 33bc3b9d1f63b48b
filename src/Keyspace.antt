-- ===== src/Keyspace.antt =====
-- The XOR key space: kbucket/keyspace/keyspace.go, kbucket/keyspace/xor.go and kbucket/util.go.
-- A byte slice is a list of numbers; that they are bytes is a hypothesis where it matters.
pub mod Xor
pub mod Bytes
pub mod Prefix
pub mod Distance
pub mod Tests
use Prim.Native.Nat.{bit_xor}
use dep2p.Base.{
  ℕ, suc, ◌+◌, ◌*◌, ◌^◌, ◌<◌, ◌≡◌, Bool, true, false, ◌&&◌, List, [], ◌∷◌, length, ltb, ◌==◌,
  if◌then◌else◌,
}
use dep2p.Base.Predicates.{All}

-- A peer identity or a key, which the program hashes and compares and never takes apart: a number
-- that stands for the string, 0 for the empty one.
abbrev pub PeerId : Type 0
PeerId = ℕ

abbrev pub Bytes : Type 0
Bytes = List ℕ

abbrev pub IsBytes : Bytes → Type 0
IsBytes = All (λ b. b < 256)

-- `bits.LeadingZeros8`.
unfoldable pub leading_zeros8 : ℕ → ℕ
leading_zeros8 b =
    if ltb b 1
    then 8
    else if ltb b 2
    then 7
    else if ltb b 4
    then 6
    else if ltb b 8
    then 5
    else if ltb b 16
    then 4
    else if ltb b 32
    then 3
    else if ltb b 64
    then 2
    else if ltb b 128
    then 1
    else 0

-- The loop over the bytes from index `i` on.
unfoldable pub zero_prefix_from : ℕ → Bytes → ℕ
unfolding leading_zeros8
zero_prefix_from i [] = i * 8
zero_prefix_from i (b ∷ id) =
    let rest = zero_prefix_from (i + 1) id in if b == 0 then rest else i * 8 + leading_zeros8 b

unfoldable pub zero_prefix_len : Bytes → ℕ
unfolding zero_prefix_from
zero_prefix_len id = zero_prefix_from 0 id

-- `bytes.Compare(a, b) < 0`.
unfoldable pub less_bytes : Bytes → Bytes → Bool
less_bytes [] [] = false
less_bytes [] (y ∷ b) = true
less_bytes (x ∷ a) [] = false
less_bytes (x ∷ a) (y ∷ b) =
    let rest = less_bytes a b in if ltb x y then true else if ltb y x then false else rest

-- `bytes.Equal`.
unfoldable pub equal_bytes : Bytes → Bytes → Bool
equal_bytes [] [] = true
equal_bytes [] (y ∷ b) = false
equal_bytes (x ∷ a) [] = false
equal_bytes (x ∷ a) (y ∷ b) = x == y && equal_bytes a b

-- `big.Int.SetBytes`: the most significant byte first.
unfoldable pub be_value : Bytes → ℕ
be_value [] = 0
be_value (b ∷ bs) = b * 256 ^ length bs + be_value bs

unfoldable pub zip_xor : Bytes → Bytes → Bytes
zip_xor [] b = []
zip_xor (x ∷ a) [] = []
zip_xor (x ∷ a) (y ∷ b) = bit_xor x y ∷ zip_xor a b

-- What the code takes from boxo/util and sha256-simd: `XOR` of two slices of one length is their
-- bytewise exclusive or, and `Sum256` gives 32 bytes.
pub record Primitives : Type 0 where
  pub xor_bytes : Bytes → Bytes → Bytes
  pub sum256 : ℕ → Bytes
  pub xor_bytes-eq-zip : (a b : Bytes) → length a ≡ length b → xor_bytes a b ≡ zip_xor a b
  pub length-sum256 : (s : ℕ) → length (sum256 s) ≡ 32
  pub sum256-IsBytes : (s : ℕ) → IsBytes (sum256 s)

pub record Key : Type 0 where
  pub original : ℕ
  pub bytes : Bytes

module _ (P : Primitives) where
  open P use {xor_bytes, sum256}

  -- `xorKeySpace`, the one key space of the program.
  unfoldable pub key : ℕ → Key
  key id = record { original = id; bytes = sum256 id }

  unfoldable pub equal : Key → Key → Bool
  unfolding equal_bytes
  equal k1 k2 = equal_bytes k1.bytes k2.bytes

  unfoldable pub distance : Key → Key → ℕ
  unfolding be_value
  distance k1 k2 = be_value (xor_bytes k1.bytes k2.bytes)

  unfoldable pub less : Key → Key → Bool
  unfolding less_bytes
  less k1 k2 = less_bytes k1.bytes k2.bytes

  -- kbucket/util.go.
  unfoldable pub id_less : Bytes → Bytes → Bool
  unfolding less
  id_less a b = less (record { original = 0; bytes = a }) (record { original = 0; bytes = b })

  unfoldable pub common_prefix_len : Bytes → Bytes → ℕ
  unfolding zero_prefix_len
  common_prefix_len a b = zero_prefix_len (xor_bytes a b)

  unfoldable pub convert_peer_id : PeerId → Bytes
  convert_peer_id id = sum256 id

  unfoldable pub convert_key : ℕ → Bytes
  convert_key id = sum256 id

  unfoldable pub closer : PeerId → PeerId → ℕ → Bool
  unfolding convert_peer_id convert_key id_less
  closer a b k =
      let tgt = convert_key k in
      id_less (xor_bytes (convert_peer_id a) tgt) (xor_bytes (convert_peer_id b) tgt)
