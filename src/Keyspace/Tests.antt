-- ===== src/Keyspace/Tests.antt =====
-- Runs of the key space, and each theorem at a concrete input.
use dep2p.Base.{ℕ, zero, suc, ◌%◌, ◌≡◌, refl, [], ◌∷◌, arith, replicate}
use dep2p.Keyspace.{IsBytes, Primitives, Key, key, zero_prefix_len, zip_xor, common_prefix_len}
use dep2p.Keyspace.Distance

pub zeros : (n : ℕ) → IsBytes (replicate n 0)
zeros zero = tt
zeros (suc n) = (omega arith, zeros n)

-- A concrete digest: the number's low byte in front of zeros.
abbrev pub toy : Primitives
toy = record {
  xor_bytes = zip_xor;
  sum256 = λ s. s % 256 ∷ replicate 31 0;
  xor_bytes-eq-zip = λ a b e. refl;
  length-sum256 = λ s. refl;
  sum256-IsBytes = λ s. (omega arith, zeros 31);
}

-- The cases of `TestPrefixLen`.
prefix_24 : zero_prefix_len (0 ∷ 0 ∷ 0 ∷ 0x80 ∷ 0 ∷ 0 ∷ 0 ∷ []) ≡ 24
unfolding zero_prefix_len
prefix_24 = refl

prefix_56 : zero_prefix_len (replicate 7 0) ≡ 56
unfolding zero_prefix_len
prefix_56 = refl

prefix_9 : zero_prefix_len (0 ∷ 0x58 ∷ 0xff ∷ 0x80 ∷ 0 ∷ 0 ∷ 0xf0 ∷ []) ≡ 9
unfolding zero_prefix_len
prefix_9 = refl

abbrev a : Key
a = key toy 0x58

abbrev b : Key
b = key toy 0x5c

abbrev t : Key
t = key toy 0x90

abbrev pub toy-IsDigest : (s : ℕ) → Distance.IsDigest (toy.sum256 s)
toy-IsDigest = Distance.sum256-IsDigest toy

shared_5 : common_prefix_len toy a.bytes b.bytes ≡ 5
unfolding common_prefix_len zip_xor key
shared_5 = refl
