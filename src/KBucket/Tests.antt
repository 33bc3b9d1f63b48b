-- ===== src/KBucket/Tests.antt =====
-- Runs of the routing table, and each theorem at a concrete input.
use dep2p.Base.{replicate, ◌/◌, ◌%◌, ◌<◌, get_elem?, if◌then◌else◌, ◌==◌}
use dep2p.Keyspace.{Primitives, zip_xor, Bytes}
use dep2p.Keyspace.Tests.{zeros}
use dep2p.KBucket.Refresh.{gen_random_key, gen_rand_peer_id, big_endian16}
use dep2p.KBucket.Refresh.Keys
use dep2p.KBucket.Refresh.Words
use dep2p.Base.{length, min, map, none, ◌++◌, List}
use dep2p.Base.Sorting.{IsSorted, AllBefore}
use dep2p.KBucket.Table.{size, get_peer_infos}
use dep2p.KBucket.Nearest.{nearest_peers, less_peer}
use dep2p.KBucket.Nearest.Laws
use dep2p.KBucket.Nearest.Nearest
use dep2p.KBucket.Nearest.Near.{nearer}
use mathlib.Core.List.{Perm}
use dep2p.Base.{ℕ, ◌+◌, ◌-◌, ◌≡◌, refl, true, [], ◌∷◌, some, arith, ltb}
use dep2p.Keyspace.{
  PeerId, convert_peer_id, common_prefix_len, zero_prefix_len, zero_prefix_from, leading_zeros8,
}
use dep2p.KBucket.Bucket.{get_peer}
use dep2p.Keyspace.Tests.{toy, toy-IsDigest}
use dep2p.KBucket.Bucket.{PeerInfo}
use dep2p.KBucket.Table.{Diversity, AddResult, new_routing_table}
use dep2p.KBucket.Change.{Table, add_peer, remove_peer, new_info}
use dep2p.KBucket.Invariant.{IsValid}
use dep2p.KBucket.Invariant.Methods
use dep2p.KBucket.Invariant.Adding

-- A filter with a budget of peers.
abbrev pub budget : Diversity
budget = record { State = ℕ; try_add = λ s p. (ltb 0 s, s - 1); remove = λ s p. s + 1 }

abbrev info : PeerId → PeerInfo
info p = new_info toy 7 p 1 true true

abbrev empty_table : Table toy budget
empty_table = new_routing_table ℕ 2 (toy.sum256 0) 10 60 (some 3)

-- A full bucket, with a peer of prefix 0 and one of prefix 1.
abbrev pub full_table : Table toy budget
full_table = record {
  local = toy.sum256 0;
  max_latency = 10;
  buckets = (info 0x80 ∷ info 0x40 ∷ []) ∷ [];
  bucketsize = 2;
  cpl_refreshed_at = λ cpl. 0;
  notified = [];
  usefulness_grace_period = 60;
  df = some 1;
}

pub full_table-IsValid : IsValid toy full_table
unfolding new_info convert_peer_id get_peer common_prefix_len zero_prefix_len zero_prefix_from
    leading_zeros8
full_table-IsValid = record {
  digest = toy-IsDigest 0;
  placed = ((refl, omega arith), ((refl, omega arith), tt));
  sized = (omega arith, tt);
  distinct = ((refl, (refl, tt)), tt);
}

-- The last bucket is full, and is split.
add_peer-IsValid_example :
    (r : AddResult × Table toy budget) × (add_peer toy budget 9 (λ p. 5) 0x20 1 true true full_table
      ≡ some r)
    × IsValid toy r.1
add_peer-IsValid_example =
    Adding.add_peer-IsValid toy budget 9 (λ p. 5) 0x20 1 true true full_table full_table-IsValid
      (omega arith)

remove_peer-IsValid_example : IsValid toy (remove_peer toy budget 0x80 full_table).1
remove_peer-IsValid_example =
    Methods.remove_peer-IsValid toy budget 0x80 full_table full_table-IsValid

nearest_first : nearest_peers toy (toy.sum256 0x60) 1 none full_table ≡ 0x40 ∷ []
unfolding nearest_peers dep2p.Base.Sorting.sort common_prefix_len dep2p.Keyspace.zip_xor less_peer
    dep2p.Keyspace.id_less new_info convert_peer_id
nearest_first = refl

nearest_peers-mode_example : nearest_peers toy (toy.sum256 0x60) 5 (some 1) full_table ≡ []
nearest_peers-mode_example =
    Laws.nearest_peers-mode toy (toy.sum256 0x60) 5 full_table 1 (omega arith)

nearest_peers-nearest_example :
    let id = toy.sum256 0x60 in
    (near : List PeerInfo) × (far : List PeerInfo) × Perm (near ++ far) (get_peer_infos full_table)
    × (nearest_peers toy id 1 none full_table ≡ map (λ q. q.id) near)
    × (length near ≡ min 1 (size full_table))
    × IsSorted (nearer toy id) near
    × AllBefore (nearer toy id) near far
nearest_peers-nearest_example =
    Nearest.nearest_peers-nearest toy (toy.sum256 0x60) 1 full_table (toy-IsDigest 0x60)
      full_table-IsValid

gen_random_key-prefix_example :
    (k : Bytes) × (gen_random_key 1 (0xab ∷ replicate 31 0) full_table ≡ some k)
    × (length k ≡ 32)
    × (common_prefix_len toy k full_table.local ≡ 1)
gen_random_key-prefix_example =
    Keys.gen_random_key-prefix toy 1 (0xab ∷ replicate 31 0) full_table (toy-IsDigest 0).bytes refl
      (omega arith)

-- A digest that begins with the number's two low bytes.
abbrev wide : Primitives
wide = record {
  xor_bytes = zip_xor;
  sum256 = λ s. s / 256 % 256 ∷ s % 256 ∷ replicate 30 0;
  xor_bytes-eq-zip = λ a b e. refl;
  length-sum256 = λ s. refl;
  sum256-IsBytes = λ s. (omega arith, (omega arith, zeros 30));
}

wide_listed : (w : ℕ) → w < 65536 → big_endian16 (convert_peer_id wide w) ≡ w
unfolding big_endian16 convert_peer_id
wide_listed w lt = omega arith

gen_rand_peer_id-prefix_example :
    (p : PeerId) × (gen_rand_peer_id (λ w. w) (λ k. k) 9 0xabcd full_table ≡ some p)
    × (common_prefix_len wide (convert_peer_id wide p) full_table.local ≡ 9)
gen_rand_peer_id-prefix_example =
    Words.gen_rand_peer_id-prefix wide (λ w. w) (λ k. k) 9 0xabcd full_table wide_listed
      (toy-IsDigest 0) (omega arith) (omega arith)
