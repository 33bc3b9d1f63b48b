-- ===== src/KBucket/Invariant.antt =====
-- What holds of a routing table between calls.
pub mod Placement
pub mod Trimming
pub mod Changes
pub mod Homes
pub mod Methods
pub mod Replacement
pub mod Splitting
pub mod Absence
pub mod Adding
pub mod Times
pub mod Removal
pub mod Others
pub mod Filtering
pub mod Marking
pub mod Capacity
use dep2p.Base.{ℕ, zero, suc, ◌+◌, ◌≤◌, ◌≡◌, List, [], ◌∷◌, length, arith}
use dep2p.Base.Predicates.{All}
use dep2p.Keyspace.{PeerId, Bytes, Primitives, common_prefix_len, convert_peer_id}
use dep2p.Keyspace.Distance.{IsDigest}
use dep2p.KBucket.Bucket.{PeerInfo, Bucket, len}
use dep2p.KBucket.Bucket.Laws.{Distinct}
use dep2p.KBucket.Table.{RoutingTable}

module _ (P : Primitives) (local : Bytes) where
  -- The prefix that the peer shares with the local key.
  abbrev pub prefix : PeerInfo → ℕ
  prefix q = common_prefix_len P q.dht_id local

  -- The peer's key is the digest of its identity, and shares exactly i bits.
  abbrev pub IsAt : ℕ → PeerInfo → Type 0
  IsAt i q = (q.dht_id ≡ convert_peer_id P q.id) × (prefix q ≡ i)

  -- The same with i bits at least.
  abbrev pub IsFrom : ℕ → PeerInfo → Type 0
  IsFrom i q = (q.dht_id ≡ convert_peer_id P q.id) × (i ≤ prefix q)

  -- The buckets from index i on: each holds the peers of its prefix length, and the last one those
  -- of its length or longer. There is a bucket.
  abbrev pub Placed : ℕ → List Bucket → Type 0
  Placed i [] = ⊥
  Placed i (b ∷ []) = All (IsFrom i) b
  Placed i (b ∷ c ∷ bs) = All (IsAt i) b × Placed (suc i) (c ∷ bs)

abbrev pub Sized : ℕ → List Bucket → Type 0
Sized n = All (λ b. len b ≤ n)

abbrev pub AllDistinct : List Bucket → Type 0
AllDistinct = All Distinct

pub record IsValid (P : Primitives) {S : Type 0} (t : RoutingTable S) : Type 0 where
  pub digest : IsDigest t.local
  pub placed : Placed P t.local 0 t.buckets
  pub sized : Sized t.bucketsize t.buckets
  pub distinct : AllDistinct t.buckets
