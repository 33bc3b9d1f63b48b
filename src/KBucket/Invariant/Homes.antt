-- ===== src/KBucket/Invariant/Homes.antt =====
-- All peers of a bucket have that bucket as theirs.
use dep2p.Base.{ℕ, suc, ◌≤◌, ◌≡◌, arith, length}
use dep2p.Base.Predicates.{All, All-imp}
use dep2p.Keyspace.{PeerId, Primitives, common_prefix_len, convert_peer_id}
use dep2p.KBucket.Bucket.{PeerInfo}
use dep2p.KBucket.Buckets.{slot}
use dep2p.KBucket.Table.{RoutingTable, bucket_at, bucket_id_for_peer}
use dep2p.KBucket.Invariant.{IsAt, IsFrom, IsValid}
use dep2p.KBucket.Invariant.Placement.{slot-Placed}
use dep2p.KBucket.Invariant.Changes.{home, cpl_of}

slot_same : (n a b : ℕ) → suc a ≡ n → a ≤ b → slot n b ≡ a
unfolding slot
slot_same n a b e h = ground arith

module _ (P : Primitives) {S : Type 0} (t : RoutingTable S) (p : PeerId) (v : IsValid P t) where
  -- The index of every peer of the bucket is the bucket's.
  pub home-same : All (λ r. bucket_id_for_peer P t r.id ≡ bucket_id_for_peer P t p) (home P t p)
  unfolding bucket_id_for_peer bucket_at
  home-same =
      slot-Placed P t.local (All Same) (cpl_of P t p) 0 (cpl_of P t p) t.buckets (omega arith)
        (λ b h. All-imp (IsAt P t.local (cpl_of P t p)) Same (λ r k. exact r k) b h)
        (λ j b le last h.
          All-imp (IsFrom P t.local j) Same (λ r k. longer j r le (omega arith) k) b h)
        v.placed
    where
      Same : PeerInfo → Type 0
      Same r =
          slot (length t.buckets) (common_prefix_len P (convert_peer_id P r.id) t.local)
          ≡ slot (length t.buckets) (cpl_of P t p)

      exact : (r : PeerInfo) → IsAt P t.local (cpl_of P t p) r → Same r
      exact r k = rw (← k.0, k.1)

      longer :
          (j : ℕ) (r : PeerInfo)
          → j ≤ cpl_of P t p
          → suc j ≡ length t.buckets
          → IsFrom P t.local j r
          → Same r
      longer j r le last k = rw (slot_same _ j _ last le, ← k.0, slot_same _ j _ last k.1)

  -- Every peer of the bucket carries the digest of its identity.
  pub home-digest : All (λ r. r.dht_id ≡ convert_peer_id P r.id) (home P t p)
  unfolding bucket_id_for_peer bucket_at
  home-digest =
      slot-Placed P t.local (All (λ r. r.dht_id ≡ convert_peer_id P r.id)) (cpl_of P t p) 0
        (cpl_of P t p) t.buckets (omega arith)
        (λ b h. All-imp (IsAt P t.local (cpl_of P t p)) _ (λ r k. k.0) b h)
        (λ j b le last h. All-imp (IsFrom P t.local j) _ (λ r k. k.0) b h) v.placed
