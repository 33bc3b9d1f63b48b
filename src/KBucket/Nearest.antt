-- ===== src/KBucket/Nearest.antt =====
-- kbucket/sorting.go, and the lookups of kbucket/table.go that sort by distance.
pub mod Laws
pub mod Sorted
pub mod Near
pub mod Places
pub mod Chosen
pub mod Nearest
use dep2p.Base.{
  ℕ, zero, suc, ◌+◌, ◌≡◌, Bool, true, false, List, [], ◌∷◌, ◌++◌, map, Option, none, some, length,
  get_or, take, drop, ltb, leb, ◌==◌, if◌then◌else◌,
}
use dep2p.Base.Sorting
use dep2p.Keyspace.{PeerId, Bytes, Primitives, common_prefix_len, convert_peer_id, id_less}
use dep2p.KBucket.Bucket.{PeerInfo, Bucket}
use dep2p.KBucket.Buckets.{slot}
use dep2p.KBucket.Table.{RoutingTable, bucket_at}

pub record PeerDistance : Type 0 where
  pub p : PeerId
  pub mode : ℕ
  pub distance : Bytes

-- The loop at the end of `NearestPeers`; none is a call without a mode.
unfoldable pub out_of : Option ℕ → List PeerDistance → List PeerId
out_of mode [] = []
out_of none (d ∷ ds) = d.p ∷ out_of none ds
out_of (some m) (d ∷ ds) = let rest = out_of (some m) ds in if d.mode == m then d.p ∷ rest else rest

module _ (P : Primitives) where
  open P use {xor_bytes}

  -- `peerDistanceSorter.Less`.
  unfoldable pub less_peer : PeerDistance → PeerDistance → Bool
  less_peer a b = id_less P a.distance b.distance

  -- The literal sets no mode, so that it is 0.
  unfoldable pub append_peer : Bytes → PeerId → Bytes → List PeerDistance → List PeerDistance
  append_peer target p dht_id pds =
      pds ++ (record { p = p; mode = 0; distance = xor_bytes target dht_id } ∷ [])

  unfoldable pub append_peers_from_list : Bytes → Bucket → List PeerDistance → List PeerDistance
  unfolding append_peer
  append_peers_from_list target [] pds = pds
  append_peers_from_list target (q ∷ b) pds =
      append_peers_from_list target b (append_peer target q.id q.dht_id pds)

  -- The buckets to the right.
  unfoldable pub append_right : Bytes → List Bucket → List PeerDistance → List PeerDistance
  unfolding append_peers_from_list
  append_right target [] pds = pds
  append_right target (b ∷ bs) pds = append_right target bs (append_peers_from_list target b pds)

  -- The loop over the buckets to the left, from the one before this index on.
  unfoldable pub append_left : Bytes → ℕ → List Bucket → ℕ → List PeerDistance → List PeerDistance
  unfolding append_peers_from_list
  append_left target count bs zero pds = pds
  append_left target count bs (suc i) pds =
      let rest =
        append_left target count bs i (append_peers_from_list target (get_or bs i []) pds) in
      if ltb (length pds) count then rest else pds

  unfoldable pub append_ids : Bytes → List PeerId → List PeerDistance → List PeerDistance
  unfolding append_peer
  append_ids target [] pds = pds
  append_ids target (p ∷ ps) pds =
      append_ids target ps (append_peer target p (convert_peer_id P p) pds)

  unfoldable pub sort_closest_peers : List PeerId → Bytes → List PeerId
  unfolding append_ids out_of
  sort_closest_peers peers target =
      out_of none (Sorting.sort less_peer (append_ids target peers []))

module _ (P : Primitives) {S : Type 0} where
  -- What `NearestPeers` collects from the buckets before it sorts.
  unfoldable pub collected : Bytes → ℕ → RoutingTable S → List PeerDistance
  unfolding append_right append_left slot
  collected id count t =
      let cpl = slot (length t.buckets) (common_prefix_len P id t.local) in
      let own = append_peers_from_list P id (get_or t.buckets cpl []) [] in
      let more = append_right P id (drop (cpl + 1) t.buckets) own in
      append_left P id count t.buckets cpl (if ltb (length own) count then more else own)

  unfoldable pub nearest_peers : Bytes → ℕ → Option ℕ → RoutingTable S → List PeerId
  unfolding collected out_of
  nearest_peers id count mode t =
      let sorted = Sorting.sort (less_peer P) (collected id count t) in
      out_of mode (if ltb count (length sorted) then take count sorted else sorted)

  -- 0 is the empty identity.
  unfoldable pub nearest_peer : Bytes → RoutingTable S → PeerId
  unfolding nearest_peers
  nearest_peer id t = elim (nearest_peers id 1 none t) [ [] ↦ 0 | p ∷ ps ↦ p ]

  unfoldable pub find_peer : PeerId → RoutingTable S → PeerId
  unfolding nearest_peers
  find_peer id t = elim (nearest_peers (convert_peer_id P id) 1 none t) [
    | [] ↦ 0
    | p ∷ ps ↦ if p == id then p else 0
  ]
