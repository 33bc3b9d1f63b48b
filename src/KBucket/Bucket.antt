-- ===== src/KBucket/Bucket.antt =====
-- kbucket/bucket.go: a bucket is the list of its peers, the front of the linked list first.
-- Pointers into the list are not modelled: a change through one is a change of the list.
pub mod Laws
use dep2p.Base.{
  ℕ, zero, suc, ◌+◌, ◌-◌, ◌≡◌, Bool, true, false, List, [], ◌∷◌, map, Option, none, some, length,
  ltb, ◌==◌, if◌then◌else◌,
}
use dep2p.Keyspace.{PeerId, Bytes, Primitives, common_prefix_len}

-- A time is a number of nanoseconds, 0 for the zero time. The mode is the peer's running mode.
pub record PeerInfo : Type 0 where
  pub id : PeerId
  pub mode : ℕ
  pub last_useful_at : ℕ
  pub last_successful_outbound_query_at : ℕ
  pub added_at : ℕ
  pub dht_id : Bytes
  pub replaceable : Bool

abbrev pub Bucket : Type 0
Bucket = List PeerInfo

unfoldable pub new_bucket : Bucket
new_bucket = []

unfoldable pub peers : Bucket → List PeerInfo
peers [] = []
peers (p ∷ b) = p ∷ peers b

-- The loop of `min` over the rest of the list, with the least value so far.
unfoldable pub min_from : (PeerInfo → PeerInfo → Bool) → PeerInfo → Bucket → PeerInfo
min_from less_than least [] = least
min_from less_than least (p ∷ b) = min_from less_than (if less_than p least then p else least) b

unfoldable pub min : (PeerInfo → PeerInfo → Bool) → Bucket → Option PeerInfo
unfolding min_from
min less_than [] = none
min less_than (p ∷ b) = some (min_from less_than p b)

unfoldable pub update_all_with : (PeerInfo → PeerInfo) → Bucket → Bucket
update_all_with update_fnc [] = []
update_all_with update_fnc (p ∷ b) = update_fnc p ∷ update_all_with update_fnc b

unfoldable pub peer_ids : Bucket → List PeerId
peer_ids [] = []
peer_ids (p ∷ b) = p.id ∷ peer_ids b

unfoldable pub get_peer : Bucket → PeerId → Option PeerInfo
get_peer [] p = none
get_peer (q ∷ b) p = if q.id == p then some q else get_peer b p

-- A change through the pointer that `getPeer` returns.
unfoldable pub update_peer : (PeerInfo → PeerInfo) → PeerId → Bucket → Bucket
update_peer f p [] = []
update_peer f p (q ∷ b) = if q.id == p then f q ∷ b else q ∷ update_peer f p b

-- The bucket without the first peer of this identity, and whether there was one.
unfoldable pub remove : PeerId → Bucket → Bool × Bucket
remove p [] = (false, [])
remove p (q ∷ b) =
    let (found, rest) = remove p b in if q.id == p then (true, b) else (found, q ∷ rest)

unfoldable pub push_front : PeerInfo → Bucket → Bucket
push_front p b = p ∷ b

abbrev pub len : Bucket → ℕ
len b = length b

module _ (P : Primitives) where
  -- The bucket that keeps its place, and the new one, for the peers with a longer prefix.
  unfoldable pub split : ℕ → Bytes → Bucket → Bucket × Bucket
  split cpl target [] = ([], [])
  split cpl target (q ∷ b) =
      let (kept, moved) = split cpl target b in
      if ltb cpl (common_prefix_len P q.dht_id target) then (kept, q ∷ moved) else (q ∷ kept, moved)

  unfoldable pub max_prefix_from : ℕ → Bytes → Bucket → ℕ
  max_prefix_from max_cpl target [] = max_cpl
  max_prefix_from max_cpl target (q ∷ b) =
      let cpl = common_prefix_len P q.dht_id target in
      max_prefix_from (if ltb max_cpl cpl then cpl else max_cpl) target b

  unfoldable pub max_common_prefix : Bytes → Bucket → ℕ
  unfolding max_prefix_from
  max_common_prefix target b = max_prefix_from 0 target b
