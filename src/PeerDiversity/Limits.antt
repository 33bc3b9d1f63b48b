-- ===== src/PeerDiversity/Limits.antt =====
-- The filter as the one of the routing table: `makeRoutingTable` of dht.go.
use dep2p.Base.{ℕ, ◌<◌, ◌≡◌, Bool, some}
use dep2p.Keyspace.{PeerId, Bytes, Primitives, common_prefix_len, convert_peer_id}
use dep2p.KBucket.Table.{Diversity, AddResult}
use dep2p.KBucket.Change.{Table, add_peer}
use dep2p.KBucket.Invariant.{IsValid}
use dep2p.KBucket.Invariant.Filtering
use dep2p.KBucket.Invariant.Filtering.{IsKept, OfFilter}
use dep2p.PeerDiversity.{Addresses, PeerIpGroupFilter, Filter, try_add, remove}
use dep2p.PeerDiversity.Consistency.{IsConsistent}
use dep2p.PeerDiversity.Removal.{remove-IsConsistent}
use dep2p.PeerDiversity.Runs.{try_add-IsConsistent}

module _ (P : Primitives) (A : Addresses) (G : PeerIpGroupFilter A) (self_key : Bytes) where
  -- The function that the filter is made with.
  unfoldable pub cpl_fnc : PeerId → ℕ
  cpl_fnc p = common_prefix_len P self_key (convert_peer_id P p)

  abbrev pub filter_diversity : Diversity
  filter_diversity = record {
    State = Filter G.State;
    try_add = λ f p. try_add A G cpl_fnc p f;
    remove = λ f p. remove A G cpl_fnc p f;
  }

  abbrev pub Consistent : Filter G.State → Type 0
  Consistent = IsConsistent A G cpl_fnc

  pub consistent-IsKept : IsKept filter_diversity Consistent
  consistent-IsKept = record {
    by_add = λ f p v. try_add-IsConsistent A G cpl_fnc p f v;
    by_remove = λ f p v. remove-IsConsistent A G cpl_fnc p f v;
  }

  -- With this filter, addPeer on a valid table returns and leaves the filter's maps consistent,
  -- whichever way it went.
  pub add_peer-filtered :
      (now : ℕ) (latency : PeerId → ℕ) (p : PeerId) (mode : ℕ) (query_peer is_replaceable : Bool)
      (t : Table P filter_diversity)
      → IsValid P t
      → 0 < t.bucketsize
      → OfFilter P filter_diversity Consistent consistent-IsKept t.df
      → (r : AddResult × Table P filter_diversity) × (add_peer P filter_diversity now latency p mode
            query_peer is_replaceable t
          ≡ some r)
        × OfFilter P filter_diversity Consistent consistent-IsKept r.1.df
  add_peer-filtered = Filtering.add_peer-filter P filter_diversity Consistent consistent-IsKept
