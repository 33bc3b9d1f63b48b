-- ===== src/KBucket/Table.antt =====
-- kbucket/table.go: the routing table, its lookups by prefix, and its changes. The locks are not
-- modelled: each method is one step. `context` and the cancel function carry no state.
use dep2p.Base.{
  ℕ, ◌-◌, Bool, true, false, List, [], ◌∷◌, ◌++◌, map, Option, none, some, length, get_or, ltb, leb,
  ◌==◌, if◌then◌else◌,
}
use dep2p.Keyspace.{PeerId, Bytes, Primitives, common_prefix_len, convert_peer_id}
use dep2p.KBucket.Bucket
use dep2p.KBucket.Buckets.{
  modify, slot, concat_peers, total_size, concat_ids, any_replaceable, count_prefix,
  max_common_prefix_from, any_other_prefix,
}
use dep2p.KBucket.Bucket.{
  Bucket, PeerInfo, new_bucket, get_peer, update_peer, push_front, len, split, min,
}

-- What the table asks of the diversity filter: `peerdiversity.Filter` behind its two calls.
pub record Diversity : Type 1 where
  pub State : Type 0
  pub try_add : State → PeerId → Bool × State
  pub remove : State → PeerId → State

-- A call of `PeerAdded` or `PeerRemoved`.
pub data Notice : Type 0 where
  peer_added peer_removed : PeerId → Notice

pub record RoutingTable (S : Type 0) : Type 0 where
  pub local : Bytes
  pub max_latency : ℕ
  pub buckets : List Bucket
  pub bucketsize : ℕ
  -- A missing entry of the map reads as the zero time.
  pub cpl_refreshed_at : ℕ → ℕ
  pub notified : List Notice
  pub usefulness_grace_period : ℕ
  pub df : Option S

-- The result of `addPeer`: `added` is (true, nil), `present` is (false, nil), the others are
-- (false, err).
pub data AddResult : Type 0 where
  added present high_latency not_diverse no_capacity : AddResult

module _ (S : Type 0) where
  unfoldable pub new_routing_table : ℕ → Bytes → ℕ → ℕ → Option S → RoutingTable S
  unfolding new_bucket
  new_routing_table bucketsize local_id latency usefulness_grace_period df = record {
    local = local_id;
    max_latency = latency;
    buckets = new_bucket ∷ [];
    bucketsize = bucketsize;
    cpl_refreshed_at = λ cpl. 0;
    notified = [];
    usefulness_grace_period = usefulness_grace_period;
    df = df;
  }

module _ {S : Type 0} where
  -- `rt.buckets[i]`.
  unfoldable pub bucket_at : RoutingTable S → ℕ → Bucket
  bucket_at t i = get_or t.buckets i []

  -- A change of `rt.buckets[i]` in place.
  unfoldable pub change_bucket : ℕ → (Bucket → Bucket) → RoutingTable S → RoutingTable S
  unfolding modify
  change_bucket i f t = record t { buckets = modify i f t.buckets }

  unfoldable pub notify : Notice → RoutingTable S → RoutingTable S
  notify n t = record t { notified = t.notified ++ (n ∷ []) }

  unfoldable pub mark_all_peers_irreplaceable : RoutingTable S → RoutingTable S
  unfolding Bucket.update_all_with
  mark_all_peers_irreplaceable t = record t {
    buckets = map (Bucket.update_all_with (λ p. record p { replaceable = false })) t.buckets;
  }

  unfoldable pub get_peer_infos : RoutingTable S → List PeerInfo
  unfolding concat_peers
  get_peer_infos t = concat_peers t.buckets

  unfoldable pub size : RoutingTable S → ℕ
  unfolding total_size
  size t = total_size t.buckets

  unfoldable pub list_peers : RoutingTable S → List PeerId
  unfolding concat_ids
  list_peers t = concat_ids t.buckets

module _ (P : Primitives) {S : Type 0} where
  unfoldable pub bucket_id_for_peer : RoutingTable S → PeerId → ℕ
  unfolding slot
  bucket_id_for_peer t p =
      slot (length t.buckets) (common_prefix_len P (convert_peer_id P p) t.local)

  unfoldable pub n_peers_for_cpl : RoutingTable S → ℕ → ℕ
  unfolding count_prefix bucket_at
  n_peers_for_cpl t cpl =
      if leb (length t.buckets - 1) cpl
      then count_prefix P t.local cpl (bucket_at t (length t.buckets - 1))
      else len (bucket_at t cpl)

  unfoldable pub max_common_prefix : RoutingTable S → ℕ
  unfolding max_common_prefix_from
  max_common_prefix t = elim (max_common_prefix_from P t.local t.buckets) [
    | some cpl ↦ cpl
    | none ↦ 0
  ]

  unfoldable pub update_last_successful_outbound_query_at :
      RoutingTable S → PeerId → ℕ → Bool × RoutingTable S
  unfolding change_bucket bucket_at
  update_last_successful_outbound_query_at t p time =
      let i = bucket_id_for_peer t p in
      elim (get_peer (bucket_at t i) p) [
        | none ↦ (false, t)
        | some _ ↦ (
          true,
          change_bucket i
              (update_peer (λ q. record q { last_successful_outbound_query_at = time }) p) t,
        )
      ]

  unfoldable pub update_last_useful_at : RoutingTable S → PeerId → ℕ → Bool × RoutingTable S
  unfolding change_bucket bucket_at
  update_last_useful_at t p time =
      let i = bucket_id_for_peer t p in
      elim (get_peer (bucket_at t i) p) [
        | none ↦ (false, t)
        | some _ ↦
            (true, change_bucket i (update_peer (λ q. record q { last_useful_at = time }) p) t)
      ]

  unfoldable pub useful_new_peer : RoutingTable S → PeerId → Bool
  unfolding bucket_at any_replaceable any_other_prefix
  useful_new_peer t p =
      let bucket_id = bucket_id_for_peer t p in
      let bucket = bucket_at t bucket_id in
      elim (get_peer bucket p) [
        | some _ ↦ false
        | none ↦
            if ltb (len bucket) t.bucketsize
            then true
            else if any_replaceable bucket
            then true
            else if bucket_id == length t.buckets - 1
            then any_other_prefix P t.local (common_prefix_len P t.local (convert_peer_id P p))
                bucket
            else false
      ]
