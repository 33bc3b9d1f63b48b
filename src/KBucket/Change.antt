-- ===== src/KBucket/Change.antt =====
-- kbucket/table.go: the methods that change the table's shape.
use dep2p.Base.{
  ℕ, zero, suc, ◌-◌, Bool, true, false, ◌&&◌, Option, none, some, length, ltb, leb, ◌==◌,
  if◌then◌else◌,
}
use dep2p.Keyspace.{PeerId, Primitives, convert_peer_id}
use dep2p.KBucket.Bucket
use dep2p.KBucket.Bucket.{Bucket, PeerInfo, new_bucket, get_peer, update_peer, push_front, len}
use dep2p.KBucket.Buckets.{trim, split_last}
use dep2p.KBucket.Table.{
  Diversity, peer_added, peer_removed, RoutingTable, AddResult, added, present, high_latency,
  not_diverse, no_capacity, bucket_at, change_bucket, notify, bucket_id_for_peer,
}

-- A table has at most 256 buckets that a split can fill, one for each prefix of a 32-byte key, so
-- that this many rounds are enough (`next_bucket_ends`).
unfoldable pub split_fuel : ℕ
split_fuel = 258

module _ (P : Primitives) {S : Type 0} where
  -- none if the fuel runs out: with buckets of size 0 the recursion of the code never ends.
  unfoldable pub next_bucket : ℕ → RoutingTable S → Option (RoutingTable S)
  unfolding split_last bucket_at
  next_bucket zero t = none
  next_bucket (suc fuel) t =
      let t' = record t { buckets = split_last P t.local 0 t.buckets } in
      let rest = next_bucket fuel t' in
      if leb t.bucketsize (len (bucket_at t' (length t'.buckets - 1))) then rest else some t'

module _ (P : Primitives) where
  -- The `PeerInfo` literal of `addPeer`.
  unfoldable pub new_info :
      (now : ℕ) (p : PeerId) (mode : ℕ) (query_peer is_replaceable : Bool) → PeerInfo
  new_info now p mode query_peer is_replaceable = record {
    id = p;
    mode = mode;
    last_useful_at = if query_peer then now else 0;
    last_successful_outbound_query_at = now;
    added_at = now;
    dht_id = convert_peer_id P p;
    replaceable = is_replaceable;
  }

module _ (P : Primitives) (D : Diversity) where
  open D use {State, try_add}

  abbrev pub Table : Type 0
  Table = RoutingTable State

  -- `rt.df.Remove(p)` where there is a filter.
  unfoldable pub forget : PeerId → Option State → Option State
  forget p none = none
  forget p (some s) = some (D.remove s p)

  -- `rt.df.TryAdd(p)` where there is a filter.
  unfoldable pub admit : PeerId → Option State → Bool × Option State
  admit p none = (true, none)
  admit p (some s) = let (allowed, s') = try_add s p in (allowed, some s')

  unfoldable pub remove_peer : PeerId → Table → Bool × Table
  unfolding forget bucket_at change_bucket bucket_id_for_peer notify
  remove_peer p t =
      let i = bucket_id_for_peer P t p in
      let (found, rest) = Bucket.remove p (bucket_at t i) in
      if found
      then (
        true,
        notify (peer_removed p) (record t {
          buckets = trim (length t.buckets) (change_bucket i (λ _. rest) t).buckets;
          df = forget p t.df;
        }),
      )
      else (false, t)

  -- `bucket.pushFront` and `rt.PeerAdded`.
  unfoldable pub push : ℕ → PeerInfo → Table → Table
  unfolding change_bucket notify
  push i q t = notify (peer_added q.id) (change_bucket i (push_front q) t)

  -- The end of `addPeer`, where the peer's bucket is full.
  unfoldable pub replace_peer : PeerInfo → Table → AddResult × Table
  unfolding push remove_peer forget bucket_at
  replace_peer q t =
      let i = bucket_id_for_peer P t q.id in
      let reject : AddResult × Table = (no_capacity, record t { df = forget q.id t.df }) in
      elim (Bucket.min (λ p1 p2. p1.replaceable) (bucket_at t i)) [
        | none ↦ reject
        | some r ↦ if r.replaceable then (added, (remove_peer r.id (push i q t)).1) else reject
      ]

  -- The middle of `addPeer`, for a peer that passed the filters.
  unfoldable pub place_peer : PeerInfo → Table → Option (AddResult × Table)
  unfolding replace_peer split_fuel
  place_peer q t =
      let i = bucket_id_for_peer P t q.id in
      if ltb (len (bucket_at t i)) t.bucketsize
      then some (added, push i q t)
      else if i == length t.buckets - 1
      then elim (next_bucket P split_fuel t) [
        | none ↦ none
        | some t' ↦
            let i' = bucket_id_for_peer P t' q.id in
            if ltb (len (bucket_at t' i')) t'.bucketsize
            then some (added, push i' q t')
            else some (replace_peer q t')
      ]
      else some (replace_peer q t)

  -- `TryAddPeer`. The clock and the latency metric are arguments.
  unfoldable pub add_peer :
      (now : ℕ) (latency : PeerId → ℕ) (p : PeerId) (mode : ℕ) (query_peer is_replaceable : Bool)
      → Table
      → Option (AddResult × Table)
  unfolding place_peer admit new_info
  add_peer now latency p mode query_peer is_replaceable t =
      let i = bucket_id_for_peer P t p in
      let useful : ℕ = if query_peer then now else 0 in
      elim (get_peer (bucket_at t i) p) [
        | some q ↦
            if q.last_useful_at == 0 && query_peer
            then some (
              present,
              change_bucket i (update_peer (λ q'. record q' { last_useful_at = useful }) p) t,
            )
            else some (present, t)
        | none ↦
            if ltb t.max_latency (latency p)
            then some (high_latency, t)
            else let (allowed, df') = admit p t.df in
              if allowed
              then place_peer (new_info P now p mode query_peer is_replaceable)
                  (record t { df = df' })
              else some (not_diverse, record t { df = df' })
      ]
