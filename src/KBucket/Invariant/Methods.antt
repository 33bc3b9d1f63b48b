-- ===== src/KBucket/Invariant/Methods.antt =====
-- `removePeer` and `addPeer` keep the invariant.
use dep2p.Base.{
  ℕ, ◌<◌, ◌≡◌, refl, ap, ◌⊎◌, inl, inr, true, false, [], Option, none, some, arith, length,
  Option-cases,
}
use dep2p.Keyspace.{PeerId, Bytes, Primitives, convert_peer_id}
use dep2p.KBucket.Bucket
use dep2p.KBucket.Bucket.{PeerInfo, Bucket, len, split, get_peer, push_front, update_peer}
use dep2p.KBucket.Bucket.Laws.{
  remove-All, remove-Distinct, length-remove-le, remove_found, remove_missing,
}
use dep2p.KBucket.Buckets.{trim}
use dep2p.KBucket.Buckets.Laws.{modify_const}
use dep2p.Keyspace.{Bytes}
use dep2p.Keyspace.Distance.{IsDigest}
use dep2p.KBucket.Bucket.{new_bucket}
use dep2p.KBucket.Table.{
  new_routing_table, Diversity, RoutingTable, Notice, peer_added, peer_removed, bucket_at,
  bucket_id_for_peer, change_bucket, notify,
}
use dep2p.KBucket.Change.{Table, remove_peer, forget, push}
use dep2p.KBucket.Invariant.{IsValid}
use dep2p.KBucket.Invariant.Changes.{
  home, home-Distinct, shrink-IsValid, push_front-IsValid, trim-IsValid,
}

module _ (P : Primitives) {S : Type 0} where
  -- The invariant reads the buckets, their size, and the local key.
  pub notify-IsValid : (n : Notice) (t : RoutingTable S) → IsValid P t → IsValid P (notify n t)
  unfolding notify
  notify-IsValid n t v = record {
    digest = v.digest;
    placed = v.placed;
    sized = v.sized;
    distinct = v.distinct;
  }

  pub df-IsValid :
      (df : Option S) (t : RoutingTable S) → IsValid P t → IsValid P (record t { df = df })
  df-IsValid df t v = record {
    digest = v.digest;
    placed = v.placed;
    sized = v.sized;
    distinct = v.distinct;
  }

  pub change_const :
      (i : ℕ) (f : Bucket → Bucket) (t : RoutingTable S)
      → change_bucket i (λ _. f (bucket_at t i)) t ≡ change_bucket i f t
  unfolding change_bucket bucket_at
  change_const i f t = ap (λ bs. record t { buckets = bs }) (modify_const i f [] t.buckets)

module _ (P : Primitives) (D : Diversity) where
  open D use {State}

  -- What `removePeer` returns, with and without the peer.
  abbrev pub removed : PeerId → Table P D → Table P D
  removed p t =
      let c = change_bucket (bucket_id_for_peer P t p) (λ b. (Bucket.remove p b).1) t in
      notify (peer_removed p)
        (record c { buckets = trim (length t.buckets) c.buckets; df = forget P D p t.df })

  pub remove_peer_cases :
      (p : PeerId) (t : Table P D)
      → ((get_peer (home P t p) p ≡ none) × (remove_peer P D p t ≡ (false, t)))
        ⊎ ((q : PeerInfo) × (get_peer (home P t p) p ≡ some q)
            × (remove_peer P D p t ≡ (true, removed p t)))
  unfolding remove_peer
  remove_peer_cases p t = elim (Option-cases (get_peer (home P t p) p)) [
    | inl e ↦ inl (e, rw (remove_missing p (home P t p) e))
    | inr (q, e) ↦ inr (
      q,
      e,
      rw ((remove_found p (home P t p) q e).0) (
          ap
            (λ bs. (
              true,
              notify (peer_removed p)
                  (record t { buckets = trim (length t.buckets) bs; df = forget P D p t.df }),
            ))
            (modify_const (bucket_id_for_peer P t p) (λ b. (Bucket.remove p b).1) [] t.buckets)),
    )
  ]

  -- `removePeer` keeps a valid table valid, whether or not it has the peer, and also when it drops
  -- empty buckets.
  pub remove_peer-IsValid :
      (p : PeerId) (t : Table P D) → IsValid P t → IsValid P (remove_peer P D p t).1
  remove_peer-IsValid p t v = elim (remove_peer_cases p t) [
    | inl (_, e) ↦ rw e v
    | inr (q, found, e) ↦
        let c = change_bucket (bucket_id_for_peer P t p) (λ b. (Bucket.remove p b).1) t in
        let vc : IsValid P c =
          shrink-IsValid P t p v (λ b. (Bucket.remove p b).1) (λ Q b. remove-All Q p b)
            (length-remove-le p (home P t p))
            (remove-Distinct p (home P t p) (home-Distinct P t p v)) in
        rw e (
          notify-IsValid P (peer_removed p) _
            (df-IsValid P (forget P D p t.df) _ (trim-IsValid P c (length t.buckets) vc)))
  ]

  -- What `addPeer` knows of the new peer when it has passed the filters.
  pub record IsNew (q : PeerInfo) (t : Table P D) : Type 0 where
    pub digest : q.dht_id ≡ convert_peer_id P q.id
    pub absent : get_peer (home P t q.id) q.id ≡ none

  pub push-IsValid :
      (q : PeerInfo) (t : Table P D)
      → IsValid P t
      → IsNew q t
      → len (home P t q.id) < t.bucketsize
      → IsValid P (push P D (bucket_id_for_peer P t q.id) q t)
  unfolding push
  push-IsValid q t v new room =
      notify-IsValid P (peer_added q.id) _
        (push_front-IsValid P t q.id v q refl new.digest new.absent room)

module _ (P : Primitives) (S : Type 0) where
  -- A new table, for a local key of 32 bytes, keeps the invariant.
  pub new_routing_table-IsValid :
      (bucketsize : ℕ) (local : Bytes) (latency grace : ℕ) (df : Option S)
      → IsDigest local
      → IsValid P (new_routing_table S bucketsize local latency grace df)
  unfolding new_routing_table new_bucket
  new_routing_table-IsValid bucketsize local latency grace df d = record {
    digest = d;
    placed = tt;
    sized = (omega arith, tt);
    distinct = (tt, tt);
  }
