-- ===== src/KBucket/Invariant/Times.antt =====
-- The methods that change the times of a known peer keep the invariant.
use dep2p.Base.{ℕ, ◌≡◌, refl, inl, inr, arith, Option-cases}
use dep2p.Keyspace.{PeerId, Primitives}
use dep2p.KBucket.Bucket.{PeerInfo, get_peer, update_peer}
use dep2p.KBucket.Bucket.Laws.{update_peer-All, length-update_peer, update_peer-Distinct}
use dep2p.KBucket.Table.{
  RoutingTable, bucket_id_for_peer, change_bucket, update_last_useful_at,
  update_last_successful_outbound_query_at,
}
use dep2p.KBucket.Invariant.{IsAt, IsFrom, IsValid}
use dep2p.KBucket.Invariant.Changes.{cpl_of, home, home-Sized, home-Distinct, change_bucket-IsValid}

module _ (P : Primitives) {S : Type 0} (t : RoutingTable S) (p : PeerId) (time : ℕ)
    (v : IsValid P t) where
  touch-IsValid :
      (f : PeerInfo → PeerInfo)
      → ((q : PeerInfo) → (f q).id ≡ q.id)
      → ((q : PeerInfo) → (f q).dht_id ≡ q.dht_id)
      → IsValid P (change_bucket (bucket_id_for_peer P t p) (update_peer f p) t)
  touch-IsValid f ids keys =
      change_bucket-IsValid P t p v (update_peer f p)
        (λ b. update_peer-All (IsAt P t.local (cpl_of P t p)) f p b (λ q h. rw (ids q, keys q) h))
        (λ j b le. update_peer-All (IsFrom P t.local j) f p b (λ q h. rw (ids q, keys q) h))
        (omega (arith, home-Sized P t p v, length-update_peer f ids p (home P t p)))
        (update_peer-Distinct f ids p (home P t p) (home-Distinct P t p v))

  -- `UpdateLastUsefulAt` keeps a valid table valid, whether or not it has the peer.
  pub update_last_useful_at-IsValid : IsValid P (update_last_useful_at P t p time).1
  unfolding update_last_useful_at
  update_last_useful_at-IsValid = elim (Option-cases (get_peer (home P t p) p)) [
    | inl e ↦ rw (e, update_last_useful_at) v
    | inr (q, e) ↦
        rw (e, update_last_useful_at)
          (touch-IsValid (λ q. record q { last_useful_at = time }) (λ q. refl) (λ q. refl))
  ]

  -- `UpdateLastSuccessfulOutboundQueryAt` keeps a valid table valid, whether or not it has the peer.
  pub update_last_successful-IsValid :
      IsValid P (update_last_successful_outbound_query_at P t p time).1
  unfolding update_last_successful_outbound_query_at
  update_last_successful-IsValid = elim (Option-cases (get_peer (home P t p) p)) [
    | inl e ↦ rw (e, update_last_successful_outbound_query_at) v
    | inr (q, e) ↦
        rw (e, update_last_successful_outbound_query_at)
          (touch-IsValid (λ q. record q { last_successful_outbound_query_at = time }) (λ q. refl)
            (λ q. refl))
  ]
