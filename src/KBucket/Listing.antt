-- ===== src/KBucket/Listing.antt =====
-- The listings of the routing table agree with each other.
use dep2p.Base.{◌≡◌, refl, ap, List, [], ◌∷◌, ◌++◌, map, arith, length, length-append}
use dep2p.KBucket.Bucket.{PeerInfo, Bucket, peers, peer_ids}
use dep2p.KBucket.Bucket.Laws.{peers-id}
use dep2p.KBucket.Buckets.{concat_peers, concat_ids, total_size}
use dep2p.KBucket.Table.{RoutingTable, get_peer_infos, list_peers, size}

length-concat_peers : (bs : List Bucket) → length (concat_peers bs) ≡ total_size bs
unfolding concat_peers total_size
length-concat_peers [] = refl
length-concat_peers (b ∷ bs) =
    let same = ap (λ (xs : List PeerInfo). length xs) (peers-id b) in
    omega (arith, length-append (peers b) (concat_peers bs), length-concat_peers bs, same)

ids_of : (b : Bucket) → peer_ids b ≡ map (λ q. q.id) (peers b)
unfolding peer_ids peers
ids_of [] = refl
ids_of (q ∷ b) = ap (◌∷◌ q.id) (ids_of b)

map_append :
    (xs ys : List PeerInfo) → map (λ q. q.id) (xs ++ ys) ≡ map (λ q. q.id) xs ++ map (λ q. q.id) ys
map_append [] ys = refl
map_append (x ∷ xs) ys = ap (◌∷◌ x.id) (map_append xs ys)

concat_ids-map : (bs : List Bucket) → concat_ids bs ≡ map (λ q. q.id) (concat_peers bs)
unfolding concat_ids concat_peers
concat_ids-map [] = refl
concat_ids-map (b ∷ bs) =
    rw (map_append (peers b) (concat_peers bs), ids_of b, concat_ids-map bs) refl

module _ {S : Type 0} (t : RoutingTable S) where
  -- `Size` is the number of the peers that `GetPeerInfos` lists, and `ListPeers` lists their
  -- identities in the same order.
  pub listings_agree :
      (length (get_peer_infos t) ≡ size t) × (list_peers t ≡ map (λ q. q.id) (get_peer_infos t))
  unfolding get_peer_infos size list_peers
  listings_agree = (length-concat_peers t.buckets, concat_ids-map t.buckets)
