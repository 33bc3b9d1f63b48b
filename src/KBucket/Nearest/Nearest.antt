-- ===== src/KBucket/Nearest/Nearest.antt =====
-- `NearestPeers` on a valid table returns the peers of the table that are nearest to the key.
use mathlib.Core.List.{Perm, append_assoc}
use mathlib.Core.List.Perm
use dep2p.Base.{
  ℕ, suc, ◌≡◌, refl, sym, ap, ◌∙◌, false, List, [], ◌∷◌, ◌++◌, map, none, length, take, drop, min,
  take-append-drop,
}
use dep2p.Base.Predicates.{All, All-take}
use dep2p.Base.Sorting
use dep2p.Base.Sorting.{
  IsOrder, IsSorted, AllBefore, sort-perm, sort-All, sort-IsSorted, take-AllBefore-drop,
  take-IsSorted,
}
use dep2p.Base.Kept.{cut}
use dep2p.Keyspace.{PeerId, Bytes, Primitives, id_less, less}
use dep2p.Keyspace.Bytes.{less_bytes-IsOrder}
use dep2p.Keyspace.Distance.{IsDigest}
use dep2p.KBucket.Bucket.{PeerInfo, Bucket}
use dep2p.KBucket.Bucket.Laws.{peers-id}
use dep2p.KBucket.Buckets.{concat_peers}
use dep2p.KBucket.Table.{RoutingTable, get_peer_infos, size}
use dep2p.KBucket.Invariant.{IsValid}
use dep2p.KBucket.Nearest.{less_peer, collected, nearest_peers}
use dep2p.KBucket.Nearest.Laws.{out_of-none, length-nearest_peers}
use dep2p.KBucket.Nearest.Near.{flat, entry, nearer, sort-entries, take-entries}
use dep2p.KBucket.Nearest.Chosen.{before_both, collected-Chosen}

abbrev Peers : Type 0
Peers = List PeerInfo

module _ (P : Primitives) where
  nearer-IsOrder : (id : Bytes) → IsOrder (nearer P id)
  unfolding id_less less
  nearer-IsOrder id = record {
    asym = λ a b. less_bytes-IsOrder.asym (P.xor_bytes id a.dht_id) (P.xor_bytes id b.dht_id);
    trans = λ a b d.
        less_bytes-IsOrder.trans (P.xor_bytes id a.dht_id) (P.xor_bytes id b.dht_id)
          (P.xor_bytes id d.dht_id);
  }

  ids-entries :
      (id : Bytes) (xs : Peers) → map (λ d. d.p) (map (entry P id) xs) ≡ map (λ q. q.id) xs
  ids-entries id [] = refl
  ids-entries id (x ∷ xs) = ap (◌∷◌ x.id) (ids-entries id xs)

  length-ids : (xs : Peers) → length (map (λ q. q.id) xs) ≡ length xs
  length-ids [] = refl
  length-ids (x ∷ xs) = ap suc (length-ids xs)

  flat_listed : (bs : List Bucket) → flat bs ≡ concat_peers bs
  unfolding concat_peers
  flat_listed [] = refl
  flat_listed (b ∷ bs) = rw (peers-id b, flat_listed bs) refl

  -- For a valid table and a key of 32 bytes, `NearestPeers` without a mode returns as many of the
  -- table's peers as asked for, or all if they are fewer, in the order of the exclusive or of their
  -- keys with the key; and no other peer of the table is nearer to the key than one of them.
  pub nearest_peers-nearest :
      {S : Type 0} (id : Bytes) (count : ℕ) (t : RoutingTable S)
      → IsDigest id
      → IsValid P t
      → (near : List PeerInfo) × (far : List PeerInfo) × Perm (near ++ far) (get_peer_infos t)
        × (nearest_peers P id count none t ≡ map (λ q. q.id) near)
        × (length near ≡ min count (size t))
        × IsSorted (nearer P id) near
        × AllBefore (nearer P id) near far
  unfolding nearest_peers get_peer_infos
  nearest_peers-nearest id count t di v =
      let (chosen, rest, e, p, apart) =
        collected-Chosen P id t.local di v.digest count t refl v.placed in
      let order = nearer-IsOrder id in
      let sorted = Sorting.sort (nearer P id) chosen in
      let near = take count sorted in
      let same : Sorting.sort (less_peer P) (collected P id count t) ≡ map (entry P id) sorted =
        ap (Sorting.sort (less_peer P)) e ∙ sort-entries P id chosen in
      let result : nearest_peers P id count none t ≡ map (λ q. q.id) near =
        rw (cut count (Sorting.sort (less_peer P) (collected P id count t)), same)
          (out_of-none (take count (map (entry P id) sorted))
            ∙ ap (map (λ d. d.p)) (take-entries P id count sorted)
            ∙ ids-entries id near) in
      let apart_from = λ (a : PeerInfo). All (λ b. nearer P id b a ≡ false) rest in
      let parts : near ++ (drop count sorted ++ rest) ≡ sorted ++ rest =
        sym (append_assoc near (drop count sorted) rest)
        ∙ ap (λ (l : Peers). l ++ rest) (take-append-drop count sorted) in
      let together : Perm (near ++ (drop count sorted ++ rest)) (flat t.buckets) =
        rw parts (Perm.trans (Perm.append_right rest (sort-perm (nearer P id) chosen)) p) in
      (
        near,
        drop count sorted ++ rest,
        rw (flat_listed t.buckets) at together,
        result,
        sym (length-ids near)
            ∙ ap (λ (l : List PeerId). length l) (sym result)
            ∙ length-nearest_peers P id count t,
        take-IsSorted (nearer P id) order count sorted (sort-IsSorted (nearer P id) order chosen),
        before_both P id t.local di v.digest near (drop count sorted) rest
            (take-AllBefore-drop (nearer P id) order count sorted
              (sort-IsSorted (nearer P id) order chosen))
            (All-take apart_from count sorted (sort-All (nearer P id) apart_from chosen apart)),
      )
