-- ===== src/KBucket/Nearest/Laws.antt =====
-- What the sorted lookups of the routing table return.
use dep2p.Base.{
  ℕ, zero, suc, ◌+◌, ◌≤◌, ◌<◌, ◌≡◌, refl, ap, ◌∙◌, inl, inr, List, [], ◌∷◌, map, none, some, arith,
  length, get_or, take, drop, min, ltb, Bool-cases, length-append, length-take, length-map,
}
use dep2p.Base.Predicates.{All, All-append, All-take}
use dep2p.Base.Sorting
use dep2p.Base.Sorting.{
  IsOrder, IsSorted, AllBefore, sort-perm, sort-All, sort-IsSorted, take-AllBefore-drop,
  take-IsSorted,
}
use dep2p.Base.Kept.{length-sort, cut}
use dep2p.Keyspace.{Bytes, Primitives, common_prefix_len, id_less, less}
use dep2p.Keyspace.Bytes.{less_bytes-IsOrder}
use dep2p.KBucket.Bucket.{PeerInfo, Bucket, len}
use dep2p.KBucket.Buckets.{slot, total_size}
use dep2p.KBucket.Table.{RoutingTable, size}
use dep2p.KBucket.Nearest.{
  PeerDistance, out_of, less_peer, append_peer, append_peers_from_list, append_right, append_left,
  collected, nearest_peers,
}

abbrev Ds : Type 0
Ds = List PeerDistance

-- Without a mode every peer is put out.
pub out_of-none : (ds : Ds) → out_of none ds ≡ map (λ d. d.p) ds
unfolding out_of
out_of-none [] = refl
out_of-none (d ∷ ds) = ap (◌∷◌ d.p) (out_of-none ds)

out_of-other : (m : ℕ) (ds : Ds) → 0 < m → All (λ d. d.mode ≡ 0) ds → out_of (some m) ds ≡ []
unfolding out_of
out_of-other m [] pos h = refl
out_of-other m (d ∷ ds) pos h =
    let zero_mode = h.0 in ground (arith, zero_mode, out_of-other m ds pos h.1)

take_nothing : (i : ℕ) → total_size (take i []) ≡ 0
unfolding total_size
take_nothing zero = refl
take_nothing (suc i) = refl

drop_nothing : (i : ℕ) → total_size (drop i []) ≡ 0
unfolding total_size
drop_nothing zero = refl
drop_nothing (suc i) = refl

total_size-split :
    (i : ℕ) (bs : List Bucket)
    → total_size (take i bs) + len (get_or bs i []) + total_size (drop (i + 1) bs) ≡ total_size bs
unfolding total_size
total_size-split i [] = omega (arith, take_nothing i, drop_nothing (i + 1))
total_size-split zero (b ∷ bs) = omega arith
total_size-split (suc i) (b ∷ bs) =
    let e : suc i + 1 ≡ suc (i + 1) = omega arith in rw e (omega (arith, total_size-split i bs))

total_size-take-suc :
    (i : ℕ) (bs : List Bucket)
    → total_size (take (suc i) bs) ≡ total_size (take i bs) + len (get_or bs i [])
unfolding total_size
total_size-take-suc i [] = omega (arith, take_nothing i, take_nothing (suc i))
total_size-take-suc zero (b ∷ bs) = omega arith
total_size-take-suc (suc i) (b ∷ bs) = omega (arith, total_size-take-suc i bs)

module _ (P : Primitives) where
  open P use {xor_bytes}

  pub less_peer-IsOrder : IsOrder (less_peer P)
  unfolding less_peer id_less less
  less_peer-IsOrder = record {
    asym = λ a b. less_bytes-IsOrder.asym a.distance b.distance;
    trans = λ a b c. less_bytes-IsOrder.trans a.distance b.distance c.distance;
  }

  module _ (target : Bytes) where
    length-append_list :
        (b : Bucket) (pds : Ds)
        → length (append_peers_from_list P target b pds) ≡ length pds + len b
    unfolding append_peers_from_list append_peer
    length-append_list [] pds = omega arith
    length-append_list (q ∷ b) pds =
        let pds' : Ds = append_peer P target q.id q.dht_id pds in
        omega (
          arith,
          length-append_list b pds',
          length-append pds
              (record { p = q.id; mode = 0; distance = xor_bytes target q.dht_id } ∷ []),
        )

    length-append_right :
        (bs : List Bucket) (pds : Ds)
        → length (append_right P target bs pds) ≡ length pds + total_size bs
    unfolding append_right total_size
    length-append_right [] pds = omega arith
    length-append_right (b ∷ bs) pds = omega (
      arith,
      length-append_right bs (append_peers_from_list P target b pds),
      length-append_list b pds,
    )

    length-append_left :
        (count : ℕ) (bs : List Bucket) (i : ℕ) (pds : Ds)
        → min count (length (append_left P target count bs i pds))
          ≡ min count (length pds + total_size (take i bs))
    unfolding append_left total_size
    length-append_left count bs zero pds = omega arith
    length-append_left count bs (suc i) pds = elim (Bool-cases (ltb (length pds) count)) [
      | inl e ↦ rw e (
          length-append_left count bs i (append_peers_from_list P target (get_or bs i []) pds)
          ∙ omega (arith, length-append_list (get_or bs i []) pds, total_size-take-suc i bs))
      | inr e ↦ let enough : count ≤ length pds = ground (arith, e) in rw e (omega (arith, enough))
    ]

    -- What holds of a peer's literal holds of all that is collected.
    module _ (Q : PeerDistance → Type 0) where
      All-append_list :
          (b : Bucket) (pds : Ds)
          → ((q : PeerInfo)
              → Q (record { p = q.id; mode = 0; distance = xor_bytes target q.dht_id }))
          → All Q pds
          → All Q (append_peers_from_list P target b pds)
      unfolding append_peers_from_list append_peer
      All-append_list [] pds f h = h
      All-append_list (q ∷ b) pds f h = All-append_list b _ f (All-append Q pds _ h (f q, tt))

      All-append_right :
          (bs : List Bucket) (pds : Ds)
          → ((q : PeerInfo)
              → Q (record { p = q.id; mode = 0; distance = xor_bytes target q.dht_id }))
          → All Q pds
          → All Q (append_right P target bs pds)
      unfolding append_right
      All-append_right [] pds f h = h
      All-append_right (b ∷ bs) pds f h = All-append_right bs _ f (All-append_list b pds f h)

      All-append_left :
          (count : ℕ) (bs : List Bucket) (i : ℕ) (pds : Ds)
          → ((q : PeerInfo)
              → Q (record { p = q.id; mode = 0; distance = xor_bytes target q.dht_id }))
          → All Q pds
          → All Q (append_left P target count bs i pds)
      unfolding append_left
      All-append_left count bs zero pds f h = h
      All-append_left count bs (suc i) pds f h = elim (Bool-cases (ltb (length pds) count)) [
        | inl e ↦ rw e (All-append_left count bs i _ f (All-append_list (get_or bs i []) pds f h))
        | inr e ↦ rw e h
      ]

module _ (P : Primitives) {S : Type 0} (id : Bytes) (count : ℕ) (t : RoutingTable S) where
  abbrev sorted : Ds
  sorted = Sorting.sort (less_peer P) (collected P id count t)

  collected_number : min count (length (collected P id count t)) ≡ min count (size t)
  unfolding collected size
  collected_number =
      let cpl = slot (length t.buckets) (common_prefix_len P id t.local) in
      let own : Ds = append_peers_from_list P id (get_or t.buckets cpl []) [] in
      let own_length = length-append_list P id (get_or t.buckets cpl []) [] in
      let parts = total_size-split cpl t.buckets in
      elim (Bool-cases (ltb (length own) count)) [
        | inl e ↦
            let more : Ds = append_right P id (drop (cpl + 1) t.buckets) own in
            rw e (
              length-append_left P id count t.buckets cpl more
              ∙ omega (
                arith,
                length-append_right P id (drop (cpl + 1) t.buckets) own,
                own_length,
                parts,
              ))
        | inr e ↦
            let enough : count ≤ length own = ground (arith, e) in
            rw e (
              length-append_left P id count t.buckets cpl own
              ∙ omega (arith, enough, own_length, parts))
      ]

  collected_modes : All (λ d. d.mode ≡ 0) (collected P id count t)
  unfolding collected
  collected_modes =
      let cpl = slot (length t.buckets) (common_prefix_len P id t.local) in
      let Mode : PeerDistance → Type 0 = λ d. d.mode ≡ 0 in
      let own : Ds = append_peers_from_list P id (get_or t.buckets cpl []) [] in
      let h : All (λ d. d.mode ≡ 0) own =
        All-append_list P id Mode (get_or t.buckets cpl []) [] (λ q. refl) tt in
      elim (Bool-cases (ltb (length own) count)) [
        | inl e ↦ rw e (
            All-append_left P id Mode count t.buckets cpl _ (λ q. refl)
              (All-append_right P id Mode (drop (cpl + 1) t.buckets) own (λ q. refl) h))
        | inr e ↦ rw e (All-append_left P id Mode count t.buckets cpl own (λ q. refl) h)
      ]

  pub length-nearest_peers : length (nearest_peers P id count none t) ≡ min count (size t)
  unfolding nearest_peers
  length-nearest_peers =
      rw (cut count sorted, out_of-none (take count sorted))
        (length-map (take count sorted) (λ d. d.p)
          ∙ length-take count sorted
          ∙ ap (min count) (length-sort (less_peer P) (collected P id count t))
          ∙ collected_number)

  -- With a mode other than 0 it returns no peer at all, whatever the table holds: no peer's mode
  -- reaches the comparison.
  pub nearest_peers-mode : (m : ℕ) → 0 < m → nearest_peers P id count (some m) t ≡ []
  unfolding nearest_peers
  nearest_peers-mode m pos = rw (cut count sorted) (
      out_of-other m (take count sorted) pos (
        All-take (λ d. d.mode ≡ 0) count sorted
          (sort-All (less_peer P) (λ d. d.mode ≡ 0) (collected P id count t) collected_modes)))
