-- ===== src/KBucket/Nearest/Chosen.antt =====
-- What `NearestPeers` collects of a valid table: no peer that it leaves is nearer to the key.
use mathlib.Core.List.{Perm, append_assoc}
use mathlib.Core.List.Perm
use dep2p.Base.{
  ℕ, zero, suc, ◌+◌, ◌≤◌, ◌<◌, ◌≡◌, refl, sym, ap, ◌∙◌, subst, ◌⊎◌, inl, inr, true, false, List, [],
  ◌∷◌, ◌++◌, map, length, get_or, take, drop, ltb, if◌then◌else◌, if_true, if_false, Bool-cases,
  arith,
}
use dep2p.Base.Predicates.{All, All-append, All-imp}
use dep2p.Base.Sorting.{AllBefore}
use dep2p.Keyspace.{Bytes, Primitives, common_prefix_len, convert_peer_id, id_less, less}
use dep2p.Keyspace.Bytes.{less_bytes-IsOrder}
use dep2p.Keyspace.Distance.{
  IsDigest, sum256-IsDigest, common_prefix_len_comm, common_prefix_len-le, common_prefix_len_trans,
  common_prefix_len_part, id_less_of_prefix-lt, xor_bytes_comm,
}
use dep2p.KBucket.Bucket.{PeerInfo, Bucket}
use dep2p.KBucket.Buckets.{slot}
use dep2p.KBucket.Table.{RoutingTable}
use dep2p.KBucket.Invariant.{IsAt, IsFrom, Placed}
use dep2p.KBucket.Nearest.{PeerDistance, append_peers_from_list, append_left, collected}
use dep2p.KBucket.Nearest.Near.{
  flat, flat-take-suc, flat-split, perm_comm, entry, nearer, entries-append_list, length-entries,
  entries-append_right, entries-append_left, left, left_out, left-Perm,
}
use dep2p.KBucket.Nearest.Places.{inner_bucket, last_bucket, behind, some_bucket, drop_all}

abbrev Peers : Type 0
Peers = List PeerInfo

module _ (P : Primitives) (id local : Bytes) (di : IsDigest id) (dl : IsDigest local) where
  -- The bits that a peer shares with the key, and those that the key shares with the local one.
  abbrev nb : PeerInfo → ℕ
  nb q = common_prefix_len P q.dht_id id

  abbrev c : ℕ
  c = common_prefix_len P id local

  abbrev NearBy : ℕ → PeerInfo → Type 0
  NearBy i q = IsDigest q.dht_id × (i ≤ nb q)

  abbrev Below : ℕ → PeerInfo → Type 0
  Below k q = IsDigest q.dht_id × (nb q < k)

  digest : (q : PeerInfo) → q.dht_id ≡ convert_peer_id P q.id → IsDigest q.dht_id
  unfolding convert_peer_id
  digest q e = rw e (sum256-IsDigest P q.id)

  from-NearBy : (i : ℕ) (q : PeerInfo) → i ≤ c → IsFrom P local i q → NearBy i q
  from-NearBy i q le (e, h) =
      let d = digest q e in
      (d, common_prefix_len_trans P d dl di i h (rw (common_prefix_len_comm P dl di) le))

  at-Below : (j : ℕ) (q : PeerInfo) → j < c → IsAt P local j q → Below (suc j) q
  at-Below j q lt (e, h) =
      let d = digest q e in
      let more = common_prefix_len_trans P d di dl (suc j) in
      (
        d,
        elim (Bool-cases (ltb j (nb q))) [
          | inl far ↦ absurd (omega (arith, more (ground (arith, far)) (omega arith), h))
          | inr near ↦ ground (arith, near)
        ],
      )

  behind-Below : (q : PeerInfo) → IsFrom P local (suc c) q → Below (suc c) q
  behind-Below q (e, h) =
      let d = digest q e in
      let more = common_prefix_len_trans P di d dl (suc c) in
      (
        d,
        elim (Bool-cases (ltb c (nb q))) [
          | inl far ↦ absurd (
              omega
                (arith, more (omega (arith, common_prefix_len_comm P d di, ltb-to c (nb q) far)) h))
          | inr near ↦ ground (arith, near)
        ],
      )
    where
      ltb-to : (a b : ℕ) → ltb a b ≡ true → a < b
      ltb-to a b h = ground (arith, h)

  own-NearBy : (q : PeerInfo) → c < 256 → IsAt P local c q → NearBy (suc c) q
  own-NearBy q lt (e, h) =
      let d = digest q e in
      let same = common_prefix_len_comm P dl di in
      let part = common_prefix_len_part P d dl di in
      (d, omega (arith, part (h ∙ sym same) (omega (arith, h)), h))

  before : (k : ℕ) (a b : PeerInfo) → NearBy k a → Below k b → nearer P id b a ≡ false
  unfolding id_less less
  before k a b (da, ha) (db, hb) =
      let near = id_less_of_prefix-lt P da db di (omega (arith, ha, hb)) in
      less_bytes-IsOrder.asym (P.xor_bytes id a.dht_id) (P.xor_bytes id b.dht_id)
        (rw (xor_bytes_comm P da di, xor_bytes_comm P db di) at near)

  all_before :
      (k : ℕ) (xs ys : Peers) → All (NearBy k) xs → All (Below k) ys → AllBefore (nearer P id) xs ys
  all_before k xs ys hx hy =
      All-imp (NearBy k) (λ a. All (λ b. nearer P id b a ≡ false) ys)
        (λ a ha.
          All-imp (Below k) (λ b. nearer P id b a ≡ false) (λ b hb. before k a b ha hb) ys hy)
        xs hx

  none_before : (xs : Peers) → AllBefore (nearer P id) xs []
  none_before [] = tt
  none_before (x ∷ xs) = (tt, none_before xs)

  pub before_both :
      (xs ys zs : Peers)
      → AllBefore (nearer P id) xs ys
      → AllBefore (nearer P id) xs zs
      → AllBefore (nearer P id) xs (ys ++ zs)
  before_both [] ys zs h k = tt
  before_both (x ∷ xs) ys zs h k =
      (All-append (λ b. nearer P id b x ≡ false) ys zs h.0 k.0, before_both xs ys zs h.1 k.1)

  -- The buckets to the left of an index, each with the peers of its prefix length.
  abbrev Lefts : ℕ → List Bucket → Type 0
  Lefts i bs = (j : ℕ) → j < i → All (IsAt P local j) (get_or bs j [])

  Lefts-Below : (i : ℕ) (bs : List Bucket) → i ≤ c → Lefts i bs → All (Below i) (flat (take i bs))
  Lefts-Below zero bs le h = tt
  Lefts-Below (suc i) bs le h = rw (flat-take-suc i bs) (
      All-append (Below (suc i)) (flat (take i bs)) (get_or bs i [])
        (All-imp (Below i) (Below (suc i)) (λ q g. (g.0, omega (arith, g.1))) (flat (take i bs))
          (Lefts-Below i bs (omega arith) (λ j lt. h j (omega arith))))
        (All-imp (IsAt P local i) (Below (suc i)) (λ q. at-Below i q (omega arith)) (get_or bs i [])
          (h i (omega arith))))

  left-before :
      (count : ℕ) (bs : List Bucket) (i : ℕ) (xs : Peers)
      → i ≤ c
      → Lefts i bs
      → All (NearBy i) xs
      → AllBefore (nearer P id) (left P id count bs i xs) (left_out P id count bs i xs)
  unfolding left left_out
  left-before count bs zero xs le h k = none_before xs
  left-before count bs (suc i) xs le h k = elim (Bool-cases (ltb (length xs) count)) [
    | inr e ↦ rw e (all_before (suc i) xs (flat (take (suc i) bs)) k (Lefts-Below (suc i) bs le h))
    | inl e ↦
        let down : (q : PeerInfo) → NearBy (suc i) q → NearBy i q =
          λ q g. (g.0, omega (arith, g.1)) in
        rw e (
          left-before count bs i (xs ++ get_or bs i []) (omega arith) (λ j lt. h j (omega arith))
            (All-append (NearBy i) xs (get_or bs i [])
              (All-imp (NearBy (suc i)) (NearBy i) down xs k)
              (All-imp (IsAt P local i) (NearBy i)
                (λ q g. from-NearBy i q (omega arith) (g.0, omega (arith, g.1))) (get_or bs i [])
                (h i (omega arith)))))
  ]

  -- With enough peers the loop to the left collects none.
  left_enough :
      (count : ℕ) (bs : List Bucket) (i : ℕ) (xs : Peers)
      → ltb (length xs) count ≡ false
      → left P id count bs i xs ≡ xs
  unfolding left
  left_enough count bs zero xs e = refl
  left_enough count bs (suc i) xs e = rw e refl

  -- What is collected of the table, and what is not and not nearer.
  abbrev pub Chosen : (ps : Peers) (pds : List PeerDistance) → Type 0
  Chosen ps pds =
      (chosen : Peers) × (rest : Peers) × (pds ≡ map (entry P id) chosen)
      × Perm (chosen ++ rest) ps
      × AllBefore (nearer P id) chosen rest

  module _ {S : Type 0} (count : ℕ) (t : RoutingTable S) (here : t.local ≡ local)
      (h : Placed P local 0 t.buckets) where
    abbrev i : ℕ
    i = slot (length t.buckets) c

    abbrev own : Peers
    own = get_or t.buckets i []

    abbrev right : Peers
    right = flat (drop (suc i) t.buckets)

    lefts : Lefts i t.buckets
    unfolding slot
    lefts j lt =
        let same : 0 + j ≡ j = omega arith in
        rw same at (inner_bucket P local j 0 t.buckets (ground arith) h)

    index-le : i ≤ c
    unfolding slot
    index-le = ground arith

    index-inner : suc i < length t.buckets → i ≡ c
    unfolding slot
    index-inner lt = ground arith

    index-last : suc i ≤ length t.buckets
    unfolding slot
    index-last = ground (arith, some_bucket P local 0 t.buckets h)

    -- The bucket of the key is that of its prefix length, or the last one.
    own_cases : ((i ≡ c) × All (IsAt P local c) own) ⊎ (All (IsFrom P local i) own × (right ≡ []))
    own_cases =
        let same : 0 + i ≡ i = omega arith in
        elim (Bool-cases (ltb (suc i) (length t.buckets))) [
          | inl e ↦
              let at = rw same at (inner_bucket P local i 0 t.buckets (ground (arith, e)) h) in
              let there = index-inner (ground (arith, e)) in
              inl (there, subst (λ k. All (IsAt P local k) own) there at)
          | inr e ↦
              let last : suc i ≡ length t.buckets = omega (arith, index-last, ltb-no e) in
              inr (
                rw same at (last_bucket P local i 0 t.buckets last h),
                drop_all (suc i) t.buckets last,
              )
        ]
      where
        ltb-no : ltb (suc i) (length t.buckets) ≡ false → length t.buckets ≤ suc i
        ltb-no e = ground (arith, e)

    own-All : All (NearBy i) own
    own-All = elim own_cases [
      | inl (e, at) ↦
          All-imp (IsAt P local c) (NearBy i)
            (λ q g. from-NearBy i q index-le (g.0, omega (arith, g.1, e))) own at
      | inr (from, _) ↦
          All-imp (IsFrom P local i) (NearBy i) (λ q. from-NearBy i q index-le) own from
    ]

    right-All : All (IsFrom P local (suc i)) right
    right-All =
        let same : 0 + suc i ≡ suc i = omega arith in
        rw same at (behind P local (suc i) 0 t.buckets h)

    right-NearBy : All (NearBy i) right
    right-NearBy =
        All-imp (IsFrom P local (suc i)) (NearBy i)
          (λ q g. from-NearBy i q index-le (g.0, omega (arith, g.1))) right right-All

    own-before-right : AllBefore (nearer P id) own right
    own-before-right = elim own_cases [
      | inr (_, empty) ↦ rw empty (none_before own)
      | inl (e, at) ↦
          All-imp (IsAt P local c) (λ a. All (λ b. nearer P id b a ≡ false) right)
            (λ a ha.
              All-imp (IsFrom P local (suc i)) (λ b. nearer P id b a ≡ false)
                (λ b hb.
                  let db = digest b hb.0 in
                  let few = common_prefix_len-le P db dl in
                  before (suc c) a b (own-NearBy a (omega (arith, few, hb.1, e)) ha)
                    (behind-Below b (hb.0, omega (arith, hb.1, e))))
                right right-All)
            own at
    ]

    abbrev first : Peers
    first = if ltb (length own) count then own ++ right else own

    collected_peers : collected P id count t ≡ map (entry P id) (left P id count t.buckets i first)
    unfolding collected
    collected_peers =
        let next : i + 1 ≡ suc i = omega arith in
        let start : append_peers_from_list P id own [] ≡ map (entry P id) own =
          entries-append_list P id own [] in
        elim (Bool-cases (ltb (length own) count)) [
          | inl e ↦
              rw (here, start, length-entries P id own, e, next)
                (ap (append_left P id count t.buckets i)
                    (entries-append_right P id (drop (suc i) t.buckets) own)
                  ∙ entries-append_left P id count t.buckets i (own ++ right))
          | inr e ↦
              rw (here, start, length-entries P id own, e)
                (entries-append_left P id count t.buckets i own)
        ]

    pub collected-Chosen : Chosen (flat t.buckets) (collected P id count t)
    collected-Chosen =
        let all = flat (take i t.buckets) in
        let whole = flat-split i t.buckets in
        elim (Bool-cases (ltb (length own) count)) [
          | inl e ↦
              let xs = own ++ right in
              let short : first ≡ xs = if_true _ _ e in
              (
                left P id count t.buckets i xs,
                left_out P id count t.buckets i xs,
                collected_peers ∙ ap (λ l. map (entry P id) (left P id count t.buckets i l)) short,
                Perm.trans (left-Perm P id count t.buckets i xs) (rw (← whole) (perm_comm xs all)),
                left-before count t.buckets i xs index-le lefts
                    (All-append (NearBy i) own right own-All right-NearBy),
              )
          | inr e ↦
              let enough : first ≡ own = if_false _ _ e in
              let stops = left_enough count t.buckets i own e in
              let out = left_out P id count t.buckets i own in
              let kept : Perm (own ++ out) (own ++ all) =
                rw stops at (left-Perm P id count t.buckets i own) in
              let moved : Perm ((own ++ out) ++ right) ((all ++ own) ++ right) =
                Perm.append_right right (Perm.trans kept (perm_comm own all)) in
              (
                own,
                out ++ right,
                collected_peers
                    ∙ ap (λ l. map (entry P id) (left P id count t.buckets i l)) enough
                    ∙ ap (map (entry P id)) stops,
                rw (append_assoc own out right, append_assoc all own right, whole) at moved,
                before_both own out right
                    (rw stops at (left-before count t.buckets i own index-le lefts own-All))
                    own-before-right,
              )
        ]
