-- ===== src/KBucket/Invariant/Replacement.antt =====
-- The end of `addPeer`: a new peer takes the place of a replaceable one.
use dep2p.Base.{
  ℕ, ◌≤◌, ◌<◌, ◌≡◌, ap, ◌∙◌, ◌⊎◌, inl, inr, Bool, true, false, List, [], ◌∷◌, ◌++◌, Option, none,
  some, arith, length, ◌==◌, if◌then◌else◌, Bool-cases, Option-cases,
}
use dep2p.Base.Predicates.{All}
use dep2p.Keyspace.{Primitives}
use dep2p.KBucket.Bucket
use dep2p.KBucket.Bucket.{PeerInfo, Bucket, len, get_peer, push_front}
use dep2p.KBucket.Bucket.Laws.{
  get_peer-All, remove-All, remove-Distinct, remove_found, min-All, min_found, min_missing,
  get_peer_self, get_peer_here, get_peer_there,
}
use dep2p.KBucket.Buckets.{trim, any_replaceable}
use dep2p.KBucket.Buckets.Laws.{modify-modify, length-modify, get_or-modify}
use dep2p.KBucket.Table.{
  Diversity, added, no_capacity, peer_removed, peer_added, bucket_at, bucket_id_for_peer,
  change_bucket, notify,
}
use dep2p.KBucket.Change.{Table, remove_peer, forget, push, replace_peer}
use dep2p.KBucket.Invariant.{IsAt, IsFrom, Placed, IsValid}
use dep2p.KBucket.Invariant.Placement.{slot-lt-length}
use dep2p.KBucket.Invariant.Changes.{
  cpl_of, home, home-Sized, home-Distinct, change_bucket-IsValid, trim-IsValid,
}
use dep2p.KBucket.Invariant.Homes.{home-same}
use dep2p.KBucket.Invariant.Methods.{IsNew, removed, remove_peer_cases}

clash {ℓ} : {A : Type ℓ} {x : A} {o : Option A} → o ≡ some x → o ≡ none → ⊥
clash e e' = cc

-- `replaceable` read from the peer that `min` returns.
replace_step {ℓ} :
    {A : Type ℓ} (b : Bool) (c : Bool) (x y : A)
    → b ≡ c
    → (if b then x else y) ≡ (if c then x else y)
replace_step b c x y e = rw e

module _ (P : Primitives) (D : Diversity) where
  open D use {State}

  -- The bucket with the new peer in front and the other one gone.
  abbrev pub swap_in : PeerInfo → PeerInfo → Bucket → Bucket
  swap_in q r b = (Bucket.remove r.id (push_front q b)).1

  abbrev pub swapped : PeerInfo → PeerInfo → Table P D → Table P D
  swapped q r t =
      let c = change_bucket (bucket_id_for_peer P t q.id) (swap_in q r) t in
      record c {
        buckets = trim (length t.buckets) c.buckets;
        notified = (t.notified ++ (peer_added q.id ∷ [])) ++ (peer_removed r.id ∷ []);
        df = forget P D r.id t.df;
      }

  module _ (q : PeerInfo) (t : Table P D) (v : IsValid P t) (new : IsNew P D q t) where
    buckets-nonempty : 0 < length t.buckets
    buckets-nonempty = nonempty t.buckets v.placed
      where
        nonempty : (bs : List Bucket) → Placed P t.local 0 bs → 0 < length bs
        nonempty [] h = absurd h
        nonempty (b ∷ bs) h = omega arith

    -- The bucket of a peer of the new peer's bucket, in the table with the new peer.
    index_kept :
        (r : PeerInfo)
        → bucket_id_for_peer P t r.id ≡ bucket_id_for_peer P t q.id
        → bucket_id_for_peer P (push P D (bucket_id_for_peer P t q.id) q t) r.id
          ≡ bucket_id_for_peer P t q.id
    unfolding push bucket_id_for_peer
    index_kept r e = rw (length-modify (bucket_id_for_peer P t q.id) (push_front q) t.buckets) e

    pub index-lt : bucket_id_for_peer P t q.id < length t.buckets
    unfolding bucket_id_for_peer
    index-lt = slot-lt-length (length t.buckets) (cpl_of P t q.id) buckets-nonempty

    home_pushed :
        bucket_at (push P D (bucket_id_for_peer P t q.id) q t) (bucket_id_for_peer P t q.id)
        ≡ push_front q (home P t q.id)
    unfolding push bucket_at
    home_pushed = get_or-modify (bucket_id_for_peer P t q.id) (push_front q) [] t.buckets index-lt

    found_pushed :
        (r : PeerInfo)
        → get_peer (home P t q.id) r.id ≡ some r
        → (x : PeerInfo) × (get_peer (push_front q (home P t q.id)) r.id ≡ some x)
    unfolding push_front
    found_pushed r found = elim (Bool-cases (q.id == r.id)) [
      | inl same ↦ (q, get_peer_here q (home P t q.id) r.id same)
      | inr other ↦ (r, get_peer_there q (home P t q.id) r.id other ∙ found)
    ]

    pub swapped-IsValid :
        (r : PeerInfo) → get_peer (home P t q.id) r.id ≡ some r → IsValid P (swapped q r t)
    unfolding push_front
    swapped-IsValid r found = record {
      digest = vt.digest;
      placed = vt.placed;
      sized = vt.sized;
      distinct = vt.distinct;
    }
      where
        c : Table P D
        c = change_bucket (bucket_id_for_peer P t q.id) (swap_in q r) t

        at :
            (b : Bucket)
            → All (IsAt P t.local (cpl_of P t q.id)) b
            → All (IsAt P t.local (cpl_of P t q.id)) (swap_in q r b)
        at b h = remove-All _ r.id (q ∷ b) ((new.digest, rw new.digest), h)

        from :
            (j : ℕ) (b : Bucket)
            → j ≤ cpl_of P t q.id
            → All (IsFrom P t.local j) b
            → All (IsFrom P t.local j) (swap_in q r b)
        from j b le h = remove-All _ r.id (q ∷ b) ((new.digest, rw new.digest le), h)

        vc : IsValid P c
        vc =
            change_bucket-IsValid P t q.id v (swap_in q r) at from
              (omega (
                arith,
                (remove_found r.id (q ∷ home P t q.id) (found_pushed r found).0
                    (found_pushed r found).1).1,
                home-Sized P t q.id v,
              ))
              (remove-Distinct r.id (q ∷ home P t q.id) (new.absent, home-Distinct P t q.id v))

        vt : IsValid P (record c { buckets = trim (length t.buckets) c.buckets })
        vt = trim-IsValid P c (length t.buckets) vc

    removed-pushed :
        (r : PeerInfo)
        → bucket_id_for_peer P t r.id ≡ bucket_id_for_peer P t q.id
        → removed P D r.id (push P D (bucket_id_for_peer P t q.id) q t) ≡ swapped q r t
    unfolding change_bucket notify push
    removed-pushed r e = rw (
      index_kept r e,
      length-modify (bucket_id_for_peer P t q.id) (push_front q) t.buckets,
      modify-modify (bucket_id_for_peer P t q.id) (push_front q) (λ b. (Bucket.remove r.id b).1)
          t.buckets,
    )

    remove-pushed :
        (r : PeerInfo)
        → get_peer (home P t q.id) r.id ≡ some r
        → (remove_peer P D r.id (push P D (bucket_id_for_peer P t q.id) q t)).1 ≡ swapped q r t
    remove-pushed r found =
        let same = get_peer-All _ (home P t q.id) r.id (home-same P t q.id v) found in
        elim (remove_peer_cases P D r.id (push P D (bucket_id_for_peer P t q.id) q t)) [
          | inl (missing, _) ↦
              let (x, e) = found_pushed r found in
              let gone : get_peer (push_front q (home P t q.id)) r.id ≡ none =
                rw (index_kept r same, home_pushed) at missing in
              absurd (clash e gone)
          | inr (_, _, e) ↦ rw e (removed-pushed r same)
        ]

    reject_of :
        any_replaceable (home P t q.id) ≡ false
        → (Bucket.min (λ p1 p2. p1.replaceable) (home P t q.id) ≡ none)
          ⊎ ((r : PeerInfo) × (Bucket.min (λ p1 p2. p1.replaceable) (home P t q.id) ≡ some r))
        → replace_peer P D q t ≡ (no_capacity, record t { df = forget P D q.id t.df })
    unfolding replace_peer
    reject_of free (inl e) = rw (e, replace_peer)
    reject_of free (inr (r, e)) =
        rw (e, replace_peer)
          (replace_step r.replaceable false _ _ (min_missing (home P t q.id) r free e))

    taken :
        (r : PeerInfo)
        → Bucket.min (λ p1 p2. p1.replaceable) (home P t q.id) ≡ some r
        → r.replaceable ≡ true
        → get_peer (home P t q.id) r.id ≡ some r
        → replace_peer P D q t ≡ (added, swapped q r t)
    unfolding replace_peer
    taken r e rep found =
        rw (e, replace_peer)
          (replace_step r.replaceable true _ _ rep ∙ ap (λ u. (added, u)) (remove-pushed r found))

    -- The peer that `min` finds is replaced, if it may be; else the new peer is turned away.
    pub replace_peer_cases :
        ((any_replaceable (home P t q.id) ≡ false)
          × (replace_peer P D q t ≡ (no_capacity, record t { df = forget P D q.id t.df })))
        ⊎ ((r : PeerInfo) × (any_replaceable (home P t q.id) ≡ true)
            × (r.replaceable ≡ true)
            × (get_peer (home P t q.id) r.id ≡ some r)
            × (replace_peer P D q t ≡ (added, swapped q r t)))
    replace_peer_cases = elim (Bool-cases (any_replaceable (home P t q.id))) [
      | inr free ↦ inl (
        free,
        reject_of free (Option-cases (Bucket.min (λ p1 p2. p1.replaceable) (home P t q.id))),
      )
      | inl busy ↦
          let (r, e, rep) = min_found (home P t q.id) busy in
          let found =
            min-All (λ x. get_peer (home P t q.id) x.id ≡ some x) (λ p1 p2. p1.replaceable)
              (home P t q.id) r (get_peer_self (home P t q.id) (home-Distinct P t q.id v)) e in
          inr (r, busy, rep, found, taken r e rep found)
    ]
