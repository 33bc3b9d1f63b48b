-- ===== src/Dht/Answers.antt =====
-- What a FIND_NODE message is answered with.
use dep2p.Base.{
  ℕ, ◌≡◌, ◌≢◌, refl, sym, ap, ◌∙◌, Bool, true, false, ◌⊎◌, inl, inr, List, [], ◌∷◌, ◌++◌, Option,
  none, some, ◌==◌, ==_iff, if_true, if_false, Bool-cases, Option-cases, arith,
}
use dep2p.Base.Predicates.{All, All-append, All-imp, keep, keep-All, keep-holds}
use dep2p.Keyspace.{PeerId, Primitives, convert_key}
use dep2p.KBucket.Table.{Diversity}
use dep2p.KBucket.Change.{Table}
use dep2p.KBucket.Nearest.{nearest_peers}
use dep2p.Dht.{
  nearest_peers_to_query, filter_closer, better_peers_to_query, found, add_target, closest_peers,
  handle_find_peer,
}

module _ (P : Primitives) (D : Diversity) where
  abbrev pub Listed : PeerId → List PeerId → Type 0
  Listed p l = found P D p l ≡ true

  found-cons : (p q : PeerId) (l : List PeerId) → Listed p l → Listed p (q ∷ l)
  unfolding found
  found-cons p q l h = ground arith

  all-Listed : (l : List PeerId) → All (λ p. Listed p l) l
  unfolding found
  all-Listed [] = tt
  all-Listed (q ∷ l) = (
    ground arith,
    All-imp (λ p. Listed p l) (λ p. Listed p (q ∷ l)) (λ p h. found-cons p q l h) l (all-Listed l),
  )

  found-append : (p : PeerId) (l : List PeerId) → Listed p (l ++ (p ∷ []))
  unfolding found
  found-append p [] = ground arith
  found-append p (q ∷ l) = ground (arith, found-append p l)

  found-keep :
      (test : PeerId → Bool) (p : PeerId) (l : List PeerId)
      → test p ≡ true
      → Listed p l
      → Listed p (keep test l)
  unfolding found keep
  found-keep test p [] t h = cc
  found-keep test p (q ∷ l) t h = elim (Bool-cases (p == q)) [
    | inl e ↦
        let same : test q ≡ true = ap test (sym ((==_iff p q).0 e)) ∙ t in
        rw (if_true (q ∷ keep test l) (keep test l) same, found) (if_true _ _ e)
    | inr n ↦
        let later = found-keep test p l t (sym (if_false _ _ n) ∙ h) in
        elim (Bool-cases (test q)) [
          | inl u ↦ rw u (found-cons p q (keep test l) later)
          | inr u ↦ rw u later
        ]
  ]

  -- Not the sender, and from the given peers.
  abbrev Ok : (from : PeerId) → List PeerId → List PeerId → Type 0
  Ok from l f = All (λ p. (p ≢ from) × Listed p l) f

  abbrev OkSome : (from : PeerId) → List PeerId → Option (List PeerId) → Type 0
  OkSome from l none = Unit
  OkSome from l (some f) = Ok from l f

  Ok-cons : (from q : PeerId) (l f : List PeerId) → Ok from l f → Ok from (q ∷ l) f
  Ok-cons from q l f h =
      All-imp (λ p. (p ≢ from) × Listed p l) (λ p. (p ≢ from) × Listed p (q ∷ l))
        (λ p k. (k.0, found-cons p q l k.1)) f h

  filter_closer-Ok :
      (self from : PeerId) (l : List PeerId) → OkSome from l (filter_closer P D self from l)
  unfolding filter_closer found
  filter_closer-Ok self from [] = tt
  filter_closer-Ok self from (q ∷ l) = elim (Bool-cases (q == self)) [
    | inl s ↦ rw s tt
    | inr s ↦ elim (Option-cases (filter_closer P D self from l)) [
      | inl e ↦ elim (Bool-cases (q == from)) [ inl n ↦ rw (s, n, e) tt | inr n ↦ rw (s, n, e) tt ]
      | inr (f, e) ↦
          let ok : Ok from l f = rw e at (filter_closer-Ok self from l) in
          elim (Bool-cases (q == from)) [
            | inl n ↦ rw (s, n, e) (Ok-cons from q l f ok)
            | inr n ↦ rw (s, n, e) ((λ h. ground arith, ground arith), Ok-cons from q l f ok)
          ]
    ]
  ]

  abbrev listing : Option (List PeerId) → List PeerId
  listing none = []
  listing (some l) = l

  -- What a response lists: not the sender, and the target or one of the nearest peers.
  abbrev pub Answer : (from target : PeerId) (near : List PeerId) → PeerId → Type 0
  Answer from target near p = (p ≢ from) × ((p ≡ target) ⊎ Listed p near)

  answered :
      (from target : PeerId) (near : List PeerId) (o : Option (List PeerId))
      → OkSome from near o
      → All (Answer from target near) (listing o)
  answered from target near none h = tt
  answered from target near (some f) h =
      All-imp (λ p. (p ≢ from) × Listed p near) (Answer from target near) (λ p k. (k.0, inr k.1)) f
        h

  add_target-Answer :
      (target from : PeerId) (near f : List PeerId)
      → All (Answer from target near) f
      → All (Answer from target near) (add_target P D target from f)
        × (target ≢ from → Listed target (add_target P D target from f))
  unfolding add_target
  add_target-Answer target from near f h = elim (Bool-cases (target == from)) [
    | inl e ↦ rw e (h, λ n. absurd (n ((==_iff target from).0 e)))
    | inr e ↦
        let other : target ≢ from = λ q. ground arith in
        elim (Bool-cases (found P D target f)) [
          | inl k ↦ rw (e, k) (h, λ _. k)
          | inr k ↦
              rw (e, k)
                (
                  All-append (Answer from target near) f (target ∷ []) h ((other, inl refl), tt),
                  λ _. found-append target f,
                )
        ]
  ]

  closest-Answer :
      (self from key : PeerId) (bucket_size : ℕ) (t : Table P D)
      → from ≢ self
      → All
          (Answer from key (nearest_peers_to_query P D key bucket_size t))
          (closest_peers P D self key from bucket_size t)
        × (key ≢ from → Listed key (closest_peers P D self key from bucket_size t))
  unfolding closest_peers better_peers_to_query found
  closest-Answer self from key bucket_size t other =
      let near = nearest_peers_to_query P D key bucket_size t in
      elim (Bool-cases (key == self)) [
        | inl e ↦
            let same : self ≡ key = sym ((==_iff key self).0 e) in
            rw e (((λ h. other (sym h), inl same), tt), λ _. if_true _ _ e)
        | inr e ↦ rw e (
            add_target-Answer key from near _ (
              answered from key near (filter_closer P D self from near)
                (filter_closer-Ok self from near)))
      ]

  All-both : (X Y : PeerId → Type 0) (l : List PeerId) → All X l → All Y l → All (λ p. X p × Y p) l
  All-both X Y [] h k = tt
  All-both X Y (p ∷ l) h k = ((h.0, k.0), All-both X Y l h.1 k.1)

  -- A FIND_NODE message with a key, from a peer other than the node itself, is answered without an
  -- error with peers that have addresses, none of them the sender, and each of them the target or
  -- one of the peers that NearestPeers returns for the digest of the key and bucketSize, without a
  -- mode; the target is among them if it has addresses and is not the sender.
  pub handle_find_peer_lem :
      (has_addrs : PeerId → Bool) (self from key : PeerId) (bucket_size : ℕ) (t : Table P D)
      → key ≢ 0
      → from ≢ self
      → (l : List PeerId) × (handle_find_peer P D has_addrs self from key bucket_size t ≡ some l)
        × All
            (λ p.
              Answer from key (nearest_peers P (P.sum256 key) bucket_size none t) p
              × (has_addrs p ≡ true))
            l
        × (key ≢ from → has_addrs key ≡ true → Listed key l)
  unfolding handle_find_peer nearest_peers_to_query convert_key
  handle_find_peer_lem has_addrs self from key bucket_size t some_key other =
      let near = nearest_peers_to_query P D key bucket_size t in
      let closest = closest_peers P D self key from bucket_size t in
      let (all, target) = closest-Answer self from key bucket_size t other in
      let guard : (key == 0) ≡ false = ground arith in
      (
        keep has_addrs closest,
        if_false _ _ guard,
        All-both (Answer from key near) (λ p. has_addrs p ≡ true) (keep has_addrs closest)
            (keep-All has_addrs (Answer from key near) closest all) (keep-holds has_addrs closest),
        λ n h. found-keep has_addrs key closest h (target n),
      )
