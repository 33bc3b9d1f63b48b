-- ===== src/KBucket/Invariant/Adding.antt =====
-- `addPeer` on every branch: it returns, and it keeps the invariant.
use dep2p.Base.{
  if_true, if_false, ℕ, ◌-◌, ◌<◌, ◌≡◌, ◌≢◌, refl, ◌∙◌, inl, inr, Bool, ◌&&◌, some, arith, length,
  ltb, ◌==◌, if◌then◌else◌, Bool-cases, Option-cases, ltb→lt, ==_iff,
}
use dep2p.Keyspace.{PeerId, Primitives}
use dep2p.KBucket.Bucket.{PeerInfo, len, get_peer, update_peer}
use dep2p.KBucket.Bucket.Laws.{update_peer-All, length-update_peer, update_peer-Distinct}
use dep2p.KBucket.Table.{
  Diversity, AddResult, added, present, high_latency, not_diverse, bucket_id_for_peer,
  change_bucket,
}
use dep2p.KBucket.Change.{
  Table, next_bucket, split_fuel, push, replace_peer, place_peer, admit, add_peer, new_info, forget,
}
use dep2p.KBucket.Invariant.{IsValid, IsAt, IsFrom}
use dep2p.KBucket.Invariant.Changes.{
  cpl_of, home, home-Sized, home-Distinct, change_bucket-IsValid, next_bucket-IsValid,
}
use dep2p.KBucket.Invariant.Methods.{IsNew, push-IsValid, df-IsValid}
use dep2p.KBucket.Invariant.Replacement.{replace_peer_cases, swapped-IsValid}
use dep2p.KBucket.Invariant.Splitting.{next_bucket_ends}
use dep2p.KBucket.Invariant.Absence.{Absent-of_home, home_of_Absent, next_bucket-Absent}

module _ (P : Primitives) (D : Diversity) where
  open D use {State}

  -- The three ways through `addPeer` behind the filters: room at once, room after splitting the
  -- last bucket, and no room.
  pub data Placing (q : PeerInfo) (t : Table P D) : Type 0 where
    room :
        len (home P t q.id) < t.bucketsize
        → place_peer P D q t ≡ some (added, push P D (bucket_id_for_peer P t q.id) q t)
        → Placing q t
    room_after :
        (u : Table P D)
        → (len (home P t q.id) < t.bucketsize → ⊥)
        → bucket_id_for_peer P t q.id ≡ length t.buckets - 1
        → next_bucket P split_fuel t ≡ some u
        → len (home P u q.id) < u.bucketsize
        → place_peer P D q t ≡ some (added, push P D (bucket_id_for_peer P u q.id) q u)
        → Placing q t
    full_after :
        (u : Table P D)
        → (len (home P t q.id) < t.bucketsize → ⊥)
        → bucket_id_for_peer P t q.id ≡ length t.buckets - 1
        → next_bucket P split_fuel t ≡ some u
        → (len (home P u q.id) < u.bucketsize → ⊥)
        → place_peer P D q t ≡ some (replace_peer P D q u)
        → Placing q t
    full :
        (len (home P t q.id) < t.bucketsize → ⊥)
        → bucket_id_for_peer P t q.id ≢ length t.buckets - 1
        → place_peer P D q t ≡ some (replace_peer P D q t)
        → Placing q t

  module _ (q : PeerInfo) (t : Table P D) (v : IsValid P t) (pos : 0 < t.bucketsize) where
    pub place_peer-Placing : Placing q t
    unfolding place_peer
    place_peer-Placing = elim (Bool-cases (ltb (len (home P t q.id)) t.bucketsize)) [
      | inl fits ↦ room (ltb→lt _ _ fits) (rw (fits, place_peer))
      | inr tight ↦ elim (Bool-cases (bucket_id_for_peer P t q.id == length t.buckets - 1)) [
        | inr inner ↦ full (λ h. ground arith) (λ h. ground arith) (rw (tight, inner, place_peer))
        | inl last ↦
            let (u, e) = next_bucket_ends P t v pos in
            elim (Bool-cases (ltb (len (home P u q.id)) u.bucketsize)) [
              | inl fits ↦
                  room_after u (λ h. ground arith) ((==_iff _ _).0 last) e (ltb→lt _ _ fits)
                    (rw (tight, last, e, fits, place_peer))
              | inr more ↦
                  full_after u (λ h. ground arith) ((==_iff _ _).0 last) e (λ h. ground arith)
                    (rw (tight, last, e, more, place_peer))
            ]
      ]
    ]

    pub next_bucket-IsNew :
        (u : Table P D) → next_bucket P split_fuel t ≡ some u → IsNew P D q t → IsNew P D q u
    next_bucket-IsNew u e new = record {
      digest = new.digest;
      absent =
          home_of_Absent P q.id u
            (next_bucket-Absent P q.id split_fuel t u e (Absent-of_home P q.id t v new.absent));
    }

  replace_peer-IsValid :
      (q : PeerInfo) (t : Table P D)
      → IsValid P t
      → IsNew P D q t
      → IsValid P (replace_peer P D q t).1
  replace_peer-IsValid q t v new = elim (replace_peer_cases P D q t v new) [
    | inl (_, e) ↦ rw e (df-IsValid P (forget P D q.id t.df) t v)
    | inr (r, _, _, found, e) ↦ rw e (swapped-IsValid P D q t v new r found)
  ]

  -- `addPeer` behind the filters returns a table that keeps the invariant.
  pub place_peer-IsValid :
      (q : PeerInfo) (t : Table P D)
      → IsValid P t
      → 0 < t.bucketsize
      → IsNew P D q t
      → (r : AddResult × Table P D) × (place_peer P D q t ≡ some r) × IsValid P r.1
  place_peer-IsValid q t v pos new = elim (place_peer-Placing q t v pos) [
    | room fits e ↦ (_, e, push-IsValid P D q t v new fits)
    | room_after u _ _ n fits e ↦ (
      _,
      e,
      push-IsValid P D q u (next_bucket-IsValid P split_fuel t u v n)
          (next_bucket-IsNew q t v pos u n new) fits,
    )
    | full_after u _ _ n _ e ↦ (
      _,
      e,
      replace_peer-IsValid q u (next_bucket-IsValid P split_fuel t u v n)
          (next_bucket-IsNew q t v pos u n new),
    )
    | full _ _ e ↦ (_, e, replace_peer-IsValid q t v new)
  ]

  -- The change of a known peer's time.
  useful-IsValid :
      (t : Table P D)
      → IsValid P t
      → (useful : ℕ) (p : PeerId)
      → IsValid P (
          change_bucket
            (bucket_id_for_peer P t p)
            (update_peer (λ q. record q { last_useful_at = useful }) p)
            t)
  useful-IsValid t v useful p =
      change_bucket-IsValid P t p v (update_peer touch p)
        (λ b. update_peer-All (IsAt P t.local (cpl_of P t p)) touch p b (λ q h. h))
        (λ j b le. update_peer-All (IsFrom P t.local j) touch p b (λ q h. h))
        (omega (arith, home-Sized P t p v, length-update_peer touch (λ q. refl) p (home P t p)))
        (update_peer-Distinct touch (λ q. refl) p (home P t p) (home-Distinct P t p v))
    where
      touch : PeerInfo → PeerInfo
      touch q = record q { last_useful_at = useful }

  -- With a positive bucket size `addPeer` returns, and every result keeps the invariant.
  pub add_peer-IsValid :
      (now : ℕ) (latency : PeerId → ℕ) (p : PeerId) (mode : ℕ) (query_peer is_replaceable : Bool)
      (t : Table P D)
      → IsValid P t
      → 0 < t.bucketsize
      → (r : AddResult × Table P D) × (add_peer P D now latency p mode query_peer is_replaceable t
          ≡ some r)
        × IsValid P r.1
  unfolding add_peer
  add_peer-IsValid now latency p mode query_peer is_replaceable t v pos =
      elim (Option-cases (get_peer (home P t p) p)) [
        | inr (q, e) ↦ elim (Bool-cases (q.last_useful_at == 0 && query_peer)) [
          | inl first ↦ (
            (present, touched),
            rw (e, add_peer) (if_true _ _ first),
            useful-IsValid t v useful p,
          )
          | inr later ↦ ((present, t), rw (e, add_peer) (if_false _ _ later), v)
        ]
        | inl e ↦ elim (Bool-cases (ltb t.max_latency (latency p))) [
          | inl slow ↦ ((high_latency, t), rw (e, add_peer) (if_true _ _ slow), v)
          | inr fast ↦ elim (Bool-cases (admit P D p t.df).0) [
            | inr refused ↦ (
              (not_diverse, record t { df = (admit P D p t.df).1 }),
              rw (e, add_peer) (if_false _ _ fast ∙ if_false _ _ refused),
              df-IsValid P (admit P D p t.df).1 t v,
            )
            | inl allowed ↦
                let (r, placed, vr) =
                  place_peer-IsValid (new_info P now p mode query_peer is_replaceable)
                    (record t { df = (admit P D p t.df).1 }) (df-IsValid P _ t v) pos
                    (record { digest = refl; absent = e }) in
                (r, rw (e, add_peer) (if_false _ _ fast ∙ if_true _ _ allowed ∙ placed), vr)
          ]
        ]
      ]
    where
      useful : ℕ
      useful = if query_peer then now else 0

      touched : Table P D
      touched =
          change_bucket (bucket_id_for_peer P t p)
            (update_peer (λ q. record q { last_useful_at = useful }) p) t
