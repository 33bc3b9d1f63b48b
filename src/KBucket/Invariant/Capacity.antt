-- ===== src/KBucket/Invariant/Capacity.antt =====
-- The methods of the table keep its bucket size.
use dep2p.Base.{
  if_true, if_false, ℕ, zero, suc, ◌-◌, ◌<◌, ◌≡◌, refl, sym, ap, ◌∙◌, inl, inr, Bool, ◌&&◌, Option,
  none, some, length, leb, ltb, ◌==◌, Bool-cases, Option-cases,
}
use dep2p.Keyspace.{PeerId, Primitives}
use dep2p.KBucket.Bucket.{PeerInfo, len, get_peer}
use dep2p.KBucket.Buckets.{split_last}
use dep2p.KBucket.Table.{Diversity, AddResult, bucket_at, change_bucket, notify}
use dep2p.KBucket.Change.{
  Table, next_bucket, split_fuel, push, replace_peer, place_peer, admit, add_peer, new_info,
}
use dep2p.KBucket.Invariant.{IsValid}
use dep2p.KBucket.Invariant.Changes.{home, next_bucket-IsValid}
use dep2p.KBucket.Invariant.Methods.{IsNew, df-IsValid}
use dep2p.KBucket.Invariant.Replacement.{replace_peer_cases}
use dep2p.KBucket.Invariant.Adding.{
  room, room_after, full_after, full, place_peer-Placing, next_bucket-IsNew,
}

module _ (P : Primitives) (D : Diversity) where
  next_bucket_size :
      (fuel : ℕ) (t u : Table P D) → next_bucket P fuel t ≡ some u → t.bucketsize ≡ u.bucketsize
  unfolding next_bucket
  next_bucket_size zero t u e = cc
  next_bucket_size (suc fuel) t u e =
      let t' : Table P D = record t { buckets = split_last P t.local 0 t.buckets } in
      elim (Bool-cases (leb t.bucketsize (len (bucket_at t' (length t'.buckets - 1))))) [
        | inl more ↦ next_bucket_size fuel t' u (sym (if_true _ _ more) ∙ e)
        | inr fits ↦
            let same : some t' ≡ some u = sym (if_false _ _ fits) ∙ e in
            let eq : t' ≡ u = cc in ap (λ (x : Table P D). x.bucketsize) eq
      ]

  replace_size :
      (q : PeerInfo) (t : Table P D)
      → IsValid P t
      → IsNew P D q t
      → (replace_peer P D q t).1.bucketsize ≡ t.bucketsize
  unfolding change_bucket
  replace_size q t v new = elim (replace_peer_cases P D q t v new) [
    | inl (_, e) ↦ rw e refl
    | inr (r, _, _, _, e) ↦ rw e refl
  ]

  Same : ℕ → Option (AddResult × Table P D) → Type 0
  Same n none = ⊥
  Same n (some r) = r.1.bucketsize ≡ n

  place-Same :
      (q : PeerInfo) (t : Table P D)
      → IsValid P t
      → 0 < t.bucketsize
      → IsNew P D q t
      → Same t.bucketsize (place_peer P D q t)
  unfolding Same push change_bucket notify
  place-Same q t v pos new = elim (place_peer-Placing P D q t v pos) [
    | room _ e ↦ rw e refl
    | room_after u _ _ n _ e ↦ rw e (sym (next_bucket_size split_fuel t u n))
    | full_after u _ _ n _ e ↦ rw e (
        replace_size q u (next_bucket-IsValid P split_fuel t u v n)
          (next_bucket-IsNew P D q t v pos u n new)
        ∙ sym (next_bucket_size split_fuel t u n))
    | full _ _ e ↦ rw e (replace_size q t v new)
  ]

  add-Same :
      (now : ℕ) (latency : PeerId → ℕ) (p : PeerId) (mode : ℕ) (query_peer is_replaceable : Bool)
      (t : Table P D)
      → IsValid P t
      → 0 < t.bucketsize
      → Same t.bucketsize (add_peer P D now latency p mode query_peer is_replaceable t)
  unfolding add_peer Same change_bucket
  add-Same now latency p mode query_peer is_replaceable t v pos =
      elim (Option-cases (get_peer (home P t p) p)) [
        | inr (q, e) ↦ elim (Bool-cases (q.last_useful_at == 0 && query_peer)) [
          | inl first ↦ rw (e, add_peer, first) refl
          | inr later ↦ rw (e, add_peer, later) refl
        ]
        | inl e ↦ elim (Bool-cases (ltb t.max_latency (latency p))) [
          | inl slow ↦ rw (e, add_peer, slow) refl
          | inr fast ↦ elim (Bool-cases (admit P D p t.df).0) [
            | inr refused ↦ rw (e, add_peer, fast, refused) refl
            | inl allowed ↦
                rw (e, add_peer, fast, allowed)
                  (place-Same (new_info P now p mode query_peer is_replaceable)
                    (record t { df = (admit P D p t.df).1 }) (df-IsValid P _ t v) pos
                    (record { digest = refl; absent = e }))
          ]
        ]
      ]

  size_of :
      (n : ℕ) (o : Option (AddResult × Table P D)) (r : AddResult × Table P D)
      → o ≡ some r
      → Same n o
      → r.1.bucketsize ≡ n
  unfolding Same
  size_of n none r e h = absurd h
  size_of n (some x) r e h = let same : x ≡ r = cc in rw same at h

  -- Whatever addPeer returns on a valid table has the bucket size of the table.
  pub add_peer-bucketsize :
      (now : ℕ) (latency : PeerId → ℕ) (p : PeerId) (mode : ℕ) (query_peer is_replaceable : Bool)
      (t : Table P D)
      → IsValid P t
      → 0 < t.bucketsize
      → (r : AddResult × Table P D)
      → add_peer P D now latency p mode query_peer is_replaceable t ≡ some r
      → r.1.bucketsize ≡ t.bucketsize
  add_peer-bucketsize now latency p mode query_peer is_replaceable t v pos r e =
      size_of t.bucketsize _ r e (add-Same now latency p mode query_peer is_replaceable t v pos)
