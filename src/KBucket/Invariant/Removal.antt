-- ===== src/KBucket/Invariant/Removal.antt =====
-- After `removePeer` its peer is gone.
use dep2p.Base.{◌<◌, ◌≡◌, inl, inr, List, [], ◌∷◌, none, arith, length}
use dep2p.Keyspace.{PeerId, Primitives}
use dep2p.KBucket.Bucket
use dep2p.KBucket.Bucket.{Bucket, PeerInfo, get_peer}
use dep2p.KBucket.Bucket.Laws.{remove-All, remove-Distinct, length-remove-le, get_peer-remove_self}
use dep2p.KBucket.Buckets.Laws.{length-modify, get_or-modify}
use dep2p.KBucket.Table.{Diversity, bucket_at, bucket_id_for_peer, change_bucket, notify}
use dep2p.KBucket.Change.{Table, remove_peer}
use dep2p.KBucket.Invariant.{IsValid, Placed}
use dep2p.KBucket.Invariant.Placement.{slot-lt-length}
use dep2p.KBucket.Invariant.Trimming.{trim-keeps, Trims-All}
use dep2p.KBucket.Invariant.Changes.{home, cpl_of, home-Distinct, shrink-IsValid}
use dep2p.KBucket.Invariant.Methods.{remove_peer_cases}
use dep2p.KBucket.Invariant.Absence.{Absent, Absent-of_home}

module _ (P : Primitives) (D : Diversity) (p : PeerId) (t : Table P D) (v : IsValid P t) where
  abbrev taken_out : Table P D
  taken_out = change_bucket (bucket_id_for_peer P t p) (λ b. (Bucket.remove p b).1) t

  nonempty : (bs : List Bucket) → Placed P t.local 0 bs → 0 < length bs
  nonempty [] h = absurd h
  nonempty (b ∷ bs) h = omega arith

  -- Its bucket in the changed list.
  own_bucket : home P taken_out p ≡ (Bucket.remove p (home P t p)).1
  unfolding bucket_at change_bucket bucket_id_for_peer
  own_bucket =
      rw (length-modify (bucket_id_for_peer P t p) (λ b. (Bucket.remove p b).1) t.buckets) (
        get_or-modify (bucket_id_for_peer P t p) (λ b. (Bucket.remove p b).1) [] t.buckets
          (slot-lt-length (length t.buckets) (cpl_of P t p) (nonempty t.buckets v.placed)))

  -- After `removePeer` on a valid table its peer is in no bucket, whether or not it was in one.
  pub remove_peer-Absent : Absent p (remove_peer P D p t).1.buckets
  unfolding notify
  remove_peer-Absent = elim (remove_peer_cases P D p t) [
    | inl (gone, e) ↦ rw e (Absent-of_home P p t v gone)
    | inr (q, found, e) ↦
        let vc : IsValid P taken_out =
          shrink-IsValid P t p v (λ b. (Bucket.remove p b).1) (λ Q b. remove-All Q p b)
            (length-remove-le p (home P t p))
            (remove-Distinct p (home P t p) (home-Distinct P t p v)) in
        let gone : get_peer (home P taken_out p) p ≡ none =
          rw own_bucket (get_peer-remove_self p (home P t p) (home-Distinct P t p v)) in
        rw e (
          trim-keeps (Absent p) (λ xs ys s h. Trims-All (λ b. get_peer b p ≡ none) s h)
            (length t.buckets) taken_out.buckets (Absent-of_home P p taken_out vc gone))
  ]
