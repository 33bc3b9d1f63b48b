-- ===== src/KBucket/Invariant/Others.antt =====
-- `removePeer` leaves the other peers of the table where they can be found.
use dep2p.Base.{ℕ, zero, suc, ◌≡◌, ◌≢◌, ◌↔◌, ◌∙◌, refl, sym, inl, inr, List, [], ◌∷◌, none, length}
use dep2p.Keyspace.{PeerId, Primitives}
use dep2p.KBucket.Bucket
use dep2p.KBucket.Bucket.{Bucket, get_peer}
use dep2p.KBucket.Bucket.Laws.{get_peer-remove_ne}
use dep2p.KBucket.Buckets.{modify}
use dep2p.KBucket.Table.{Diversity, bucket_id_for_peer, change_bucket, notify}
use dep2p.KBucket.Change.{Table, remove_peer}
use dep2p.KBucket.Invariant.Trimming.{Trims, drop_last, drop_before, later, trim-keeps}
use dep2p.KBucket.Invariant.Methods.{remove_peer_cases}
use dep2p.KBucket.Invariant.Absence.{Absent}

module _ (k : PeerId) where
  modify-Absent :
      (i : ℕ) (f : Bucket → Bucket) (bs : List Bucket)
      → ((b : Bucket) → get_peer (f b) k ≡ get_peer b k)
      → Absent k (modify i f bs) ↔ Absent k bs
  unfolding modify
  modify-Absent i f [] same = (λ h. h, λ h. h)
  modify-Absent zero f (b ∷ bs) same = (λ h. (sym (same b) ∙ h.0, h.1), λ h. (same b ∙ h.0, h.1))
  modify-Absent (suc i) f (b ∷ bs) same =
      let (there, back) = modify-Absent i f bs same in (λ h. (h.0, there h.1), λ h. (h.0, back h.1))

  empty : (b : Bucket) → b ≡ [] → get_peer b k ≡ none
  unfolding get_peer
  empty b e = rw e refl

  Trims-Absent : {bs bs' : List Bucket} → Trims bs bs' → Absent k bs' ↔ Absent k bs
  Trims-Absent (drop_last b c e) = (λ h. (h.0, (empty c e, tt)), λ h. (h.0, tt))
  Trims-Absent (drop_before b c e) = (λ h. (empty b e, h), λ h. h.1)
  Trims-Absent (later b t) =
      let (there, back) = Trims-Absent t in (λ h. (h.0, there h.1), λ h. (h.0, back h.1))

module _ (P : Primitives) (D : Diversity) (p k : PeerId) (t : Table P D) where
  -- A peer other than the removed one is in the table after `removePeer` exactly if it was before.
  pub remove_peer_others : k ≢ p → Absent k (remove_peer P D p t).1.buckets ↔ Absent k t.buckets
  unfolding notify change_bucket
  remove_peer_others ne = elim (remove_peer_cases P D p t) [
    | inl (_, e) ↦ rw e (λ h. h, λ h. h)
    | inr (q, found, e) ↦
        let i = bucket_id_for_peer P t p in
        let bs = modify i (λ b. (Bucket.remove p b).1) t.buckets in
        let taken =
          modify-Absent k i (λ b. (Bucket.remove p b).1) t.buckets
            (λ b. get_peer-remove_ne p k b ne) in
        let trimmed =
          trim-keeps (λ xs. Absent k xs ↔ Absent k bs)
            (λ xs ys s h. (λ a. h.0 ((Trims-Absent k s).0 a), λ a. (Trims-Absent k s).1 (h.1 a)))
            (length t.buckets) bs (λ h. h, λ h. h) in
        rw e (λ a. taken.0 (trimmed.0 a), λ a. trimmed.1 (taken.1 a))
  ]
