-- ===== src/KBucket/Invariant/Absence.antt =====
-- A peer that is not in its own bucket is in none, also after splits.
use dep2p.Base.{
  ℕ, zero, suc, ◌+◌, ◌-◌, ◌<◌, ◌≡◌, ◌≢◌, refl, sym, ◌∙◌, subst, inl, inr, List, [], ◌∷◌, none, some,
  arith, length, get_or, leb, Bool-cases, Option-cases,
}
use dep2p.Base.Predicates.{All}
use dep2p.Keyspace.{PeerId, Bytes, Primitives, common_prefix_len, convert_peer_id}
use dep2p.KBucket.Bucket.{PeerInfo, Bucket, len, get_peer}
use dep2p.KBucket.Bucket.Laws.{get_peer-id, get_peer-All}
use dep2p.KBucket.Buckets.{slot, split_last}
use dep2p.KBucket.Buckets.Laws.{get_or-All, split_last-All, get_peer-split}
use dep2p.KBucket.Table.{RoutingTable, bucket_at, bucket_id_for_peer}
use dep2p.KBucket.Change.{next_bucket}
use dep2p.KBucket.Invariant.{IsAt, IsFrom, Placed, IsValid}
use dep2p.KBucket.Invariant.Placement.{slot_last, slot_first, slot-suc}
use dep2p.KBucket.Invariant.Changes.{cpl_of, home}

abbrev pub Absent : PeerId → List Bucket → Type 0
Absent p = All (λ b. get_peer b p ≡ none)

module _ (P : Primitives) (local : Bytes) (p : PeerId) where
  abbrev own : ℕ
  own = common_prefix_len P (convert_peer_id P p) local

  -- Peers of another prefix have other identities.
  other_prefix :
      (Q : PeerInfo → Type 0) (b : Bucket)
      → All Q b
      → ((q : PeerInfo) → q.id ≡ p → Q q → ⊥)
      → get_peer b p ≡ none
  other_prefix Q b h not = elim (Option-cases (get_peer b p)) [
    | inl e ↦ e
    | inr (q, e) ↦ absurd (not q (get_peer-id b p q e) (get_peer-All Q b p h e))
  ]

  at_other : (i : ℕ) (b : Bucket) → i ≢ own → All (IsAt P local i) b → get_peer b p ≡ none
  at_other i b ne h = other_prefix (IsAt P local i) b h λ q e k. ne (sym k.1 ∙ rw (k.0, e))

  beyond : (i : ℕ) (bs : List Bucket) → own < i → Placed P local i bs → Absent p bs
  beyond i [] lt h = tt
  beyond i (b ∷ []) lt h = (
    other_prefix (IsFrom P local i) b h
        (λ q e k. let same : common_prefix_len P q.dht_id local ≡ own = rw (k.0, e) in omega arith),
    tt,
  )
  beyond i (b ∷ c ∷ bs) lt h =
      (at_other i b (omega arith) h.0, beyond (suc i) (c ∷ bs) (omega arith) h.1)

  pub Absent-everywhere :
      (k i : ℕ) (bs : List Bucket)
      → i + k ≡ own
      → Placed P local i bs
      → get_peer (get_or bs (slot (length bs) k) []) p ≡ none
      → Absent p bs
  Absent-everywhere k i [] e h a = tt
  Absent-everywhere k i (b ∷ []) e h a = (rw (slot_last k) at a, tt)
  Absent-everywhere zero i (b ∷ c ∷ bs) e h a =
      (rw (slot_first (length bs)) at a, beyond (suc i) (c ∷ bs) (omega arith) h.1)
  Absent-everywhere (suc k) i (b ∷ c ∷ bs) e h a = (
    at_other i b (omega arith) h.0,
    Absent-everywhere k (suc i) (c ∷ bs) (omega arith) h.1 (rw (slot-suc (length bs) k) at a),
  )

module _ (P : Primitives) {S : Type 0} (p : PeerId) where
  pub Absent-of_home :
      (t : RoutingTable S) → IsValid P t → get_peer (home P t p) p ≡ none → Absent p t.buckets
  unfolding bucket_id_for_peer bucket_at
  Absent-of_home t v a =
      Absent-everywhere P t.local p (cpl_of P t p) 0 t.buckets (omega arith) v.placed a

  pub home_of_Absent : (t : RoutingTable S) → Absent p t.buckets → get_peer (home P t p) p ≡ none
  unfolding bucket_at get_peer
  home_of_Absent t a =
      get_or-All (λ b. get_peer b p ≡ none) (bucket_id_for_peer P t p) [] t.buckets a refl

  pub next_bucket-Absent :
      (fuel : ℕ) (t u : RoutingTable S)
      → next_bucket P fuel t ≡ some u
      → Absent p t.buckets
      → Absent p u.buckets
  unfolding next_bucket
  next_bucket-Absent zero t u e a = cc
  next_bucket-Absent (suc fuel) t u e a =
      let t' : RoutingTable S = record t { buckets = split_last P t.local 0 t.buckets } in
      let a' : Absent p t'.buckets =
        split_last-All P t.local (λ b. get_peer b p ≡ none) (λ i b. get_peer-split P t.local i b p)
          0 t.buckets a in
      elim (Bool-cases (leb t.bucketsize (len (bucket_at t' (length t'.buckets - 1))))) [
        | inl more ↦ next_bucket-Absent fuel t' u (rw more at e) a'
        | inr done ↦
            let same : t' ≡ u = ground arith in
            subst (λ (x : RoutingTable S). Absent p x.buckets) same a'
      ]
