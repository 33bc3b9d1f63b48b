-- ===== src/KBucket/Invariant/Filtering.antt =====
-- What the calls of the filter keep, the methods of the table keep for the table's filter.
use dep2p.Base.{
  if_true, if_false, ℕ, zero, suc, ◌-◌, ◌<◌, ◌≡◌, refl, sym, ap, ◌∙◌, subst, inl, inr, Bool, ◌&&◌,
  Option, none, some, length, leb, ltb, ◌==◌, Bool-cases, Option-cases,
}
use dep2p.Keyspace.{PeerId, Primitives}
use dep2p.KBucket.Bucket.{PeerInfo, len, get_peer}
use dep2p.KBucket.Buckets.{split_last}
use dep2p.KBucket.Table.{Diversity, AddResult, bucket_at, notify}
use dep2p.KBucket.Change.{
  Table, next_bucket, split_fuel, push, replace_peer, place_peer, admit, add_peer, remove_peer,
  new_info, forget,
}
use dep2p.KBucket.Invariant.{IsValid}
use dep2p.KBucket.Invariant.Changes.{home, next_bucket-IsValid}
use dep2p.KBucket.Invariant.Methods.{IsNew, df-IsValid, remove_peer_cases}
use dep2p.KBucket.Invariant.Replacement.{replace_peer_cases}
use dep2p.KBucket.Invariant.Adding.{
  room, room_after, full_after, full, place_peer-Placing, next_bucket-IsNew,
}

-- A property of the filter that each of its two calls keeps.
pub record IsKept (D : Diversity) (Q : D.State → Type 0) : Type 0 where
  pub by_add : (s : D.State) (p : PeerId) → Q s → Q (D.try_add s p).1
  pub by_remove : (s : D.State) (p : PeerId) → Q s → Q (D.remove s p)

module _ (P : Primitives) (D : Diversity) (Q : D.State → Type 0) (kept : IsKept D Q) where
  -- It holds of the filter of the table, if there is one.
  abbrev pub OfFilter : Option D.State → Type 0
  OfFilter none = Unit
  OfFilter (some s) = Q s

  forget_kept : (p : PeerId) (o : Option D.State) → OfFilter o → OfFilter (forget P D p o)
  unfolding forget
  forget_kept p none h = tt
  forget_kept p (some s) h = kept.by_remove s p h

  admit_kept : (p : PeerId) (o : Option D.State) → OfFilter o → OfFilter (admit P D p o).1
  unfolding admit
  admit_kept p none h = tt
  admit_kept p (some s) h = kept.by_add s p h

  next_bucket_same : (fuel : ℕ) (t u : Table P D) → next_bucket P fuel t ≡ some u → t.df ≡ u.df
  unfolding next_bucket
  next_bucket_same zero t u e = cc
  next_bucket_same (suc fuel) t u e =
      let t' : Table P D = record t { buckets = split_last P t.local 0 t.buckets } in
      elim (Bool-cases (leb t.bucketsize (len (bucket_at t' (length t'.buckets - 1))))) [
        | inl more ↦ next_bucket_same fuel t' u (sym (if_true _ _ more) ∙ e)
        | inr fits ↦
            let same : some t' ≡ some u = sym (if_false _ _ fits) ∙ e in
            let eq : t' ≡ u = cc in ap (λ (x : Table P D). x.df) eq
      ]

  -- Removing a peer keeps what the filter's calls keep.
  pub remove_peer-filter :
      (p : PeerId) (t : Table P D) → OfFilter t.df → OfFilter (remove_peer P D p t).1.df
  unfolding notify
  remove_peer-filter p t h = elim (remove_peer_cases P D p t) [
    | inl (_, e) ↦ rw e h
    | inr (q, _, e) ↦ rw e (forget_kept p t.df h)
  ]

  replace_kept :
      (q : PeerInfo) (t : Table P D)
      → IsValid P t
      → IsNew P D q t
      → OfFilter t.df
      → OfFilter (replace_peer P D q t).1.df
  replace_kept q t v new h = elim (replace_peer_cases P D q t v new) [
    | inl (_, e) ↦ rw e (forget_kept q.id t.df h)
    | inr (r, _, _, _, e) ↦ rw e (forget_kept r.id t.df h)
  ]

  Kept : Option (AddResult × Table P D) → Type 0
  Kept none = ⊥
  Kept (some r) = OfFilter r.1.df

  place-Kept :
      (q : PeerInfo) (t : Table P D)
      → IsValid P t
      → 0 < t.bucketsize
      → IsNew P D q t
      → OfFilter t.df
      → Kept (place_peer P D q t)
  unfolding Kept push
  place-Kept q t v pos new h = elim (place_peer-Placing P D q t v pos) [
    | room _ e ↦ rw e h
    | room_after u _ _ n _ e ↦ rw e (subst OfFilter (next_bucket_same split_fuel t u n) h)
    | full_after u _ _ n _ e ↦ rw e (
        replace_kept q u (next_bucket-IsValid P split_fuel t u v n)
          (next_bucket-IsNew P D q t v pos u n new)
          (subst OfFilter (next_bucket_same split_fuel t u n) h))
    | full _ _ e ↦ rw e (replace_kept q t v new h)
  ]

  add-Kept :
      (now : ℕ) (latency : PeerId → ℕ) (p : PeerId) (mode : ℕ) (query_peer is_replaceable : Bool)
      (t : Table P D)
      → IsValid P t
      → 0 < t.bucketsize
      → OfFilter t.df
      → Kept (add_peer P D now latency p mode query_peer is_replaceable t)
  unfolding add_peer Kept
  add-Kept now latency p mode query_peer is_replaceable t v pos h =
      elim (Option-cases (get_peer (home P t p) p)) [
        | inr (q, e) ↦ elim (Bool-cases (q.last_useful_at == 0 && query_peer)) [
          | inl first ↦ rw (e, add_peer, first) h
          | inr later ↦ rw (e, add_peer, later) h
        ]
        | inl e ↦ elim (Bool-cases (ltb t.max_latency (latency p))) [
          | inl slow ↦ rw (e, add_peer, slow) h
          | inr fast ↦
              let admitted = admit_kept p t.df h in
              elim (Bool-cases (admit P D p t.df).0) [
                | inr refused ↦ rw (e, add_peer, fast, refused) admitted
                | inl allowed ↦
                    rw (e, add_peer, fast, allowed)
                      (place-Kept (new_info P now p mode query_peer is_replaceable)
                        (record t { df = (admit P D p t.df).1 }) (df-IsValid P _ t v) pos
                        (record { digest = refl; absent = e }) admitted)
              ]
        ]
      ]

  result-Kept :
      (o : Option (AddResult × Table P D))
      → Kept o
      → (r : AddResult × Table P D) × (o ≡ some r) × OfFilter r.1.df
  unfolding Kept
  result-Kept none h = absurd h
  result-Kept (some r) h = (r, refl, h)

  -- On a valid table addPeer returns, and what the two calls of the filter keep holds of the
  -- table's filter afterwards if it held before, whichever way addPeer went.
  pub add_peer-filter :
      (now : ℕ) (latency : PeerId → ℕ) (p : PeerId) (mode : ℕ) (query_peer is_replaceable : Bool)
      (t : Table P D)
      → IsValid P t
      → 0 < t.bucketsize
      → OfFilter t.df
      → (r : AddResult × Table P D) × (add_peer P D now latency p mode query_peer is_replaceable t
          ≡ some r)
        × OfFilter r.1.df
  add_peer-filter now latency p mode query_peer is_replaceable t v pos h =
      result-Kept _ (add-Kept now latency p mode query_peer is_replaceable t v pos h)
