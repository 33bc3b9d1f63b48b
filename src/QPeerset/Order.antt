-- ===== src/QPeerset/Order.antt =====
-- The order of a peer set, and what holds of the set between calls.
use dep2p.Base.{
  ℕ, ◌≡◌, ◌≢◌, refl, sym, subst, ◌∙◌, inl, inr, Bool, true, false, [], ◌∷◌, ◌++◌, some, arith,
  if_true, if_false, ◌==◌, Bool-cases, Option-cases,
}
use dep2p.Base.Predicates.{All, All-append}
use dep2p.Base.Sorting
use dep2p.Base.Sorting.{
  IsOrder, IsSorted, AllBefore, sort-IsSorted, sort-All, insert-All, take-AllBefore-drop,
  take-IsSorted,
}
use dep2p.Keyspace.{PeerId}
use dep2p.QPeerset.{
  Space, PeerState, QueryPeerState, QueryPeerset, less_distance, set_state, sort, try_add,
  distance_to_key, new_query_peerset,
}
use dep2p.QPeerset.States.{
  Entries, entry, update, Fresh, Distinct, set_to, new_entry, update-Distinct, Fresh-of_entry,
  set_state-entry, set_state-absent, try_add-present, try_add-absent,
}

pub less_distance-IsOrder : IsOrder less_distance
unfolding less_distance
less_distance-IsOrder = record { asym = λ a b h. ground arith; trans = λ a b c h k. ground arith }

module _ (lt : QueryPeerState → QueryPeerState → Bool) where
  insert-Distinct :
      (q : QueryPeerState) (qs : Entries)
      → Fresh q.id qs
      → Distinct qs
      → Distinct (Sorting.insert lt q qs)
  unfolding Sorting.insert
  insert-Distinct q [] f d = (tt, tt)
  insert-Distinct q (r ∷ qs) f d = elim (Bool-cases (lt r q)) [
    | inl e ↦
        rw e (
          insert-All lt (λ x. x.id ≢ r.id) q qs (λ h. f.0 (sym h)) d.0,
          insert-Distinct q qs f.1 d.1,
        )
    | inr e ↦ rw e (f, d)
  ]

  pub sort-Distinct : (qs : Entries) → Distinct qs → Distinct (Sorting.sort lt qs)
  unfolding Sorting.sort
  sort-Distinct [] d = tt
  sort-Distinct (q ∷ qs) d =
      insert-Distinct q (Sorting.sort lt qs) (sort-All lt (λ x. x.id ≢ q.id) qs d.0)
        (sort-Distinct qs d.1)

  insert-entry :
      (p : PeerId) (q : QueryPeerState) (qs : Entries)
      → Fresh q.id qs
      → entry p (Sorting.insert lt q qs) ≡ entry p (q ∷ qs)
  unfolding Sorting.insert entry
  insert-entry p q [] f = refl
  insert-entry p q (r ∷ qs) f = elim (Bool-cases (lt r q)) [
    | inr e ↦ rw e refl
    | inl e ↦ let ne = f.0 in let rest = insert-entry p q qs f.1 in rw e (ground (arith, ne, rest))
  ]

  -- Sorting changes no entry.
  pub sort-entry :
      (p : PeerId) (qs : Entries) → Distinct qs → entry p (Sorting.sort lt qs) ≡ entry p qs
  unfolding Sorting.sort entry
  sort-entry p [] d = refl
  sort-entry p (q ∷ qs) d =
      insert-entry p q (Sorting.sort lt qs) (sort-All lt (λ x. x.id ≢ q.id) qs d.0)
      ∙ rw (sort-entry p qs d.1) refl

-- What holds of a set between calls: no peer twice, the distances are those to the key, and the
-- list is in their order where it says so.
pub record IsValid {S : Space} (qp : QueryPeerset S) : Type 0 where
  pub distinct : Distinct qp.all
  pub distances : All (λ q. q.distance ≡ distance_to_key qp q.id) qp.all
  pub in_order : qp.sorted ≡ true → IsSorted less_distance qp.all

append-Distinct :
    (qs : Entries) (q : QueryPeerState) → Distinct qs → Fresh q.id qs → Distinct (qs ++ (q ∷ []))
append-Distinct [] q d f = (tt, tt)
append-Distinct (r ∷ qs) q d f = (
  All-append (λ x. x.id ≢ r.id) qs (q ∷ []) d.0 ((λ h. f.0 (sym h)), tt),
  append-Distinct qs q d.1 f.1,
)

module _ (p : PeerId) (s : PeerState) where
  -- A change of a state keeps what does not speak of it.
  update-All :
      (Q : QueryPeerState → Type 0)
      → ((q : QueryPeerState) → Q q → Q (set_to s q))
      → (qs : Entries) → All Q qs
      → All Q (update (set_to s) p qs)
  unfolding update
  update-All Q f [] h = tt
  update-All Q f (q ∷ qs) h = elim (Bool-cases (q.id == p)) [
    | inl e ↦ rw e (f q h.0, h.1)
    | inr e ↦ rw e (h.0, update-All Q f qs h.1)
  ]

  update-IsSorted :
      (qs : Entries) → IsSorted less_distance qs → IsSorted less_distance (update (set_to s) p qs)
  unfolding update less_distance
  update-IsSorted [] h = tt
  update-IsSorted (q ∷ qs) h = elim (Bool-cases (q.id == p)) [
    | inl e ↦ rw e h
    | inr e ↦
        rw e (update-All (λ y. less_distance y q ≡ false) (λ y k. k) qs h.0, update-IsSorted qs h.1)
  ]

module _ {S : Space} where
  pub new_query_peerset-IsValid : (key : ℕ) → IsValid (new_query_peerset S key)
  unfolding new_query_peerset
  new_query_peerset-IsValid key = record { distinct = tt; distances = tt; in_order = λ h. tt }

  pub sort_done : (qp : QueryPeerset S) → qp.sorted ≡ true → sort qp ≡ qp
  unfolding sort
  sort_done qp e = if_true _ _ e

  pub sort_new :
      (qp : QueryPeerset S)
      → qp.sorted ≡ false
      → sort qp ≡ record qp { all = Sorting.sort less_distance qp.all; sorted = true }
  unfolding sort
  sort_new qp e = if_false _ _ e

  pub sort-IsValid : (qp : QueryPeerset S) → IsValid qp → IsValid (sort qp)
  unfolding distance_to_key
  sort-IsValid qp v = elim (Bool-cases qp.sorted) [
    | inl e ↦ rw (sort_done qp e) v
    | inr e ↦ rw (sort_new qp e) (record {
      distinct = sort-Distinct less_distance qp.all v.distinct;
      distances =
          sort-All less_distance (λ q. q.distance ≡ distance_to_key qp q.id) qp.all v.distances;
      in_order = λ h. sort-IsSorted less_distance less_distance-IsOrder qp.all;
    })
  ]

  -- `TryAdd` keeps a valid set valid, for a peer of the set and for a new one.
  pub try_add-IsValid :
      (p r : PeerId) (qp : QueryPeerset S) → IsValid qp → IsValid (try_add p r qp).1
  unfolding distance_to_key
  try_add-IsValid p r qp v = elim (Option-cases (entry p qp.all)) [
    | inr (q, e) ↦ rw (try_add-present p r qp q e) v
    | inl e ↦ rw (try_add-absent p r qp e) (record {
      distinct = append-Distinct qp.all (new_entry p r qp) v.distinct (Fresh-of_entry p qp.all e);
      distances =
          All-append (λ q. q.distance ≡ distance_to_key qp q.id) qp.all (new_entry p r qp ∷ [])
            v.distances (refl, tt);
      in_order = λ h. absurd cc;
    })
  ]

  -- A `SetState` that finds its peer keeps a valid set valid: also its order, which holds no states.
  pub set_state-IsValid :
      (p : PeerId) (s : PeerState) (qp u : QueryPeerset S)
      → IsValid qp
      → set_state p s qp ≡ some u
      → IsValid u
  unfolding distance_to_key
  set_state-IsValid p s qp u v e = elim (Option-cases (entry p qp.all)) [
    | inl gone ↦ let stop = set_state-absent p s qp gone in absurd cc
    | inr (q, found) ↦
        let w : QueryPeerset S = record qp { all = update (set_to s) p qp.all } in
        let done = set_state-entry p s qp q found in
        let same : w ≡ u = cc in
        subst (λ (x : QueryPeerset S). IsValid x) same
          (record {
            distinct = update-Distinct (set_to s) (λ q. refl) p qp.all v.distinct;
            distances =
                update-All p s (λ q. q.distance ≡ distance_to_key qp q.id) (λ q h. h) qp.all
                  v.distances;
            in_order = λ h. update-IsSorted p s qp.all (v.in_order h);
          })
  ]
