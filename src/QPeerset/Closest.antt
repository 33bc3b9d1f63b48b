-- ===== src/QPeerset/Closest.antt =====
-- What the lookups of a peer set return: the nearest peers in the given states, and their number.
use mathlib.Core.List.{Perm}
use mathlib.Core.List.Perm
use dep2p.Base.{
  ℕ, ◌≤◌, ◌≡◌, ◌≢◌, refl, ap, subst, ◌∙◌, inl, inr, true, List, [], ◌∷◌, ◌++◌, map, some, arith,
  length, take, drop, min, Bool-cases, Option-cases, take-append-drop, length-take, length-map,
}
use dep2p.Base.Predicates.{keep, length-keep-le}
use dep2p.Base.Sorting.{IsSorted, AllBefore, take-AllBefore-drop, take-IsSorted}
use dep2p.Base.Kept.{keep-sort, keep-IsSorted, length-keep-sort, cut_map}
use dep2p.Keyspace.{PeerId}
use dep2p.QPeerset.{
  Space, PeerState, QueryPeerset, in_states, less_distance, sort, heard, waiting,
  get_closest_n_in_states, get_closest_in_states, num_heard, num_waiting, get_state, set_state,
}
use dep2p.QPeerset.States.{
  Entries, entry, update, set_to, get_state-entry, set_state-entry, set_state-absent,
  entry-update_self, entry-update_ne,
}
use dep2p.QPeerset.Order.{
  less_distance-IsOrder, IsValid, sort-IsValid, sort-entry, sort_done, sort_new,
}

-- The number of entries in one of the states.
abbrev pub count : List PeerState → Entries → ℕ
count states qs = length (keep (in_states states) qs)

module _ {S : Space} where
  sort-Perm :
      (states : List PeerState) (qp : QueryPeerset S)
      → Perm (keep (in_states states) (sort qp).all) (keep (in_states states) qp.all)
  sort-Perm states qp = elim (Bool-cases qp.sorted) [
    | inl e ↦ rw (sort_done qp e) (Perm.refl _)
    | inr e ↦ rw (sort_new qp e) (keep-sort (in_states states) less_distance qp.all)
  ]

  pub count-sort :
      (states : List PeerState) (qp : QueryPeerset S)
      → count states (sort qp).all ≡ count states qp.all
  count-sort states qp = elim (Bool-cases qp.sorted) [
    | inl e ↦ rw (sort_done qp e) refl
    | inr e ↦ rw (sort_new qp e) (length-keep-sort (in_states states) less_distance qp.all)
  ]

  sorted_after : (qp : QueryPeerset S) → (sort qp).sorted ≡ true
  sorted_after qp = elim (Bool-cases qp.sorted) [
    | inl e ↦ rw (sort_done qp e) e
    | inr e ↦ rw (sort_new qp e) refl
  ]

  -- The lookup's result, and the set that it leaves.
  pub closest_n :
      (n : ℕ) (states : List PeerState) (qp : QueryPeerset S)
      → get_closest_n_in_states n states qp
        ≡ (map (λ q. q.id) (take n (keep (in_states states) (sort qp).all)), sort qp)
  unfolding get_closest_n_in_states
  closest_n n states qp =
      ap (λ r. (r, sort qp)) (cut_map (λ q. q.id) n (keep (in_states states) (sort qp).all))

  -- For a valid set, `GetClosestNInStates` returns the identities of at most n peers in the given
  -- states, in the order of their distance to the key, and none of the set's other peers in these
  -- states is nearer than one of them.
  pub get_closest_n_in_states-nearest :
      (n : ℕ) (states : List PeerState) (qp : QueryPeerset S)
      → IsValid qp
      → (near : Entries) × (far : Entries) × Perm (near ++ far) (keep (in_states states) qp.all)
        × ((get_closest_n_in_states n states qp).0 ≡ map (λ q. q.id) near)
        × IsSorted less_distance near
        × AllBefore less_distance near far
        × (length near ≡ min n (count states qp.all))
  get_closest_n_in_states-nearest n states qp v =
      let kept : Entries = keep (in_states states) (sort qp).all in
      let ordered : IsSorted less_distance kept =
        keep-IsSorted (in_states states) less_distance (sort qp).all
          ((sort-IsValid qp v).in_order (sorted_after qp)) in
      (
        take n kept,
        drop n kept,
        rw (take-append-drop n kept) (sort-Perm states qp),
        ap (λ (r : List PeerId × QueryPeerset S). r.0) (closest_n n states qp),
        take-IsSorted less_distance less_distance-IsOrder n kept ordered,
        take-AllBefore-drop less_distance less_distance-IsOrder n kept ordered,
        length-take n kept ∙ ap (min n) (count-sort states qp),
      )

  pub closest_all :
      (states : List PeerState) (qp : QueryPeerset S)
      → length (get_closest_in_states states qp).0 ≡ count states qp.all
  unfolding get_closest_in_states
  closest_all states qp =
      let kept : Entries = keep (in_states states) (sort qp).all in
      let e =
        ap (λ (r : List PeerId × QueryPeerset S). length r.0)
          (closest_n (length qp.all) states qp) in
      let most : count states qp.all ≤ length qp.all = length-keep-le (in_states states) qp.all in
      e
      ∙ length-map (take (length qp.all) kept) (λ q. q.id)
      ∙ omega (arith, length-take (length qp.all) kept, count-sort states qp, most)

  -- `NumHeard` counts the peers of the set that are heard of, and sorts the set.
  pub num_heard_lem : (qp : QueryPeerset S) → num_heard qp ≡ (count (heard ∷ []) qp.all, sort qp)
  unfolding num_heard get_closest_in_states get_closest_n_in_states
  num_heard_lem qp = ap (λ k. (k, sort qp)) (closest_all (heard ∷ []) qp)

  -- `NumWaiting` counts the peers of the set that wait, and sorts the set.
  pub num_waiting_lem :
      (qp : QueryPeerset S) → num_waiting qp ≡ (count (waiting ∷ []) qp.all, sort qp)
  unfolding num_waiting get_closest_in_states get_closest_n_in_states
  num_waiting_lem qp = ap (λ k. (k, sort qp)) (closest_all (waiting ∷ []) qp)

  pub entry-sort :
      (p : PeerId) (qp : QueryPeerset S) → IsValid qp → entry p (sort qp).all ≡ entry p qp.all
  entry-sort p qp v = elim (Bool-cases qp.sorted) [
    | inl e ↦ rw (sort_done qp e) refl
    | inr e ↦ rw (sort_new qp e) (sort-entry less_distance p qp.all v.distinct)
  ]

  -- After a `SetState` that finds its peer, the peer has the new state, and every other peer has the
  -- state that it had, or is still missing.
  pub get_state-set_state :
      (p : PeerId) (s : PeerState) (qp u : QueryPeerset S)
      → set_state p s qp ≡ some u
      → (get_state p u ≡ some s) × ((r : PeerId) → p ≢ r → get_state r u ≡ get_state r qp)
  get_state-set_state p s qp u e = elim (Option-cases (entry p qp.all)) [
    | inl gone ↦ let stop = set_state-absent p s qp gone in absurd cc
    | inr (q, found) ↦
        let w : QueryPeerset S = record qp { all = update (set_to s) p qp.all } in
        let done = set_state-entry p s qp q found in
        let same : w ≡ u = cc in
        subst
          (λ (x : QueryPeerset S).
            (get_state p x ≡ some s) × ((r : PeerId) → p ≢ r → get_state r x ≡ get_state r qp))
          same
          (
            rw (get_state-entry p w, entry-update_self (set_to s) (λ q. refl) p qp.all q found)
                refl,
            λ r ne.
                rw
                  (
                    get_state-entry r w,
                    get_state-entry r qp,
                    entry-update_ne (set_to s) (λ q. refl) p r qp.all ne,
                  )
                  refl,
          )
  ]
