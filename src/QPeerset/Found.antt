-- ===== src/QPeerset/Found.antt =====
-- The peers that a lookup in a peer set returns: in the set, in the states asked for, each once.
use dep2p.Base.{
  ℕ, zero, suc, ◌≡◌, ◌≢◌, refl, sym, ap, ◌∙◌, inl, inr, Bool, true, false, List, [], ◌∷◌, map, some,
  arith, length, take, ◌==◌, if◌then◌else◌, Bool-cases,
}
use dep2p.Base.Predicates.{All, All-imp, All-take, keep, keep-All, keep-holds}
use dep2p.Keyspace.{PeerId}
use dep2p.QPeerset.{
  Space, PeerState, QueryPeerState, QueryPeerset, in_states, same_state, sort, heard, get_state,
  get_closest_n_in_states, get_closest_in_states,
}
use dep2p.QPeerset.States.{Entries, entry, get_state-entry, Distinct, Fresh}
use dep2p.QPeerset.Order.{IsValid, sort-IsValid}
use dep2p.QPeerset.Closest.{closest_n}
use dep2p.QPeerset.Changes.{get_state-sort, same_state-eq}

-- No peer occurs twice.
abbrev pub NoRepeat : List PeerId → Type 0
NoRepeat [] = Unit
NoRepeat (p ∷ ps) = All (λ r. p ≢ r) ps × NoRepeat ps

pub NoRepeat-take : (n : ℕ) (ps : List PeerId) → NoRepeat ps → NoRepeat (take n ps)
NoRepeat-take zero ps h = tt
NoRepeat-take (suc n) [] h = tt
NoRepeat-take (suc n) (p ∷ ps) h = (All-take (λ r. p ≢ r) n ps h.0, NoRepeat-take n ps h.1)

ids_All : (P : PeerId → Type 0) (qs : Entries) → All (λ q. P q.id) qs → All P (map (λ q. q.id) qs)
ids_All P [] h = tt
ids_All P (q ∷ qs) h = (h.0, ids_All P qs h.1)

kept_NoRepeat :
    (test : QueryPeerState → Bool) (qs : Entries)
    → Distinct qs
    → NoRepeat (map (λ q. q.id) (keep test qs))
unfolding keep
kept_NoRepeat test [] d = tt
kept_NoRepeat test (q ∷ qs) d = elim (Bool-cases (test q)) [
  | inr e ↦ rw e (kept_NoRepeat test qs d.1)
  | inl e ↦ rw e (
    ids_All (λ r. q.id ≢ r) (keep test qs)
        (keep-All test (λ x. q.id ≢ x.id) qs
          (All-imp (λ x. x.id ≢ q.id) (λ x. q.id ≢ x.id) (λ x h k. h (sym k)) qs d.0)),
    kept_NoRepeat test qs d.1,
  )
]

take_ids : (n : ℕ) (qs : Entries) → map (λ q. q.id) (take n qs) ≡ take n (map (λ q. q.id) qs)
take_ids zero qs = refl
take_ids (suc n) [] = refl
take_ids (suc n) (q ∷ qs) = ap (◌∷◌ q.id) (take_ids n qs)

-- Each entry of a list without repetition is found by its identity.
entries_found : (qs : Entries) → Distinct qs → All (λ q. entry q.id qs ≡ some q) qs
unfolding entry
entries_found [] d = tt
entries_found (q ∷ qs) d = (ground arith, beyond qs (entries_found qs d.1) d.0)
  where
    beyond :
        (rs : Entries)
        → All (λ r. entry r.id qs ≡ some r) rs
        → Fresh q.id rs
        → All (λ r. (if q.id == r.id then some q else entry r.id qs) ≡ some r) rs
    beyond [] h f = tt
    beyond (r ∷ rs) h f =
        (let ne = f.0 in let found = h.0 in ground (arith, ne, found), beyond rs h.1 f.1)

-- The state of a peer that a lookup for these states returns.
abbrev pub IsIn : List PeerState → PeerState → Type 0
IsIn states s = (q : QueryPeerState) × (q.state ≡ s) × (in_states states q ≡ true)

heard_only : (s : PeerState) → IsIn (heard ∷ []) s → s ≡ heard
unfolding in_states
heard_only s (q, e, i) = elim (Bool-cases (same_state q.state heard)) [
  | inl same ↦ sym e ∙ same_state-eq q.state heard same
  | inr other ↦ let bad : false ≡ true = rw other at i in absurd cc
]

module _ {S : Space} where
  abbrev pub FoundIn : List PeerState → QueryPeerset S → PeerId → Type 0
  FoundIn states qp p = (s : PeerState) × (get_state p qp ≡ some s) × IsIn states s

  kept_found :
      (states : List PeerState) (qp : QueryPeerset S)
      → IsValid qp
      → All (λ q. FoundIn states qp q.id) (keep (in_states states) qp.all)
  kept_found states qp v =
      both (keep (in_states states) qp.all)
        (keep-All (in_states states) (λ q. entry q.id qp.all ≡ some q) qp.all
          (entries_found qp.all v.distinct))
        (keep-holds (in_states states) qp.all)
    where
      both :
          (qs : Entries)
          → All (λ q. entry q.id qp.all ≡ some q) qs
          → All (λ q. in_states states q ≡ true) qs
          → All (λ q. FoundIn states qp q.id) qs
      both [] h k = tt
      both (q ∷ qs) h k =
          ((q.state, rw (get_state-entry q.id qp, h.0) refl, (q, refl, k.0)), both qs h.1 k.1)

  pub closest_found :
      (n : ℕ) (states : List PeerState) (qp : QueryPeerset S)
      → IsValid qp
      → All (FoundIn states qp) (get_closest_n_in_states n states qp).0
        × NoRepeat (get_closest_n_in_states n states qp).0
  closest_found n states qp v =
      let v' : IsValid (sort qp) = sort-IsValid qp v in
      let kept : Entries = keep (in_states states) (sort qp).all in
      let result : (get_closest_n_in_states n states qp).0 ≡ map (λ q. q.id) (take n kept) =
        ap (λ (r : List PeerId × QueryPeerset S). r.0) (closest_n n states qp) in
      rw result (
        ids_All (FoundIn states qp) (take n kept) (
            All-imp (λ q. FoundIn states (sort qp) q.id) (λ q. FoundIn states qp q.id)
              (λ q f. (f.0, sym (get_state-sort q.id qp v) ∙ f.1, f.2)) (take n kept)
              (All-take (λ q. FoundIn states (sort qp) q.id) n kept
                (kept_found states (sort qp) v'))),
        rw (take_ids n kept) (
            NoRepeat-take n (map (λ q. q.id) kept)
              (kept_NoRepeat (in_states states) (sort qp).all v'.distinct)),
      )

  -- The peers that are only heard of, each once.
  pub closest_heard :
      (qp : QueryPeerset S)
      → IsValid qp
      → All (λ p. get_state p qp ≡ some heard) (get_closest_in_states (heard ∷ []) qp).0
        × NoRepeat (get_closest_in_states (heard ∷ []) qp).0
  unfolding get_closest_in_states
  closest_heard qp v =
      let (found, once) = closest_found (length qp.all) (heard ∷ []) qp v in
      (
        All-imp (FoundIn (heard ∷ []) qp) (λ p. get_state p qp ≡ some heard)
            (λ p f. rw (← heard_only f.0 f.2) f.1)
            (get_closest_n_in_states (length qp.all) (heard ∷ []) qp).0 found,
        once,
      )
