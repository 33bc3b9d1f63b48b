-- ===== src/QPeerset/Changes.antt =====
-- What the operations of a peer set do to the states of its peers, and to their numbers.
use dep2p.Base.{
  ℕ, ◌+◌, ◌≡◌, ◌≢◌, refl, sym, ◌∙◌, inl, inr, true, false, [], ◌∷◌, ◌++◌, none, some, arith, ◌==◌,
  if◌then◌else◌, Bool-cases, Option-cases,
}
use dep2p.Base.Predicates.{keep}
use dep2p.Keyspace.{PeerId}
use dep2p.QPeerset.{
  Space, PeerState, QueryPeerState, QueryPeerset, in_states, same_state, sort, heard, waiting,
  queried, unreachable, get_state, set_state, try_add,
}
use dep2p.QPeerset.States.{
  Entries, entry, update, set_to, new_entry, get_state-entry, set_state-entry, try_add-present,
  try_add-absent,
}
use dep2p.QPeerset.Order.{IsValid, set_state-IsValid}
use dep2p.QPeerset.Closest.{count, entry-sort}

pub same_state-eq : (s t : PeerState) → same_state s t ≡ true → s ≡ t
unfolding same_state
same_state-eq heard heard e = refl
same_state-eq waiting waiting e = refl
same_state-eq queried queried e = refl
same_state-eq unreachable unreachable e = refl
same_state-eq heard waiting e = cc
same_state-eq heard queried e = cc
same_state-eq heard unreachable e = cc
same_state-eq waiting heard e = cc
same_state-eq waiting queried e = cc
same_state-eq waiting unreachable e = cc
same_state-eq queried heard e = cc
same_state-eq queried waiting e = cc
same_state-eq queried unreachable e = cc
same_state-eq unreachable heard e = cc
same_state-eq unreachable waiting e = cc
same_state-eq unreachable queried e = cc

-- 1 for a peer that waits.
abbrev pub weight : PeerState → ℕ
weight s = if same_state s waiting then 1 else 0

abbrev pub number : Entries → ℕ
number = count (waiting ∷ [])

number-cons : (q : QueryPeerState) (qs : Entries) → number (q ∷ qs) ≡ weight q.state + number qs
unfolding keep in_states
number-cons q qs = elim (Bool-cases (same_state q.state waiting)) [
  | inl e ↦ rw e (omega arith)
  | inr e ↦ rw e (omega arith)
]

number-append :
    (qs : Entries) (q : QueryPeerState) → number (qs ++ (q ∷ [])) ≡ number qs + weight q.state
unfolding keep
number-append [] q = number-cons q [] ∙ omega arith
number-append (r ∷ qs) q =
    omega (arith, number-cons r (qs ++ (q ∷ [])), number-append qs q, number-cons r qs)

number-update :
    (p : PeerId) (s : PeerState) (qs : Entries) (q : QueryPeerState)
    → entry p qs ≡ some q
    → number (update (set_to s) p qs) + weight q.state ≡ number qs + weight s
unfolding entry update
number-update p s [] q e = cc
number-update p s (r ∷ qs) q e = elim (Bool-cases (r.id == p)) [
  | inl same ↦
      let found : some r ≡ some q = rw same at e in
      let it : r ≡ q = cc in
      rw (same, ← it) (omega (arith, number-cons (set_to s r) qs, number-cons r qs))
  | inr other ↦
      let found : entry p qs ≡ some q = rw other at e in
      let rest = number-update p s qs q found in
      rw other (omega (arith, number-cons r (update (set_to s) p qs), number-cons r qs, rest))
]

entry-append :
    (p : PeerId) (qs : Entries) (r : QueryPeerState)
    → p ≢ r.id
    → entry p (qs ++ (r ∷ [])) ≡ entry p qs
unfolding entry
entry-append p [] r ne = ground (arith, ne)
entry-append p (q ∷ qs) r ne = let rest = entry-append p qs r ne in ground (arith, rest)

module _ {S : Space} where
  state_entry :
      (p : PeerId) (qp : QueryPeerset S) (s : PeerState)
      → get_state p qp ≡ some s
      → (q : QueryPeerState) × (entry p qp.all ≡ some q) × (q.state ≡ s)
  state_entry p qp s e = elim (Option-cases (entry p qp.all)) [
    | inl gone ↦ let no_state : none ≡ some s = rw (get_state-entry p qp, gone) at e in absurd cc
    | inr (q, found) ↦
        let got : some q.state ≡ some s = rw (get_state-entry p qp, found) at e in (q, found, cc)
  ]

  -- A peer of the set comes to any state, and the number of waiting peers changes with it.
  pub set_state_total :
      (p : PeerId) (s t : PeerState) (qp : QueryPeerset S)
      → IsValid qp
      → get_state p qp ≡ some t
      → (u : QueryPeerset S) × (set_state p s qp ≡ some u)
        × IsValid u
        × (number u.all + weight t ≡ number qp.all + weight s)
  set_state_total p s t qp v e =
      let (q, found, st) = state_entry p qp t e in
      let u : QueryPeerset S = record qp { all = update (set_to s) p qp.all } in
      let done = set_state-entry p s qp q found in
      (u, done, set_state-IsValid p s qp u v done, rw (← st) (number-update p s qp.all q found))

  pub get_state-sort :
      (p : PeerId) (qp : QueryPeerset S) → IsValid qp → get_state p (sort qp) ≡ get_state p qp
  get_state-sort p qp v =
      rw (get_state-entry p (sort qp), get_state-entry p qp, entry-sort p qp v) refl

  -- `TryAdd` changes no state of a peer of the set, and adds no other peer and no waiting one.
  pub get_state-try_add :
      (p r c : PeerId) (qp : QueryPeerset S) (s : PeerState)
      → get_state p qp ≡ some s
      → get_state p (try_add r c qp).1 ≡ some s
  get_state-try_add p r c qp s e = elim (Option-cases (entry r qp.all)) [
    | inr (q, here) ↦ rw (try_add-present r c qp q here) e
    | inl gone ↦
        let u : QueryPeerset S = record qp {
          all = qp.all ++ (new_entry r c qp ∷ []);
          sorted = false;
        } in
        let (x, found, st) = state_entry p qp s e in
        rw (try_add-absent r c qp gone) (
          get_state-entry p u
          ∙ rw
              (entry-append p qp.all (new_entry r c qp)
                (λ (h : p ≡ r). let bad : entry p qp.all ≡ none = rw h gone in absurd cc))
              (sym (get_state-entry p qp) ∙ e))
  ]

  pub get_state-try_add_ne :
      (p r c : PeerId) (qp : QueryPeerset S)
      → p ≢ r
      → get_state p (try_add r c qp).1 ≡ get_state p qp
  get_state-try_add_ne p r c qp ne = elim (Option-cases (entry r qp.all)) [
    | inr (q, here) ↦ rw (try_add-present r c qp q here) refl
    | inl gone ↦
        let u : QueryPeerset S = record qp {
          all = qp.all ++ (new_entry r c qp ∷ []);
          sorted = false;
        } in
        rw (try_add-absent r c qp gone) (
          get_state-entry p u
          ∙ rw (entry-append p qp.all (new_entry r c qp) ne) (sym (get_state-entry p qp)))
  ]

  pub number-try_add :
      (r c : PeerId) (qp : QueryPeerset S) → number (try_add r c qp).1.all ≡ number qp.all
  unfolding same_state
  number-try_add r c qp = elim (Option-cases (entry r qp.all)) [
    | inr (q, here) ↦ rw (try_add-present r c qp q here) refl
    | inl gone ↦
        rw (try_add-absent r c qp gone) (number-append qp.all (new_entry r c qp) ∙ omega arith)
  ]
