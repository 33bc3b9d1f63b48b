-- ===== src/QPeerset/States.antt =====
-- Lookups by identity in the list of a peer set, and what the operations do to them.
use mathlib.Core.Option
use dep2p.Base.{
  ℕ, suc, ◌≡◌, ◌≢◌, refl, ap, ◌∙◌, inl, inr, true, false, List, [], ◌∷◌, ◌++◌, Option, none, some,
  arith, get_elem?, ◌==◌, if◌then◌else◌, Bool-cases, Option-cases,
}
use dep2p.Base.Predicates.{All}
use dep2p.Keyspace.{PeerId}
use dep2p.KBucket.Buckets.{modify}
use dep2p.QPeerset.{
  Space, PeerState, QueryPeerState, QueryPeerset, find, set_state, get_state, get_referrer, try_add,
  distance_to_key, heard,
}

abbrev pub Entries : Type 0
Entries = List QueryPeerState

-- The entry of a peer.
unfoldable pub entry : PeerId → Entries → Option QueryPeerState
entry p [] = none
entry p (q ∷ qs) = if q.id == p then some q else entry p qs

unfoldable pub update : (QueryPeerState → QueryPeerState) → PeerId → Entries → Entries
update f p [] = []
update f p (q ∷ qs) = if q.id == p then f q ∷ qs else q ∷ update f p qs

abbrev pub Fresh : PeerId → Entries → Type 0
Fresh p = All (λ q. q.id ≢ p)

-- No two entries have one identity.
abbrev pub Distinct : Entries → Type 0
Distinct [] = Unit
Distinct (q ∷ qs) = Fresh q.id qs × Distinct qs

abbrev at : Option ℕ → Entries → Option QueryPeerState
at none qs = none
at (some i) qs = get_elem? qs i

at-suc :
    (o : Option ℕ) (q : QueryPeerState) (qs : Entries) → at (Option.map suc o) (q ∷ qs) ≡ at o qs
at-suc none q qs = refl
at-suc (some i) q qs = refl

find-entry : (p : PeerId) (qs : Entries) → at (find p qs) qs ≡ entry p qs
unfolding find entry
find-entry p [] = refl
find-entry p (q ∷ qs) = elim (Bool-cases (q.id == p)) [
  | inl e ↦ rw e refl
  | inr e ↦ rw e (at-suc (find p qs) q qs ∙ find-entry p qs)
]

abbrev change : (QueryPeerState → QueryPeerState) → Option ℕ → Entries → Entries
change f none qs = qs
change f (some i) qs = modify i f qs

change-suc :
    (f : QueryPeerState → QueryPeerState) (o : Option ℕ) (q : QueryPeerState) (qs : Entries)
    → change f (Option.map suc o) (q ∷ qs) ≡ q ∷ change f o qs
unfolding modify
change-suc f none q qs = refl
change-suc f (some i) q qs = refl

find-update :
    (f : QueryPeerState → QueryPeerState) (p : PeerId) (qs : Entries)
    → change f (find p qs) qs ≡ update f p qs
unfolding find update modify
find-update f p [] = refl
find-update f p (q ∷ qs) = elim (Bool-cases (q.id == p)) [
  | inl e ↦ rw e refl
  | inr e ↦ rw e (change-suc f (find p qs) q qs ∙ ap (◌∷◌ q) (find-update f p qs))
]

pub entry-id : (p : PeerId) (qs : Entries) (q : QueryPeerState) → entry p qs ≡ some q → q.id ≡ p
unfolding entry
entry-id p [] q e = cc
entry-id p (r ∷ qs) q e = ground (arith, entry-id p qs q)

pub Fresh-of_entry : (p : PeerId) (qs : Entries) → entry p qs ≡ none → Fresh p qs
unfolding entry
Fresh-of_entry p [] e = tt
Fresh-of_entry p (q ∷ qs) e = elim (Bool-cases (q.id == p)) [
  | inl same ↦ let no : some q ≡ none = rw (same) at e in absurd cc
  | inr other ↦ ((λ h. ground arith), Fresh-of_entry p qs (rw other at e))
]

pub entry_of_Fresh : (p : PeerId) (qs : Entries) → Fresh p qs → entry p qs ≡ none
unfolding entry
entry_of_Fresh p [] h = refl
entry_of_Fresh p (q ∷ qs) h = let ne = h.0 in ground (arith, ne, entry_of_Fresh p qs h.1)

module _ (f : QueryPeerState → QueryPeerState)
    (keeps : (q : QueryPeerState) → (f q).id ≡ q.id) where
  pub entry-update_self :
      (p : PeerId) (qs : Entries) (q : QueryPeerState)
      → entry p qs ≡ some q
      → entry p (update f p qs) ≡ some (f q)
  unfolding entry update
  entry-update_self p [] q e = cc
  entry-update_self p (r ∷ qs) q e = ground (arith, keeps r, entry-update_self p qs q)

  pub entry-update_ne : (p r : PeerId) (qs : Entries) → p ≢ r → entry r (update f p qs) ≡ entry r qs
  unfolding entry update
  entry-update_ne p r [] ne = refl
  entry-update_ne p r (q ∷ qs) ne = ground (arith, keeps q, entry-update_ne p r qs ne)

  pub update-Fresh : (p r : PeerId) (qs : Entries) → Fresh r qs → Fresh r (update f p qs)
  unfolding update
  update-Fresh p r [] h = tt
  update-Fresh p r (q ∷ qs) h = elim (Bool-cases (q.id == p)) [
    | inl e ↦ rw e (rw (keeps q) h.0, h.1)
    | inr e ↦ rw e (h.0, update-Fresh p r qs h.1)
  ]

  pub update-Distinct : (p : PeerId) (qs : Entries) → Distinct qs → Distinct (update f p qs)
  unfolding update
  update-Distinct p [] d = tt
  update-Distinct p (q ∷ qs) d = elim (Bool-cases (q.id == p)) [
    | inl e ↦ rw e (rw (keeps q) d.0, d.1)
    | inr e ↦ rw e (update-Fresh p q.id qs d.0, update-Distinct p qs d.1)
  ]

abbrev pub set_to : PeerState → QueryPeerState → QueryPeerState
set_to s q = record q { state = s }

find_present :
    (p : PeerId) (qs : Entries) (q : QueryPeerState)
    → entry p qs ≡ some q
    → (i : ℕ) × (find p qs ≡ some i)
unfolding find entry
find_present p [] q e = cc
find_present p (r ∷ qs) q e = elim (Bool-cases (r.id == p)) [
  | inl same ↦ (0, rw same refl)
  | inr other ↦ let (i, h) = find_present p qs q (rw other at e) in (suc i, rw (other, h) refl)
]

find_absent : (p : PeerId) (qs : Entries) → entry p qs ≡ none → find p qs ≡ none
unfolding find entry
find_absent p [] e = refl
find_absent p (r ∷ qs) e = elim (Bool-cases (r.id == p)) [
  | inl same ↦ let no : some r ≡ none = rw same at e in absurd cc
  | inr other ↦ rw (other, find_absent p qs (rw other at e)) refl
]

module _ {S : Space} where
  -- The operations of the set by the entries of its list.
  pub get_state-entry :
      (p : PeerId) (qp : QueryPeerset S)
      → get_state p qp ≡ Option.map (λ q. q.state) (entry p qp.all)
  unfolding get_state
  get_state-entry p qp = rw (← find-entry p qp.all) (through (find p qp.all))
    where
      through :
          (o : Option ℕ)
          → elim o [ none ↦ none | some i ↦ Option.map (λ q. q.state) (get_elem? qp.all i) ]
            ≡ Option.map (λ q. q.state) (at o qp.all)
      through none = refl
      through (some i) = refl

  pub get_referrer_total :
      (p : PeerId) (qp : QueryPeerset S) (s : PeerState)
      → get_state p qp ≡ some s
      → (r : PeerId) × (get_referrer p qp ≡ some r)
  unfolding get_state get_referrer
  get_referrer_total p qp s = through (find p qp.all)
    where
      through :
          (o : Option ℕ)
          → elim o [ none ↦ none | some i ↦ Option.map (λ q. q.state) (get_elem? qp.all i) ]
            ≡ some s
          → (r : PeerId) × (elim o [
            | none ↦ none
            | some i ↦ Option.map (λ q. q.referred_by) (get_elem? qp.all i)
          ]
              ≡ some r)
      through none e = absurd cc
      through (some i) e = elim (Option-cases (get_elem? qp.all i)) [
        | inl gone ↦ let bad : none ≡ some s = rw gone at e in absurd cc
        | inr (q, found) ↦ (q.referred_by, rw found refl)
      ]

  pub set_state-entry :
      (p : PeerId) (s : PeerState) (qp : QueryPeerset S) (q : QueryPeerState)
      → entry p qp.all ≡ some q
      → set_state p s qp ≡ some (record qp { all = update (set_to s) p qp.all })
  unfolding set_state
  set_state-entry p s qp q e =
      let (i, h) = find_present p qp.all q e in
      let m = rw h at (find-update (set_to s) p qp.all) in
      rw (h, set_state) (ap (λ bs. some (record qp { all = bs })) m)

  pub set_state-absent :
      (p : PeerId) (s : PeerState) (qp : QueryPeerset S)
      → entry p qp.all ≡ none
      → set_state p s qp ≡ none
  unfolding set_state
  set_state-absent p s qp e = rw (find_absent p qp.all e, set_state) refl

  pub try_add-present :
      (p r : PeerId) (qp : QueryPeerset S) (q : QueryPeerState)
      → entry p qp.all ≡ some q
      → try_add p r qp ≡ (false, qp)
  unfolding try_add
  try_add-present p r qp q e = let (i, h) = find_present p qp.all q e in rw (h, try_add) refl

  abbrev pub new_entry : PeerId → PeerId → QueryPeerset S → QueryPeerState
  new_entry p r qp = record {
    id = p;
    distance = distance_to_key qp p;
    state = heard;
    referred_by = r;
  }

  pub try_add-absent :
      (p r : PeerId) (qp : QueryPeerset S)
      → entry p qp.all ≡ none
      → try_add p r qp
        ≡ (true, record qp { all = qp.all ++ (new_entry p r qp ∷ []); sorted = false })
  unfolding try_add
  try_add-absent p r qp e = rw (find_absent p qp.all e, try_add) refl
