-- ===== src/Query/Rounds.antt =====
-- The rest of a round of `run`: the tests for the end, and the peers that are queried next.
use dep2p.Base.{
  ℕ, ◌+◌, ◌≤◌, ◌<◌, ◌≡◌, ◌≢◌, refl, ap, ◌∙◌, inl, inr, Bool, true, false, List, [], ◌∷◌, some,
  arith, length, if_true, if_false, ◌==◌, Bool-cases,
}
use dep2p.Base.Predicates.{All, All-imp}
use dep2p.Keyspace.{PeerId}
use dep2p.QPeerset.{
  Space, PeerState, heard, waiting, queried, same_state, QueryPeerset, get_state, sort, num_heard,
  num_waiting, get_closest_n_in_states, get_closest_in_states,
}
use dep2p.QPeerset.Order.{IsValid, sort-IsValid}
use dep2p.QPeerset.Closest.{
  count, closest_all, count-sort, closest_n, num_heard_lem, num_waiting_lem,
}
use dep2p.QPeerset.Changes.{number, get_state-sort}
use dep2p.QPeerset.Found.{NoRepeat, FoundIn, closest_found, closest_heard}
use dep2p.Query.{
  Config, LookupTerminationReason, lookup_stopped, lookup_starvation, lookup_completed, undefined,
  is_starvation_termination, all_queried, is_lookup_termination, pick, is_ready_to_terminate,
}

module _ {S : Space} where
  -- The same peers in the same states, perhaps in another order.
  pub record Keeps (qp u : QueryPeerset S) : Type 0 where
    pub set : IsValid u
    pub states : (p : PeerId) → get_state p u ≡ get_state p qp
    pub same_number : number u.all ≡ number qp.all
    pub same_heard : count (heard ∷ []) u.all ≡ count (heard ∷ []) qp.all

  pub Keeps-sort : (qp : QueryPeerset S) → IsValid qp → Keeps qp (sort qp)
  Keeps-sort qp v = record {
    set = sort-IsValid qp v;
    states = λ p. get_state-sort p qp v;
    same_number = count-sort (waiting ∷ []) qp;
    same_heard = count-sort (heard ∷ []) qp;
  }

  pub Keeps-trans : (qp u w : QueryPeerset S) → Keeps qp u → Keeps u w → Keeps qp w
  Keeps-trans qp u w h k = record {
    set = k.set;
    states = λ p. k.states p ∙ h.states p;
    same_number = k.same_number ∙ h.same_number;
    same_heard = k.same_heard ∙ h.same_heard;
  }

  heard-Keeps : (qp : QueryPeerset S) → IsValid qp → Keeps qp (num_heard qp).1
  heard-Keeps qp v = rw (num_heard_lem qp) (Keeps-sort qp v)

  waiting-Keeps : (qp : QueryPeerset S) → IsValid qp → Keeps qp (num_waiting qp).1
  waiting-Keeps qp v = rw (num_waiting_lem qp) (Keeps-sort qp v)

  pub starvation-Keeps :
      (qp : QueryPeerset S) → IsValid qp → Keeps qp (is_starvation_termination qp).1
  unfolding is_starvation_termination
  starvation-Keeps qp v = elim (Bool-cases ((num_heard qp).0 == 0)) [
    | inl e ↦
        rw (e, is_starvation_termination)
          (Keeps-trans qp _ _ (heard-Keeps qp v)
            (waiting-Keeps (num_heard qp).1 (heard-Keeps qp v).set))
    | inr e ↦ rw (e, is_starvation_termination) (heard-Keeps qp v)
  ]

  -- Without starvation a peer is heard of or waits.
  fed_lem :
      (qp : QueryPeerset S)
      → (is_starvation_termination qp).0 ≡ false
      → 0 < count (heard ∷ []) qp.all + number qp.all
  unfolding is_starvation_termination
  fed_lem qp fed = elim (Bool-cases ((num_heard qp).0 == 0)) [
    | inr e ↦
        let some_heard : (count (heard ∷ []) qp.all == 0) ≡ false = rw (num_heard_lem qp) at e in
        ground (arith, some_heard)
    | inl e ↦
        let none_waits : ((num_waiting (num_heard qp).1).0 == 0) ≡ false = rw e at fed in
        let waits : (number (num_heard qp).1.all == 0) ≡ false =
          rw (num_waiting_lem (num_heard qp).1) at none_waits in
        let same_number : number (num_heard qp).1.all ≡ number qp.all =
          rw (num_heard_lem qp) (count-sort (waiting ∷ []) qp) in
        ground (arith, waits, same_number)
  ]

  all_queried_total :
      (u : QueryPeerset S) (ps : List PeerId)
      → All (λ p. (s : PeerState) × (get_state p u ≡ some s)) ps
      → (b : Bool) × (all_queried ps u ≡ some b)
  unfolding all_queried
  all_queried_total u [] h = (true, refl)
  all_queried_total u (p ∷ ps) h =
      let (b, e) = all_queried_total u ps h.1 in
      let (s, f) = h.0 in
      elim (Bool-cases (same_state s queried)) [
        | inl y ↦ (b, rw (f, all_queried) (if_true _ _ y ∙ e))
        | inr n ↦ (false, rw (f, all_queried) (if_false _ _ n))
      ]

  -- `isLookupTermination` asks only for states of peers in the set.
  pub lookup_total :
      (beta : ℕ) (qp : QueryPeerset S)
      → IsValid qp
      → (b : Bool) × (is_lookup_termination beta qp ≡ some (b, sort qp))
  unfolding is_lookup_termination
  lookup_total beta qp v =
      let states : List PeerState = heard ∷ waiting ∷ queried ∷ [] in
      let left : (get_closest_n_in_states beta states qp).1 ≡ sort qp =
        ap (λ (r : List PeerId × QueryPeerset S). r.1) (closest_n beta states qp) in
      let peers : List PeerId = (get_closest_n_in_states beta states qp).0 in
      let (b, e) = all_queried_total (sort qp) peers (
        All-imp (FoundIn states qp) (λ p. (s : PeerState) × (get_state p (sort qp) ≡ some s))
          (λ p f. (f.0, get_state-sort p qp v ∙ f.1)) peers (closest_found beta states qp v).0) in
      (b, rw (left, e) refl)

-- The peers that are queried next are of the list, each once, and at most n of them if n is
-- positive.
pick-All : (P : PeerId → Type 0) (k n : ℕ) (ps : List PeerId) → All P ps → All P (pick k n ps)
unfolding pick
pick-All P k n [] h = tt
pick-All P k n (p ∷ ps) h = elim (Bool-cases (k + 1 == n)) [
  | inl e ↦ rw e (h.0, tt)
  | inr e ↦ rw e (h.0, pick-All P (k + 1) n ps h.1)
]

pick-NoRepeat : (k n : ℕ) (ps : List PeerId) → NoRepeat ps → NoRepeat (pick k n ps)
unfolding pick
pick-NoRepeat k n [] h = tt
pick-NoRepeat k n (p ∷ ps) h = elim (Bool-cases (k + 1 == n)) [
  | inl e ↦ rw e (tt, tt)
  | inr e ↦ rw e (pick-All (λ r. p ≢ r) (k + 1) n ps h.0, pick-NoRepeat (k + 1) n ps h.1)
]

length-pick : (k n : ℕ) (ps : List PeerId) → k < n → length (pick k n ps) + k ≤ n
unfolding pick
length-pick k n [] lt = omega arith
length-pick k n (p ∷ ps) lt = elim (Bool-cases (k + 1 == n)) [
  | inl e ↦ rw e (omega arith)
  | inr e ↦
      let ne : k + 1 < n = ground (arith, e) in rw e (omega (arith, length-pick (k + 1) n ps ne))
]

pick_some : (k n : ℕ) (ps : List PeerId) → 0 < length ps → 0 < length (pick k n ps)
unfolding pick
pick_some k n [] h = absurd (omega arith)
pick_some k n (p ∷ ps) h = omega arith

module _ {S : Space} (c : Config) (stop_fn : QueryPeerset S → Bool) where
  -- `isReadyToTerminate` returns, and the peers that it names are heard of only.
  pub data Ready (n : ℕ) (qp : QueryPeerset S) : Type 0 where
    ends :
        (reason : LookupTerminationReason) (u : QueryPeerset S)
        → is_ready_to_terminate c stop_fn n qp ≡ some ((true, reason, []), u)
        → Keeps qp u
        → Ready n qp
    goes_on :
        (peers : List PeerId) (u : QueryPeerset S)
        → is_ready_to_terminate c stop_fn n qp ≡ some ((false, undefined, peers), u)
        → Keeps qp u
        → All (λ p. get_state p u ≡ some heard) peers
        → NoRepeat peers
        → (0 < n → length peers ≤ n)
        → 0 < length peers + number qp.all
        → Ready n qp

  module _ (n : ℕ) (qp : QueryPeerset S) (v : IsValid qp) where
    abbrev starved_set : QueryPeerset S
    starved_set = (is_starvation_termination qp).1

    abbrev looked_set : QueryPeerset S
    looked_set = sort starved_set

    looked-Keeps : Keeps qp looked_set
    looked-Keeps =
        Keeps-trans qp starved_set looked_set (starvation-Keeps qp v)
          (Keeps-sort starved_set (starvation-Keeps qp v).set)

    left_set : (get_closest_in_states (heard ∷ []) looked_set).1 ≡ sort looked_set
    unfolding get_closest_in_states
    left_set =
        ap (λ (r : List PeerId × QueryPeerset S). r.1)
          (closest_n (length looked_set.all) (heard ∷ []) looked_set)

    busy :
        (peers : List PeerId)
        → length peers ≡ count (heard ∷ []) looked_set.all
        → 0 < count (heard ∷ []) qp.all + number qp.all
        → 0 < length (pick 0 n peers) + number qp.all
    busy peers e f =
        let some_picked = pick_some 0 n peers in grind (arith, some_picked, looked-Keeps.same_heard)

    pub totality : Ready n qp
    unfolding is_ready_to_terminate
    totality = elim (Bool-cases (stop_fn qp)) [
      | inl stop ↦
          ends lookup_stopped qp (if_true _ _ stop)
            (record { set = v; states = λ p. refl; same_number = refl; same_heard = refl })
      | inr go ↦ elim (Bool-cases (is_starvation_termination qp).0) [
        | inl starved ↦
            ends lookup_starvation starved_set (if_false _ _ go ∙ if_true _ _ starved)
              (starvation-Keeps qp v)
        | inr fed ↦
            let (b, e) = lookup_total c.beta starved_set (starvation-Keeps qp v).set in
            elim (Bool-cases b) [
              | inl done ↦
                  ends lookup_completed looked_set
                    (if_false _ _ go ∙ if_false _ _ fed ∙ rw e (if_true _ _ done)) looked-Keeps
              | inr more ↦
                  let (only, once) = closest_heard looked_set looked-Keeps.set in
                  let peers : List PeerId = (get_closest_in_states (heard ∷ []) looked_set).0 in
                  let k =
                    Keeps-trans qp looked_set (sort looked_set) looked-Keeps
                      (Keeps-sort looked_set looked-Keeps.set) in
                  goes_on (pick 0 n peers) (sort looked_set)
                    (if_false _ _ go
                      ∙ if_false _ _ fed
                      ∙ rw e (if_false _ _ more ∙ rw left_set refl))
                    k
                    (pick-All (λ p. get_state p (sort looked_set) ≡ some heard) 0 n peers
                      (All-imp (λ p. get_state p looked_set ≡ some heard)
                        (λ p. get_state p (sort looked_set) ≡ some heard)
                        (λ p h. get_state-sort p looked_set looked-Keeps.set ∙ h) peers only))
                    (pick-NoRepeat 0 n peers once) (λ pos. omega (arith, length-pick 0 n peers pos))
                    (busy peers (closest_all (heard ∷ []) looked_set) (fed_lem qp fed))
            ]
      ]
    ]
