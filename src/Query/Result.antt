-- ===== src/Query/Result.antt =====
-- query.go: `constructLookupResult`, and the peers that `runLookupWithFollowup` queries after it.
use mathlib.Core.Option
use dep2p.Base.{
  ℕ, ◌≤◌, ◌≡◌, refl, sym, ap, ◌∙◌, inl, inr, Bool, true, List, [], ◌∷◌, map, Option, none, some,
  arith, length, take, ltb, ◌==◌, if◌then◌else◌, if_true, if_false, Bool-cases, ==_iff, length-take,
}
use dep2p.Base.Predicates.{All, All-imp, All-take, All-append}
use dep2p.Base.Sorting
use dep2p.Base.Sorting.{sort-All}
use dep2p.Base.Kept.{cut}
use dep2p.Keyspace.{PeerId, Bytes, Primitives}
use dep2p.KBucket.Nearest.{PeerDistance, less_peer, append_ids, append_peer, sort_closest_peers}
use dep2p.KBucket.Nearest.Laws.{out_of-none}
use dep2p.QPeerset.{
  Space, PeerState, heard, waiting, queried, unreachable, same_state, QueryPeerset, get_state,
  get_closest_n_in_states, sort,
}
use dep2p.QPeerset.Order.{IsValid}
use dep2p.QPeerset.Closest.{closest_n}
use dep2p.QPeerset.Found.{FoundIn, closest_found}
use dep2p.Query.{is_lookup_termination, is_starvation_termination}
use dep2p.Query.Rounds.{Keeps, Keeps-sort, Keeps-trans, lookup_total, starvation-Keeps}

pub record LookupWithFollowupResult : Type 0 where
  pub peers : List PeerId
  pub state : List PeerState
  pub closest : List PeerId
  pub completed : Bool

abbrev States : Type 0
States = List (PeerId × PeerState)

-- `peerState[p]`; a missing entry reads as the first state.
unfoldable pub state_of : States → PeerId → PeerState
state_of [] p = heard
state_of ((r, s) ∷ states) p = let rest = state_of states p in if r == p then s else rest

module _ {S : Space} where
  -- The loop that asks for the states; none is a panic of `GetState`.
  unfoldable pub states_of : List PeerId → QueryPeerset S → Option States
  states_of [] qp = some []
  states_of (p ∷ ps) qp =
      let rest = states_of ps qp in
      elim (get_state p qp) [ none ↦ none | some s ↦ Option.map (◌∷◌ (p, s)) rest ]

  -- Whether the lookup was completed: the second test runs only where the first one fails.
  unfoldable pub is_completed : ℕ → QueryPeerset S → Option (Bool × QueryPeerset S)
  is_completed beta qp = elim (is_lookup_termination beta qp) [
    | none ↦ none
    | some (done, qp1) ↦ if done then some (true, qp1) else some (is_starvation_termination qp1)
  ]

  unfoldable pub construct_lookup_result :
      Primitives
      → (beta bucket_size : ℕ) → Bytes
      → QueryPeerset S
      → Option (LookupWithFollowupResult × QueryPeerset S)
  construct_lookup_result P beta bucket_size target qp = elim (is_completed beta qp) [
    | none ↦ none
    | some (completed, qp1) ↦
        let (peers, qp2) =
          get_closest_n_in_states bucket_size (heard ∷ waiting ∷ queried ∷ []) qp1 in
        let (closest, qp3) =
          get_closest_n_in_states bucket_size (heard ∷ waiting ∷ queried ∷ unreachable ∷ []) qp2 in
        let by_distance = sort_closest_peers P peers target in
        let sorted_peers =
          if ltb bucket_size (length by_distance)
          then take bucket_size by_distance
          else by_distance in
        elim (states_of peers qp2) [
          | none ↦ none
          | some peer_state ↦ some (
            record {
              peers = sorted_peers;
              state = map (state_of peer_state) sorted_peers;
              closest = closest;
              completed = completed;
            },
            qp3,
          )
        ]
  ]

-- The peers that are queried after the lookup.
unfoldable pub followup_peers : List PeerId → List PeerState → List PeerId
followup_peers [] states = []
followup_peers (p ∷ ps) [] = []
followup_peers (p ∷ ps) (s ∷ ss) =
    let rest = followup_peers ps ss in
    if same_state s heard then p ∷ rest else if same_state s waiting then p ∷ rest else rest

append_ids-All :
    (P : Primitives) (target : Bytes) (Q : PeerId → Type 0) (ps : List PeerId)
    (ds : List PeerDistance)
    → All Q ps
    → All (λ d. Q d.p) ds
    → All (λ d. Q d.p) (append_ids P target ps ds)
unfolding append_ids append_peer
append_ids-All P target Q [] ds h k = k
append_ids-All P target Q (p ∷ ps) ds h k =
    append_ids-All P target Q ps _ h.1 (All-append (λ d. Q d.p) ds _ k (h.0, tt))

ids_All :
    (Q : PeerId → Type 0) (ds : List PeerDistance) → All (λ d. Q d.p) ds → All Q (map (λ d. d.p) ds)
ids_All Q [] h = tt
ids_All Q (d ∷ ds) h = (h.0, ids_All Q ds h.1)

sort_closest_peers-All :
    (P : Primitives) (target : Bytes) (Q : PeerId → Type 0) (ps : List PeerId)
    → All Q ps
    → All Q (sort_closest_peers P ps target)
unfolding sort_closest_peers
sort_closest_peers-All P target Q ps h =
    rw (out_of-none (Sorting.sort (less_peer P) (append_ids P target ps []))) (
      ids_All Q _ (
        sort-All (less_peer P) (λ d. Q d.p) (append_ids P target ps [])
          (append_ids-All P target Q ps [] h tt)))

module _ {S : Space} where
  -- The peer has a state in the set, and the map has it.
  abbrev pub IsRecorded : QueryPeerset S → States → PeerId → Type 0
  IsRecorded qp states p = get_state p qp ≡ some (state_of states p)

  states_total :
      (qp : QueryPeerset S) (ps : List PeerId)
      → All (λ p. (s : PeerState) × (get_state p qp ≡ some s)) ps
      → (states : States) × (states_of ps qp ≡ some states) × All (IsRecorded qp states) ps
  unfolding states_of state_of
  states_total qp [] h = ([], refl, tt)
  states_total qp (p ∷ ps) h =
      let (states, e, k) = states_total qp ps h.1 in
      let (s, f) = h.0 in
      ((p, s) ∷ states, rw (f, e, states_of) refl, (mine p s states f, later p s states f ps k))
    where
      mine :
          (p : PeerId) (s : PeerState) (states : States)
          → get_state p qp ≡ some s
          → IsRecorded qp ((p, s) ∷ states) p
      mine p s states f = let same : (p == p) ≡ true = ground arith in rw (same, state_of) f

      later :
          (p : PeerId) (s : PeerState) (states : States)
          → get_state p qp ≡ some s
          → (rs : List PeerId) → All (IsRecorded qp states) rs
          → All (IsRecorded qp ((p, s) ∷ states)) rs
      later p s states f [] k = tt
      later p s states f (r ∷ rs) k = (
        elim (Bool-cases (p == r)) [
          | inl e ↦ rw (e, state_of) (rw (← (==_iff p r).0 e) f)
          | inr e ↦ rw (e, state_of) k.0
        ],
        later p s states f rs k.1,
      )

  completed_total :
      (beta : ℕ) (qp : QueryPeerset S)
      → IsValid qp
      → (b : Bool) × (u : QueryPeerset S) × (is_completed beta qp ≡ some (b, u)) × Keeps qp u
  unfolding is_completed
  completed_total beta qp v =
      let (b, e) = lookup_total beta qp v in
      let k = Keeps-sort qp v in
      elim (Bool-cases b) [
        | inl done ↦ (true, sort qp, rw (e, is_completed) (if_true _ _ done), k)
        | inr more ↦ (
          (is_starvation_termination (sort qp)).0,
          (is_starvation_termination (sort qp)).1,
          rw (e, is_completed) (if_false _ _ more),
          Keeps-trans qp (sort qp) _ k (starvation-Keeps (sort qp) k.set),
        )
      ]

  -- For a valid set `constructLookupResult` returns: at most bucketSize peers, each of the set and
  -- not unreachable, next to the states that they have in the set.
  pub construct_lookup_result_lem :
      (P : Primitives) (beta bucket_size : ℕ) (target : Bytes) (qp : QueryPeerset S)
      → IsValid qp
      → (r : LookupWithFollowupResult) × (u : QueryPeerset S) × (construct_lookup_result P beta
            bucket_size target qp
          ≡ some (r, u))
        × Keeps qp u
        × (length r.peers ≤ bucket_size)
        × All (FoundIn (heard ∷ waiting ∷ queried ∷ []) qp) r.peers
        × ((states : PeerId → PeerState) × (r.state ≡ map states r.peers)
            × All (λ p. get_state p qp ≡ some (states p)) r.peers)
  unfolding construct_lookup_result
  construct_lookup_result_lem P beta bucket_size target qp v =
      let live : List PeerState = heard ∷ waiting ∷ queried ∷ [] in
      let every : List PeerState = heard ∷ waiting ∷ queried ∷ unreachable ∷ [] in
      let (b, u, e, k) = completed_total beta qp v in
      let peers : List PeerId = (get_closest_n_in_states bucket_size live u).0 in
      let found : All (FoundIn live u) peers = (closest_found bucket_size live u k.set).0 in
      let left : (get_closest_n_in_states bucket_size live u).1 ≡ sort u =
        ap (λ (r : List PeerId × QueryPeerset S). r.1) (closest_n bucket_size live u) in
      let ku = Keeps-sort u k.set in
      let ks = Keeps-trans qp u (sort u) k ku in
      let last : (get_closest_n_in_states bucket_size every (sort u)).1 ≡ sort (sort u) =
        ap (λ (r : List PeerId × QueryPeerset S). r.1) (closest_n bucket_size every (sort u)) in
      let (states, f, recorded) = states_total (sort u) peers (
        All-imp (FoundIn live u) (λ p. (s : PeerState) × (get_state p (sort u) ≡ some s))
          (λ p h. (h.0, ku.states p ∙ h.1)) peers found) in
      let sorted_peers : List PeerId = sort_closest_peers P peers target in
      let result : LookupWithFollowupResult = record {
        peers = take bucket_size sorted_peers;
        state = map (state_of states) (take bucket_size sorted_peers);
        closest = (get_closest_n_in_states bucket_size every (sort u)).0;
        completed = b;
      } in
      (
        result,
        sort (sort u),
        rw (e, construct_lookup_result)
            (rw left
              (rw f (rw (left, cut bucket_size sorted_peers) (ap (λ w. some (result, w)) last)))),
        Keeps-trans qp (sort u) (sort (sort u)) ks (Keeps-sort (sort u) ks.set),
        omega (arith, length-take bucket_size sorted_peers),
        All-take (FoundIn live qp) bucket_size sorted_peers (
            sort_closest_peers-All P target (FoundIn live qp) peers (
              All-imp (FoundIn live u) (FoundIn live qp) (λ p h. (h.0, sym (k.states p) ∙ h.1, h.2))
                peers found)),
        (
          state_of states,
          refl,
          All-take (λ p. get_state p qp ≡ some (state_of states p)) bucket_size sorted_peers
              (sort_closest_peers-All P target (λ p. get_state p qp ≡ some (state_of states p))
                peers
                (All-imp (IsRecorded (sort u) states)
                  (λ p. get_state p qp ≡ some (state_of states p)) (λ p h. sym (ks.states p) ∙ h)
                  peers recorded)),
        ),
      )
