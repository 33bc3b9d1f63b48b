-- ===== src/Query.antt =====
-- query.go: one lookup, its loop and the goroutines that query single peers. Events, logging and
-- contexts are not modelled, but for the cancellation of the loop.
pub mod Invariant
pub mod Updates
pub mod Rounds
pub mod Runs
pub mod Reachable
pub mod Valuable
pub mod Result
mod Tests
use mathlib.Core.Option
use dep2p.Base.{
  ℕ, zero, suc, ◌+◌, ◌-◌, ◌≡◌, ◌≢◌, Bool, true, false, ◌||◌, List, [], ◌∷◌, ◌++◌, Option, none,
  some, ltb, ◌==◌, if◌then◌else◌, not,
}
use dep2p.Base.Predicates.{keep}
use dep2p.Keyspace.{PeerId}
use dep2p.QPeerset.{
  Space, PeerState, heard, waiting, queried, unreachable, same_state, QueryPeerset, try_add,
  get_state, set_state, get_referrer, get_closest_n_in_states, get_closest_in_states, num_heard,
  num_waiting, new_query_peerset,
}

-- What the lookup reads of the DHT object.
pub record Config : Type 0 where
  pub self : PeerId
  pub alpha : ℕ
  pub beta : ℕ

pub record QueryUpdate : Type 0 where
  pub cause : PeerId
  pub queried : List PeerId
  pub heard : List PeerId
  pub unreachable : List PeerId
  pub query_duration : ℕ

pub data LookupTerminationReason : Type 0 where
  lookup_stopped lookup_cancelled lookup_starvation lookup_completed undefined :
      LookupTerminationReason

-- `running` are the goroutines of queryPeer whose update the loop has not received. The newest
-- entry of `peer_times` for a peer is its value in the map.
pub record Query (S : Space) : Type 0 where
  pub query_peers : QueryPeerset S
  pub peer_times : List (PeerId × ℕ)
  pub terminated : Bool
  pub running : List PeerId

-- How the goroutine of one peer ends.
pub data Outcome : Type 0 where
  dial_failed query_failed : Outcome
  answered : (new_peers : List PeerId) (duration : ℕ) → Outcome

-- The update that `queryPeer` sends. The DHT's filter is an argument.
unfoldable pub query_peer : Config → (key : ℕ) → (PeerId → Bool) → PeerId → Outcome → QueryUpdate
query_peer c key query_peer_filter p dial_failed = record {
  cause = p;
  queried = [];
  heard = [];
  unreachable = p ∷ [];
  query_duration = 0;
}
query_peer c key query_peer_filter p query_failed = record {
  cause = p;
  queried = [];
  heard = [];
  unreachable = p ∷ [];
  query_duration = 0;
}
query_peer c key query_peer_filter p (answered new_peers duration) = record {
  cause = p;
  queried = p ∷ [];
  heard =
      keep (λ next. if next == c.self then false else (next == key) || query_peer_filter next)
        new_peers;
  unreachable = [];
  query_duration = duration;
}

-- `q.peerTimes[p] = up.queryDuration` for each queried peer.
unfoldable pub record_times : PeerId → ℕ → List PeerId → List (PeerId × ℕ) → List (PeerId × ℕ)
record_times self duration [] times = times
record_times self duration (p ∷ ps) times =
    record_times self duration ps (if p == self then times else (p, duration) ∷ times)

module _ {S : Space} where
  -- The first loop of `updateState`.
  unfoldable pub hear : PeerId → PeerId → List PeerId → QueryPeerset S → QueryPeerset S
  hear self cause [] qp = qp
  hear self cause (p ∷ ps) qp =
      hear self cause ps (if p == self then qp else (try_add p cause qp).1)

  -- A peer that waits comes to a new state; none is a panic, by the code or by `GetState`.
  unfoldable pub settle : PeerState → PeerId → QueryPeerset S → Option (QueryPeerset S)
  settle s p qp = elim (get_state p qp) [
    | none ↦ none
    | some st ↦ if same_state st waiting then set_state p s qp else none
  ]

  -- The two other loops of `updateState`.
  unfoldable pub settle_all :
      PeerState → PeerId → List PeerId → QueryPeerset S → Option (QueryPeerset S)
  unfolding settle
  settle_all s self [] qp = some qp
  settle_all s self (p ∷ ps) qp = elim (if p == self then some qp else settle s p qp) [
    | none ↦ none
    | some qp' ↦ settle_all s self ps qp'
  ]

  unfoldable pub update_state : PeerId → QueryUpdate → Query S → Option (Query S)
  unfolding hear settle_all record_times
  update_state self up q =
      if q.terminated
      then none
      else elim (settle_all queried self up.queried (hear self up.cause up.heard q.query_peers)) [
        | none ↦ none
        | some qp ↦ elim (settle_all unreachable self up.unreachable qp) [
          | none ↦ none
          | some qp' ↦ some (record q {
            query_peers = qp';
            peer_times = record_times self up.query_duration up.queried q.peer_times;
          })
        ]
      ]

  unfoldable pub is_starvation_termination : QueryPeerset S → Bool × QueryPeerset S
  is_starvation_termination qp =
      let (h, qp1) = num_heard qp in
      let (w, qp2) = num_waiting qp1 in if h == 0 then (w == 0, qp2) else (false, qp1)

  -- The loop of `isLookupTermination`; none is a panic of `GetState`.
  unfoldable pub all_queried : List PeerId → QueryPeerset S → Option Bool
  all_queried [] qp = some true
  all_queried (p ∷ ps) qp =
      let rest = all_queried ps qp in
      elim (get_state p qp) [
        | none ↦ none
        | some st ↦ if same_state st queried then rest else some false
      ]

  unfoldable pub is_lookup_termination : ℕ → QueryPeerset S → Option (Bool × QueryPeerset S)
  unfolding all_queried
  is_lookup_termination beta qp =
      let (peers, qp') = get_closest_n_in_states beta (heard ∷ waiting ∷ queried ∷ []) qp in
      Option.map (λ b. (b, qp')) (all_queried peers qp')

-- The loop over the heard peers in `isReadyToTerminate`: it stops when the count meets the number,
-- and takes all where the number is not positive.
unfoldable pub pick : ℕ → ℕ → List PeerId → List PeerId
pick count n [] = []
pick count n (p ∷ ps) =
    let rest = pick (count + 1) n ps in p ∷ (if count + 1 == n then [] else rest)

module _ {S : Space} (c : Config) (stop_fn : QueryPeerset S → Bool) where
  unfoldable pub is_ready_to_terminate :
      ℕ → QueryPeerset S → Option ((Bool × LookupTerminationReason × List PeerId) × QueryPeerset S)
  unfolding is_starvation_termination is_lookup_termination pick
  is_ready_to_terminate n qp =
      let (starved, qp1) = is_starvation_termination qp in
      if stop_fn qp
      then some ((true, lookup_stopped, []), qp)
      else if starved
      then some ((true, lookup_starvation, []), qp1)
      else elim (is_lookup_termination c.beta qp1) [
        | none ↦ none
        | some (done, qp2) ↦
            let (peers, qp3) = get_closest_in_states (heard ∷ []) qp2 in
            if done
            then some ((true, lookup_completed, []), qp2)
            else some ((false, undefined, pick 0 n peers), qp3)
      ]

  -- none is a panic of `GetReferrer` or of `SetState`.
  unfoldable pub spawn_query : PeerId → Query S → Option (Query S)
  spawn_query p q = elim (get_referrer p q.query_peers) [
    | none ↦ none
    | some _ ↦
        Option.map (λ qp. record q { query_peers = qp; running = q.running ++ (p ∷ []) })
          (set_state p waiting q.query_peers)
  ]

  unfoldable pub spawn_queries : List PeerId → Query S → Option (Query S)
  unfolding spawn_query
  spawn_queries [] q = some q
  spawn_queries (p ∷ ps) q = elim (spawn_query p q) [ none ↦ none | some q' ↦ spawn_queries ps q' ]

  unfoldable pub terminate : Query S → Query S
  terminate q = record q { terminated = true }

  -- The body of the loop of `run` behind its select.
  unfoldable pub advance : Query S → Option (Query S)
  unfolding terminate
  advance q =
      let (w, qp) = num_waiting q.query_peers in
      elim (is_ready_to_terminate (c.alpha - w) qp) [
        | none ↦ none
        | some ((ready, reason, peers), qp') ↦
            let q' = record q { query_peers = qp' } in
            if ready
            then some (terminate q')
            else if q'.terminated
            then some q'
            else spawn_queries peers q'
      ]

  -- One round of `run` for an update, and for the cancellation of its context.
  unfoldable pub receive : QueryUpdate → Query S → Option (Query S)
  receive up q = elim (update_state c.self up q) [ none ↦ none | some q' ↦ advance q' ]

  -- The first update on the channel.
  abbrev pub seed_update : List PeerId → QueryUpdate
  seed_update seed_peers = record {
    cause = c.self;
    queried = [];
    heard = seed_peers;
    unreachable = [];
    query_duration = 0;
  }

  unfoldable pub cancelled : Query S → Option (Query S)
  unfolding terminate
  cancelled q = advance (terminate q)

-- `runQuery` up to the first update, which hears the seed peers.
module _ (S : Space) where
  unfoldable pub new_query : ℕ → Query S
  unfolding new_query_peerset
  new_query key = record {
    query_peers = new_query_peerset S key;
    peer_times = [];
    terminated = false;
    running = [];
  }
