-- ===== src/QPeerset.antt =====
-- qpeerset/qpeerset.go: the peers of one lookup and their states.
pub mod Order
pub mod States
pub mod Closest
pub mod Changes
pub mod Found
pub mod Tests
use mathlib.Core.Option
use dep2p.Base.{
  ℕ, zero, suc, ◌+◌, ◌≡◌, Bool, true, false, List, [], ◌∷◌, ◌++◌, map, Option, none, some, length,
  get_elem?, take, ltb, leb, ◌==◌, if◌then◌else◌,
}
use dep2p.Base.Predicates.{keep}
use dep2p.Base.Sorting
use dep2p.Keyspace.{PeerId}
use dep2p.KBucket.Buckets.{modify}

-- What the code takes from go-keyspace: `XORKeySpace.Key` and the distance of two keys, a
-- natural number.
pub record Space : Type 1 where
  pub Point : Type 0
  pub point : ℕ → Point
  pub apart : Point → Point → ℕ

pub data PeerState : Type 0 where
  heard waiting queried unreachable : PeerState

unfoldable pub same_state : PeerState → PeerState → Bool
same_state heard heard = true
same_state waiting waiting = true
same_state queried queried = true
same_state unreachable unreachable = true
same_state _ _ = false

pub record QueryPeerState : Type 0 where
  pub id : PeerId
  pub distance : ℕ
  pub state : PeerState
  pub referred_by : PeerId

pub record QueryPeerset (S : Space) : Type 0 where
  pub key : S.Point
  pub all : List QueryPeerState
  pub sorted : Bool

-- `sortedQueryPeerset.Less`.
unfoldable pub less_distance : QueryPeerState → QueryPeerState → Bool
less_distance a b = ltb a.distance b.distance

-- none is the -1 of the code.
unfoldable pub find : PeerId → List QueryPeerState → Option ℕ
find p [] = none
find p (q ∷ qs) = let rest = find p qs in if q.id == p then some 0 else Option.map suc rest

-- The state is one of those asked for.
unfoldable pub in_states : List PeerState → QueryPeerState → Bool
unfolding same_state
in_states [] q = false
in_states (s ∷ ss) q = if same_state q.state s then true else in_states ss q

module _ (S : Space) where
  unfoldable pub new_query_peerset : ℕ → QueryPeerset S
  new_query_peerset key = record { key = S.point key; all = []; sorted = false }

module _ {S : Space} where
  unfoldable pub distance_to_key : QueryPeerset S → PeerId → ℕ
  distance_to_key qp p = S.apart (S.point p) qp.key

  unfoldable pub try_add : PeerId → PeerId → QueryPeerset S → Bool × QueryPeerset S
  unfolding find distance_to_key
  try_add p referred_by qp = elim (find p qp.all) [
    | some i ↦ (false, qp)
    | none ↦ (
      true,
      record qp {
        all =
            qp.all
            ++ (record {
              id = p;
              distance = distance_to_key qp p;
              state = heard;
              referred_by = referred_by;
            }
                ∷ []);
        sorted = false;
      },
    )
  ]

  -- A sort by insertion stands for `sort.Sort`: the theorems use only that the result is a sorted
  -- permutation.
  unfoldable pub sort : QueryPeerset S → QueryPeerset S
  unfolding less_distance
  sort qp =
      if qp.sorted then qp else record qp { all = Sorting.sort less_distance qp.all; sorted = true }

  -- none is the panic of the code, for a peer that is not in the set; so for the two below.
  unfoldable pub set_state : PeerId → PeerState → QueryPeerset S → Option (QueryPeerset S)
  unfolding find modify
  set_state p s qp = elim (find p qp.all) [
    | none ↦ none
    | some i ↦ some (record qp { all = modify i (λ q. record q { state = s }) qp.all })
  ]

  unfoldable pub get_state : PeerId → QueryPeerset S → Option PeerState
  unfolding find
  get_state p qp = elim (find p qp.all) [
    | none ↦ none
    | some i ↦ Option.map (λ q. q.state) (get_elem? qp.all i)
  ]

  unfoldable pub get_referrer : PeerId → QueryPeerset S → Option PeerId
  unfolding find
  get_referrer p qp = elim (find p qp.all) [
    | none ↦ none
    | some i ↦ Option.map (λ q. q.referred_by) (get_elem? qp.all i)
  ]

  -- The lookups sort the set, so that they return it too.
  unfoldable pub get_closest_n_in_states :
      ℕ → List PeerState → QueryPeerset S → List PeerId × QueryPeerset S
  unfolding sort in_states
  get_closest_n_in_states n states qp =
      let qp' = sort qp in
      let result = map (λ q. q.id) (keep (in_states states) qp'.all) in
      (if leb n (length result) then take n result else result, qp')

  unfoldable pub get_closest_in_states :
      List PeerState → QueryPeerset S → List PeerId × QueryPeerset S
  unfolding get_closest_n_in_states
  get_closest_in_states states qp = get_closest_n_in_states (length qp.all) states qp

  unfoldable pub num_heard : QueryPeerset S → ℕ × QueryPeerset S
  unfolding get_closest_in_states
  num_heard qp = let (closest, qp') = get_closest_in_states (heard ∷ []) qp in (length closest, qp')

  unfoldable pub num_waiting : QueryPeerset S → ℕ × QueryPeerset S
  unfolding get_closest_in_states
  num_waiting qp =
      let (closest, qp') = get_closest_in_states (waiting ∷ []) qp in (length closest, qp')
