-- ===== src/QPeerset/Tests.antt =====
-- Runs of the peer set, and each theorem at a concrete input.
use mathlib.Core.List.{Perm}
use dep2p.Base.{
  ℕ, ◌+◌, ◌-◌, ◌≤◌, ◌<◌, ◌≡◌, ◌≢◌, refl, Bool, true, false, List, [], ◌∷◌, ◌++◌, map, Option, none,
  some, arith, length, min,
}
use dep2p.Base.Predicates.{keep}
use dep2p.Base.Sorting.{IsSorted, AllBefore}
use dep2p.Keyspace.{PeerId}
use dep2p.QPeerset.{
  Space, PeerState, QueryPeerState, QueryPeerset, heard, waiting, queried, unreachable, in_states,
  less_distance, try_add, set_state, get_state, get_closest_n_in_states, num_heard, num_waiting,
  sort,
}
use dep2p.QPeerset.States.{Entries}
use dep2p.QPeerset.Order.{IsValid}
use dep2p.QPeerset.Closest
use dep2p.QPeerset.Closest.{count}

-- Points on a line.
abbrev pub line : Space
line = record { Point = ℕ; point = λ p. p; apart = λ a b. (a - b) + (b - a) }

abbrev pub entry_of : PeerId → PeerState → QueryPeerState
entry_of p s = record { id = p; distance = (p - 10) + (10 - p); state = s; referred_by = 1 }

-- The key is 10; the peers are 15, 12 and 3.
abbrev pub three : QueryPeerset line
three = record {
  key = 10;
  all = entry_of 15 heard ∷ entry_of 12 waiting ∷ entry_of 3 heard ∷ [];
  sorted = false;
}

abbrev three' : QueryPeerset line
three' = record {
  key = 10;
  all = entry_of 15 queried ∷ entry_of 12 waiting ∷ entry_of 3 heard ∷ [];
  sorted = false;
}

pub three-IsValid : IsValid three
unfolding dep2p.QPeerset.distance_to_key
three-IsValid = record {
  distinct = (((λ h. omega arith), ((λ h. omega arith), tt)), (((λ h. omega arith), tt), (tt, tt)));
  distances = (refl, (refl, (refl, tt)));
  in_order = λ h. absurd cc;
}

closest_two : (get_closest_n_in_states 2 (heard ∷ []) three).0 ≡ 15 ∷ 3 ∷ []
unfolding get_closest_n_in_states keep dep2p.Base.Sorting.sort
closest_two = refl

changed : set_state 15 queried three ≡ some three'
unfolding set_state
changed = refl

get_closest_n_in_states-nearest_example :
    (near : Entries) × (far : Entries) × Perm
      (near ++ far)
      (keep (in_states (heard ∷ waiting ∷ [])) three.all)
    × ((get_closest_n_in_states 2 (heard ∷ waiting ∷ []) three).0 ≡ map (λ q. q.id) near)
    × IsSorted less_distance near
    × AllBefore less_distance near far
    × (length near ≡ min 2 (count (heard ∷ waiting ∷ []) three.all))
get_closest_n_in_states-nearest_example =
    Closest.get_closest_n_in_states-nearest 2 (heard ∷ waiting ∷ []) three three-IsValid
