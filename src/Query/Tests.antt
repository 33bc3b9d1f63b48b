-- ===== src/Query/Tests.antt =====
-- Runs of a lookup, and each theorem at a concrete input.
use dep2p.Base.{
  ℕ, ◌+◌, ◌-◌, ◌≤◌, ◌<◌, ◌≡◌, ◌≢◌, refl, ◌⊎◌, Bool, true, false, List, [], ◌∷◌, Option, none, some,
  arith, length, ◌↔◌,
}
use dep2p.Base.{◌*◌, ◌^◌, map}
use dep2p.Base.Predicates.{All}
use dep2p.Keyspace.Tests.{toy}
use dep2p.QPeerset.{heard, waiting, queried, get_state}
use dep2p.QPeerset.Found.{FoundIn}
use dep2p.Query.Rounds.{Keeps}
use dep2p.Query.Valuable
use dep2p.Query.Valuable.{
  TimeOfOne, IsTime, time_of, mvp_duration, is_valuable, record_valuable_peers,
}
use dep2p.Query.Result
use dep2p.Query.Result.{LookupWithFollowupResult, construct_lookup_result}
use dep2p.Keyspace.{PeerId}
use dep2p.QPeerset.{QueryPeerset, PeerState}
use dep2p.QPeerset.Tests.{line, three, three-IsValid}
use dep2p.Query.{
  Config, Query, Outcome, answered, dial_failed, query_peer, receive, cancelled, new_query,
  seed_update,
}
use dep2p.Query.Invariant.{IsSound}
use dep2p.Query.Updates.{ended}
use dep2p.Query.Runs
use dep2p.Query.Runs.{Lives}
use dep2p.Query.Reachable
use dep2p.Query.Reachable.{Reached, seeded}

abbrev config : Config
config = record { self = 7; alpha = 2; beta = 2 }

abbrev never : QueryPeerset line → Bool
never qp = false

abbrev everyone : PeerId → Bool
everyone p = true

-- The goroutine of peer 12 runs.
abbrev one_running : Query line
one_running = record { query_peers = three; peer_times = []; terminated = false; running = 12 ∷ [] }

one_running-IsSound : IsSound config one_running
unfolding dep2p.QPeerset.get_state dep2p.Base.Predicates.keep dep2p.QPeerset.in_states
one_running-IsSound = record {
  set = three-IsValid;
  no_self = refl;
  once = (tt, tt);
  waits = (refl, tt);
  number_waiting = refl;
  bound = omega arith;
}

receive-IsSound_example :
    (q' : Query line) × (receive config never
        (query_peer config 10 everyone 12 (answered (11 ∷ 7 ∷ 15 ∷ []) 4))
        (ended config 10 everyone 12 one_running)
      ≡ some q')
    × IsSound config q'
    × Lives config never q'
unfolding dep2p.Query.Updates.occurs
receive-IsSound_example =
    Runs.receive-IsSound config never 10 everyone 12 (answered (11 ∷ 7 ∷ 15 ∷ []) 4) one_running
      one_running-IsSound refl refl

abbrev first : Query line
first = (Runs.start-IsSound config never 10 (15 ∷ 7 ∷ 12 ∷ 3 ∷ []) (omega arith)).0

first-Reached : Reached config never 10 everyone first
first-Reached =
    seeded (15 ∷ 7 ∷ 12 ∷ 3 ∷ []) first
      (Runs.start-IsSound config never 10 (15 ∷ 7 ∷ 12 ∷ 3 ∷ []) (omega arith)).1

Reached-IsSound_example : IsSound config first × Lives config never first
Reached-IsSound_example =
    Reachable.Reached-IsSound config never 10 everyone (omega arith) first first-Reached

-- Two seed peers answered, in 5 and in 9.
abbrev times : List (PeerId × ℕ)
times = (0x80, 5) ∷ (0x40, 9) ∷ []

five : (d : ℕ) → time_of times 0x80 ≡ some d → 5 ≡ d
unfolding time_of
five d e = cc

nine : (d : ℕ) → time_of times 0x40 ≡ some d → 9 ≡ d
unfolding time_of
nine d e = cc

times-IsTime : All (IsTime times) (0x80 ∷ 0x40 ∷ [])
times-IsTime = ((λ d e. omega (arith, five d e)), ((λ d e. omega (arith, nine d e)), tt))

is_valuable_lem_example :
    let seeds : List PeerId = 0x80 ∷ 0x40 ∷ [] in
    let shortest = mvp_duration times (2 ^ 63 - 1) seeds in
    ((shortest ≡ 2 ^ 63 - 1) ⊎ TimeOfOne times shortest seeds)
    × All (λ p. (d : ℕ) → time_of times p ≡ some d → shortest ≤ d) seeds
    × (shortest < 2 ^ 62
        → All
            (λ p.
              (is_valuable times shortest p ≡ true)
              ↔ ((d : ℕ) × (time_of times p ≡ some d) × (d < 2 * shortest)))
            seeds)
is_valuable_lem_example = Valuable.is_valuable_lem times (0x80 ∷ 0x40 ∷ []) times-IsTime

construct_lookup_result_lem_example :
    (r : LookupWithFollowupResult) × (u : QueryPeerset line) × (construct_lookup_result toy 2 2
        (toy.sum256 10)
        three
      ≡ some (r, u))
    × Keeps three u
    × (length r.peers ≤ 2)
    × All (FoundIn (heard ∷ waiting ∷ queried ∷ []) three) r.peers
    × ((states : PeerId → PeerState) × (r.state ≡ map states r.peers)
        × All (λ p. get_state p three ≡ some (states p)) r.peers)
construct_lookup_result_lem_example =
    Result.construct_lookup_result_lem toy 2 2 (toy.sum256 10) three three-IsValid
