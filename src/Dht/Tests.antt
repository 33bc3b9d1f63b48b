-- ===== src/Dht/Tests.antt =====
-- Runs of the node's state, and each theorem at a concrete input.
use dep2p.Base.{
  ℕ, ◌+◌, ◌≤◌, ◌≡◌, ◌≢◌, ◌⊎◌, refl, true, false, List, [], ◌∷◌, none, some, length, arith,
}
use dep2p.Base.Predicates.{All}
use dep2p.Keyspace.{PeerId}
use dep2p.Keyspace.Tests.{toy}
use dep2p.KBucket.Change.{Table}
use dep2p.KBucket.Nearest.{nearest_peers}
use dep2p.KBucket.Invariant.{IsValid}
use dep2p.KBucket.Invariant.Marking.{Irreplaceable}
use dep2p.KBucket.Tests.{budget, full_table, full_table-IsValid}
use dep2p.Dht.{
  RtPeerLoop, on_timer, on_peer, on_refresh_finished, LookupChecks, check_done, handle_find_peer,
  ModeState, set_mode, mode_server, mode_client, set_handlers, member, useful_new_peer,
}
use dep2p.Dht.Loop
use dep2p.Dht.Loop.{Turns, none_yet, then_turn, refresh_ends, timer_fires}
use dep2p.Dht.Answers
use dep2p.Dht.Answers.{Answer, Listed}
use dep2p.Dht.Modes
use dep2p.Dht.Modes.{IsServed, ClosesServed}
use dep2p.Dht.Checks
use dep2p.Dht.Checks.{Reached, at_start, finds}

abbrev first_loop : RtPeerLoop toy budget
first_loop = record {
  table = full_table;
  mode = 1;
  bootstrap_count = 0;
  is_bootstrapping = false;
  timer_armed = false;
  fix_pending = false;
  refreshes = 0;
}

-- Two refreshes set the timer, which then fires.
abbrev frozen : RtPeerLoop toy budget
frozen =
    on_timer toy budget (on_refresh_finished toy budget (on_refresh_finished toy budget first_loop))

two_refreshes : Turns toy budget first_loop frozen
unfolding on_refresh_finished
two_refreshes =
    then_turn (then_turn (then_turn none_yet refresh_ends) refresh_ends) (timer_fires refl)

Turns-IsValid_example :
    IsValid toy frozen.table
    × ((now : ℕ) (latency : PeerId → ℕ) (p : PeerId)
        → (m : RtPeerLoop toy budget) × (on_peer toy budget now latency p frozen ≡ some m))
    × (frozen.timer_armed ≡ true → (2 ≤ frozen.bootstrap_count) × (frozen.is_bootstrapping ≡ false))
    × All Irreplaceable (on_timer toy budget frozen).table.buckets
Turns-IsValid_example =
    Loop.Turns-IsValid toy budget full_table-IsValid (omega arith) refl two_refreshes

abbrev sender : PeerId
sender = 0x40

abbrev target : PeerId
target = 0x60

handle_find_peer_lem_example :
    (l : List PeerId) × (handle_find_peer toy budget (λ p. true) 0 sender target 2 full_table
      ≡ some l)
    × All
        (λ p.
          Answer toy budget sender target
            (nearest_peers toy (toy.sum256 target) 2 none full_table)
            p
          × ((λ (p : PeerId). true) p ≡ true))
        l
    × (target ≢ sender → (λ (p : PeerId). true) target ≡ true → Listed toy budget target l)
handle_find_peer_lem_example =
    Answers.handle_find_peer_lem toy budget (λ p. true) 0 sender target 2 full_table
      (λ e. omega arith) (λ e. omega arith)

abbrev server : ModeState
server = record {
  mode = 1;
  handlers = 7 ∷ [];
  streams = record { protocol = 7; inbound = true } ∷ record { protocol = 7; inbound = false } ∷ [];
}

server-IsServed : IsServed (7 ∷ []) server
unfolding member
server-IsServed = record { server = λ e. (refl, tt); client = λ e. absurd (omega arith) }

set_mode-IsServed_example :
    let r = set_mode (7 ∷ []) 2 server in
    IsServed (7 ∷ []) r.1
    × ((2 ≡ mode_server) ⊎ (2 ≡ mode_client) → (r.0 ≡ true) × (r.1.mode ≡ 2))
    × (2 ≢ mode_server → 2 ≢ mode_client → 2 ≢ server.mode → (r.0 ≡ false) × (r.1 ≡ server))
    × (2 ≡ server.mode → (r.0 ≡ true) × (r.1 ≡ server))
    × (2 ≡ mode_client → server.mode ≢ 2 → ClosesServed (7 ∷ []) server.streams r.1.streams)
    × (2 ≢ mode_client → r.1.streams ≡ server.streams)
set_mode-IsServed_example = Modes.set_mode-IsServed (7 ∷ []) 2 server server-IsServed

abbrev running : List PeerId
running = 0x20 ∷ []

one_check : Reached toy budget 3 (record { lookup_check_capacity = 2; running = 0x20 ∷ [] })
unfolding dep2p.Dht.peer_found dep2p.KBucket.Bucket.get_peer dep2p.KBucket.Table.bucket_id_for_peer
    dep2p.Keyspace.common_prefix_len dep2p.Keyspace.zip_xor dep2p.Keyspace.convert_peer_id
    dep2p.KBucket.Change.new_info
one_check = finds (λ p. true) 0x20 full_table at_start refl

Reached-balance_example : (2 + length running ≡ 3) × (length running ≤ 3)
Reached-balance_example = Checks.Reached-balance toy budget 3 one_check
