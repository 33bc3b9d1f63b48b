-- ===== src/Dht.antt =====
-- dht.go and handlers.go: the loop that fills the routing table, the bound on the lookup checks, the
-- mode of the node, and the answer to a FIND_NODE message.
pub mod Loop
pub mod Answers
pub mod Modes
pub mod Checks
pub mod Server
pub mod Streams
pub mod Tests
use dep2p.Base.{
  ℕ, ◌+◌, ◌-◌, ◌<◌, ◌≡◌, Bool, true, false, not, List, [], ◌∷◌, ◌++◌, map, Option, none, some, ltb,
  ◌==◌, if◌then◌else◌,
}
use dep2p.Base.Predicates.{keep}
use dep2p.Keyspace.{PeerId, Primitives, convert_key}
use dep2p.KBucket.Table.{
  Diversity, AddResult, added, present, high_latency, not_diverse, no_capacity, size,
  mark_all_peers_irreplaceable, update_last_successful_outbound_query_at, useful_new_peer,
}
use dep2p.KBucket.Change.{Table, add_peer}
use dep2p.KBucket.Nearest.{nearest_peers}

-- The state of `rtPeerLoop`. `timer_armed` is a timer channel that is set and has not fired,
-- `fix_pending` the message in `fixLowPeersChan`; `refreshes` counts the calls of `RefreshNoWait`.
pub record PeerLoop (T : Type 0) : Type 0 where
  pub table : T
  pub mode : ℕ
  pub bootstrap_count : ℕ
  pub is_bootstrapping : Bool
  pub timer_armed : Bool
  pub fix_pending : Bool
  pub refreshes : ℕ

abbrev pub mode_server : ℕ
mode_server = 1

abbrev pub mode_client : ℕ
mode_client = 2

module _ (P : Primitives) (D : Diversity) where
  abbrev pub RtPeerLoop : Type 0
  RtPeerLoop = PeerLoop (Table P D)

  -- The case of the timer.
  unfoldable pub on_timer : RtPeerLoop → RtPeerLoop
  unfolding mark_all_peers_irreplaceable
  on_timer l = record l { table = mark_all_peers_irreplaceable l.table; timer_armed = false }

  -- The start of the case of a peer: an empty table starts the bootstrap.
  unfoldable pub start_bootstrap : RtPeerLoop → RtPeerLoop
  unfolding size
  start_bootstrap l =
      if size l.table == 0
      then record l { is_bootstrapping = true; bootstrap_count = 0; timer_armed = false }
      else l

  -- What the result of `TryAddPeer` leads to. The clock is an argument.
  unfoldable pub on_result : ℕ → PeerId → AddResult → RtPeerLoop → RtPeerLoop
  unfolding update_last_successful_outbound_query_at
  on_result now p added l = record l { fix_pending = true }
  on_result now p present l = record l {
    table = (update_last_successful_outbound_query_at P l.table p now).1;
  }
  on_result now p high_latency l = l
  on_result now p not_diverse l = l
  on_result now p no_capacity l = l

  -- The case of a peer; none if `TryAddPeer` does not return.
  unfoldable pub on_peer :
      (now : ℕ) (latency : PeerId → ℕ) (p : PeerId) → RtPeerLoop → Option RtPeerLoop
  unfolding start_bootstrap add_peer on_result
  on_peer now latency p l =
      let l' = start_bootstrap l in
      elim (add_peer P D now latency p l'.mode true l'.is_bootstrapping l'.table) [
        | none ↦ none
        | some (result, t) ↦ some (on_result now p result (record l' { table = t }))
      ]

  -- The case of a refresh that has finished.
  unfoldable pub on_refresh_finished : RtPeerLoop → RtPeerLoop
  on_refresh_finished l =
      let count = l.bootstrap_count + 1 in
      record l {
        bootstrap_count = count;
        timer_armed = if count == 2 then true else l.timer_armed;
        is_bootstrapping = false;
        refreshes = if l.is_bootstrapping then l.refreshes + 1 else l.refreshes;
      }

-- `lookupCheckCapacity`, and the checks that run.
pub record LookupChecks : Type 0 where
  pub lookup_check_capacity : ℕ
  pub running : List PeerId

module _ (P : Primitives) (D : Diversity) where
  -- `peerFound`: none if the peer is dropped. `valid` is the result of `validRTPeer`, false also where
  -- that has an error.
  unfoldable pub peer_found :
      (valid : PeerId → Bool) (p : PeerId) → Table P D → LookupChecks → Option LookupChecks
  unfolding useful_new_peer
  peer_found valid p t c =
      if useful_new_peer P t p
      then (if valid p
          then (if c.lookup_check_capacity == 0
              then none
              else some (record {
                lookup_check_capacity = c.lookup_check_capacity - 1;
                running = p ∷ c.running;
              }))
          else none)
      else none

-- The end of the lookup check of a peer, with its answer: the capacity is given back, and the peer goes
-- to the routing table if it answered.
unfoldable pub take_out : PeerId → List PeerId → List PeerId
take_out p [] = []
take_out p (q ∷ qs) = if q == p then qs else q ∷ take_out p qs

unfoldable pub check_done : PeerId → (answered : Bool) → LookupChecks → Option PeerId × LookupChecks
unfolding take_out
check_done p answered c = (
  if answered then some p else none,
  record { lookup_check_capacity = c.lookup_check_capacity + 1; running = take_out p c.running },
)

module _ (P : Primitives) (D : Diversity) where
  -- The key of the message is a number that stands for the string, 0 for the empty one.
  unfoldable pub nearest_peers_to_query : (key count : ℕ) → Table P D → List PeerId
  unfolding nearest_peers
  nearest_peers_to_query key count t = nearest_peers P (convert_key P key) count none t

  -- The loop over the nearest peers; none is the nil that the node's own identity leads to.
  unfoldable pub filter_closer : (self from : PeerId) → List PeerId → Option (List PeerId)
  filter_closer self from [] = some []
  filter_closer self from (clp ∷ closer) =
      let rest = filter_closer self from closer in
      if clp == self
      then none
      else if clp == from
      then rest
      else elim rest [ none ↦ none | some filtered ↦ some (clp ∷ filtered) ]

  -- none is nil. `NearestPeers` never returns nil.
  unfoldable pub better_peers_to_query :
      (self key : ℕ) (from : PeerId) (count : ℕ) → Table P D → Option (List PeerId)
  unfolding nearest_peers_to_query filter_closer
  better_peers_to_query self key from count t =
      filter_closer self from (nearest_peers_to_query key count t)

  -- The loop that looks for the target among the closest peers.
  unfoldable pub found : PeerId → List PeerId → Bool
  found target [] = false
  found target (p ∷ closest) = if target == p then true else found target closest

  unfoldable pub add_target : (target from : PeerId) → List PeerId → List PeerId
  unfolding found
  add_target target from closest =
      if target == from
      then closest
      else if found target closest
      then closest
      else closest ++ (target ∷ [])

  -- The closest peers of the answer; nil reads as the empty list.
  unfoldable pub closest_peers :
      (self target : PeerId) (from : PeerId) (bucket_size : ℕ) → Table P D → List PeerId
  unfolding better_peers_to_query add_target
  closest_peers self target from bucket_size t =
      if target == self
      then self ∷ []
      else add_target target from (elim (better_peers_to_query self target from bucket_size t) [
        | none ↦ []
        | some filtered ↦ filtered
      ])

  -- `handleFindPeer`: none is its error, else the peers of the response. That the peerstore has an
  -- address of a peer is an argument.
  unfoldable pub handle_find_peer :
      (has_addrs : PeerId → Bool) (self from key : PeerId) (bucket_size : ℕ)
      → Table P D
      → Option (List PeerId)
  unfolding closest_peers
  handle_find_peer has_addrs self from key bucket_size t =
      if key == 0 then none else some (keep has_addrs (closest_peers self key from bucket_size t))

-- A stream of a connection: its protocol, and whether it came in.
pub record Stream : Type 0 where
  pub protocol : ℕ
  pub inbound : Bool

-- What `setMode` works on: the mode, the protocols that have a stream handler, the open streams.
pub record ModeState : Type 0 where
  pub mode : ℕ
  pub handlers : List ℕ
  pub streams : List Stream

unfoldable pub member : ℕ → List ℕ → Bool
member p [] = false
member p (q ∷ qs) = if p == q then true else member p qs

unfoldable pub set_handlers : List ℕ → List ℕ → List ℕ
unfolding member
set_handlers [] handlers = handlers
set_handlers (p ∷ ps) handlers =
    set_handlers ps (if member p handlers then handlers else p ∷ handlers)

unfoldable pub drop_handler : ℕ → List ℕ → List ℕ
drop_handler p [] = []
drop_handler p (q ∷ qs) = let rest = drop_handler p qs in if p == q then rest else q ∷ rest

unfoldable pub remove_handlers : List ℕ → List ℕ → List ℕ
unfolding drop_handler
remove_handlers [] handlers = handlers
remove_handlers (p ∷ ps) handlers = remove_handlers ps (drop_handler p handlers)

unfoldable pub stays_open : List ℕ → Stream → Bool
unfolding member
stays_open pset s = if member s.protocol pset then not s.inbound else true

module _ (server_protocols : List ℕ) where
  unfoldable pub move_to_server_mode : ModeState → ModeState
  unfolding set_handlers
  move_to_server_mode s = record s {
    mode = mode_server;
    handlers = set_handlers server_protocols s.handlers;
  }

  unfoldable pub move_to_client_mode : ModeState → ModeState
  unfolding remove_handlers stays_open
  move_to_client_mode s = record s {
    mode = mode_client;
    handlers = remove_handlers server_protocols s.handlers;
    streams = keep (stays_open server_protocols) s.streams;
  }

  -- Whether there is no error, and the state.
  unfoldable pub set_mode : ℕ → ModeState → Bool × ModeState
  unfolding move_to_server_mode move_to_client_mode
  set_mode m s =
      if m == s.mode
      then (true, s)
      else if m == mode_server
      then (true, move_to_server_mode s)
      else if m == mode_client
      then (true, move_to_client_mode s)
      else (false, s)
