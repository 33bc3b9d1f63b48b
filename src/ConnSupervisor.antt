-- ===== src/ConnSupervisor.antt =====
-- connSupervisor.go and discover.go: the connections to the known peers, with a routing table for each
-- running mode of a peer.
pub mod Calls
pub mod Loops
pub mod Tests
use dep2p.Base.{ℕ, ◌≡◌, Bool, true, false, List, [], ◌∷◌, Option, none, some, ◌==◌, if◌then◌else◌}
use dep2p.Base.Maps.{Map, fetch, put, delete}
use dep2p.Keyspace.{PeerId, Bytes, Primitives}
use dep2p.KBucket.Table.{
  Diversity, AddResult, added, present, high_latency, not_diverse, no_capacity, new_routing_table,
  update_last_useful_at, update_last_successful_outbound_query_at,
}
use dep2p.KBucket.Change.{Table, add_peer}
use dep2p.Messages.{AddrInfo}

-- `tryToDialActuator`, less the fields that no code reads. The mode -1 is none.
pub record Actuator : Type 0 where
  pub peer_info : AddrInfo
  pub mode : Option ℕ
  pub connected : Bool

-- `ConnSupervisor`: `address_book` has the peers that were given to AddAddrs, the last one first, and
-- `try_connect_lock` is true where a goroutine holds the lock.
pub record ConnSupervisor (T : Type 0) : Type 0 where
  pub peer_addr_infos : List AddrInfo
  pub actuators : Map Actuator
  pub routing_tables : Map T
  pub address_book : List AddrInfo
  pub try_connect_lock : Bool

-- What a run comes to: a state, a fatal error of the runtime, or a call that does not return.
pub data Run (S : Type 0) : Type 0 where
  done : S → Run S
  fatal : Run S
  stuck : Run S

infixl 5 ◌>>=◌
abbrev pub ◌>>=◌ : {S U : Type 0} → Run S → (S → Run U) → Run U
done s >>= f = f s
fatal >>= f = fatal
stuck >>= f = stuck

module _ {T : Type 0} where
  unfoldable pub add_conn : AddrInfo → Bool → Option ℕ → ConnSupervisor T → ConnSupervisor T
  unfolding put
  add_conn p connected mode cs = record cs {
    actuators =
        put p.id (record { peer_info = p; mode = mode; connected = connected }) cs.actuators;
  }

  unfoldable pub remove_conn : AddrInfo → ConnSupervisor T → ConnSupervisor T
  unfolding delete
  remove_conn p cs = record cs { actuators = delete p.id cs.actuators }

  unfoldable pub is_connected : PeerId → ConnSupervisor T → Bool
  unfolding fetch
  is_connected p cs = elim (fetch p cs.actuators) [ none ↦ false | some tt' ↦ tt'.connected ]

  unfoldable pub add_addrs : AddrInfo → ConnSupervisor T → ConnSupervisor T
  add_addrs p cs = record cs { address_book = p ∷ cs.address_book }

  -- A lock that is held waits, for ever if nothing else runs. An unlock of a lock that is not held is
  -- a fatal error.
  unfoldable pub lock : ConnSupervisor T → Run (ConnSupervisor T)
  lock cs = if cs.try_connect_lock then stuck else done (record cs { try_connect_lock = true })

  unfoldable pub unlock : ConnSupervisor T → Run (ConnSupervisor T)
  unlock cs = if cs.try_connect_lock then done (record cs { try_connect_lock = false }) else fatal

module _ (P : Primitives) (D : Diversity) where
  abbrev pub Supervisor : Type 0
  Supervisor = ConnSupervisor (Table P D)

  -- `NewTable`, with the key of the own identity: buckets of 50 peers, an hour, and 100 hours.
  unfoldable pub new_table : (local : Bytes) → Table P D
  unfolding new_routing_table
  new_table local = new_routing_table D.State 50 local 3600000000000 360000000000000 none

  unfoldable pub renewed : PeerId → AddResult → Table P D → Table P D
  unfolding update_last_useful_at update_last_successful_outbound_query_at
  renewed p added t =
      (update_last_useful_at P (update_last_successful_outbound_query_at P t p 0).1 p 0).1
  renewed p present t = t
  renewed p high_latency t = t
  renewed p not_diverse t = t
  renewed p no_capacity t = t

  -- `renewKbucketRoutingTable`: none if `TryAddPeer` does not return.
  unfoldable pub renew_kbucket_routing_table :
      (now : ℕ) (latency : PeerId → ℕ) (mode : ℕ) (p : PeerId) → Table P D → Option (Table P D)
  unfolding add_peer renewed
  renew_kbucket_routing_table now latency mode p t =
      elim (add_peer P D now latency p mode true false t) [
        | none ↦ none
        | some (result, t') ↦ some (renewed p result t')
      ]

  module _ (now : ℕ) (latency : PeerId → ℕ) (local : Bytes) (handshake : PeerId → Option ℕ) where
    unfoldable pub table_for : ℕ → Supervisor → Table P D
    unfolding fetch new_table
    table_for mode cs = elim (fetch mode cs.routing_tables) [ none ↦ new_table local | some t ↦ t ]

    -- The end of a turn of either loop, with the mode that the handshake found.
    unfoldable pub shook_hands : AddrInfo → Option ℕ → Supervisor → Run Supervisor
    unfolding add_conn table_for renew_kbucket_routing_table put
    shook_hands p none cs = done (add_conn p false none cs)
    shook_hands p (some mode) cs =
        elim (renew_kbucket_routing_table now latency mode p.id (table_for mode cs)) [
          | none ↦ stuck
          | some t ↦ done (
              add_conn p true (some mode)
                (record cs { routing_tables = put mode t cs.routing_tables }))
        ]

    -- What both loops do for a peer.
    unfoldable pub connect : AddrInfo → Supervisor → Run Supervisor
    unfolding is_connected add_addrs shook_hands
    connect p cs =
        if is_connected p.id cs then done cs else shook_hands p (handshake p.id) (add_addrs p cs)

    -- `handleChanNewPeerFound`, for the peers of the channel.
    unfoldable pub found_one : (self : PeerId) → AddrInfo → Supervisor → Run Supervisor
    unfolding connect
    found_one self p cs = if p.id == self then done cs else connect p cs

    unfoldable pub handle_chan_new_peer_found :
        (self : PeerId) → List AddrInfo → Supervisor → Run Supervisor
    unfolding lock unlock found_one
    handle_chan_new_peer_found self [] cs = done cs
    handle_chan_new_peer_found self (p ∷ peer_chan) cs = lock cs >>= λ cs.
        found_one self p cs >>= λ cs.
        unlock cs >>= λ cs. handle_chan_new_peer_found self peer_chan cs

    -- The loop of `try`.
    unfoldable pub try_each : List AddrInfo → Supervisor → Run Supervisor
    unfolding connect unlock
    try_each [] cs = done cs
    try_each (p ∷ ps) cs = connect p cs >>= λ cs. unlock cs >>= λ cs. try_each ps cs

    -- The last unlock is the deferred one.
    unfoldable pub try : Supervisor → Run Supervisor
    unfolding lock try_each unlock
    try cs = elim cs.peer_addr_infos [
      | [] ↦ done cs
      | p ∷ ps ↦ lock cs >>= λ cs. try_each (p ∷ ps) cs >>= λ cs. unlock cs
    ]
