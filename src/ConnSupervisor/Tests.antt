-- ===== src/ConnSupervisor/Tests.antt =====
-- Runs of the connection supervisor, and each theorem at a concrete input.
use dep2p.Base.{ℕ, ◌≡◌, refl, true, false, [], ◌∷◌, Option, some, arith}
use dep2p.Base.Predicates.{All}
use dep2p.Base.Maps.{fetch}
use dep2p.Keyspace.{PeerId}
use dep2p.Keyspace.Distance.{IsDigest}
use dep2p.Keyspace.Tests.{toy, toy-IsDigest}
use dep2p.KBucket.Tests.{budget}
use dep2p.Messages.{AddrInfo}
use dep2p.ConnSupervisor.{done, fatal, is_connected, Supervisor, handle_chan_new_peer_found, try}
use dep2p.ConnSupervisor.Calls.{SoundTables}
use dep2p.ConnSupervisor.Loops
use dep2p.ConnSupervisor.Loops.{Joined}

abbrev known : AddrInfo
known = record { id = 0x40; addrs = 7 ∷ [] }

abbrev idle : Supervisor toy budget
idle = record {
  peer_addr_infos = known ∷ [];
  actuators = [];
  routing_tables = [];
  address_book = [];
  try_connect_lock = false;
}

abbrev server : PeerId → Option ℕ
server p = some 1

no_tables : SoundTables toy budget []
unfolding SoundTables fetch
no_tables mode t e = absurd (ground (arith, e))

digest : IsDigest (toy.sum256 0x10)
digest = toy-IsDigest 0x10

try-fatal_example : try toy budget 5 (λ p. 0) (toy.sum256 0x10) server idle ≡ fatal
try-fatal_example =
    Loops.try-fatal toy budget 5 (λ p. 0) (toy.sum256 0x10) server digest idle no_tables refl
      (λ e. cc)

handle_chan_new_peer_found_lem_example :
    (cs' : Supervisor toy budget) × (handle_chan_new_peer_found toy budget 5
        (λ p. 0)
        (toy.sum256 0x10)
        server
        0x10
        (known ∷ [])
        idle
      ≡ done cs')
    × SoundTables toy budget cs'.routing_tables
    × (cs'.try_connect_lock ≡ false)
    × ((q : PeerId) → is_connected q idle ≡ true → is_connected q cs' ≡ true)
    × All (Joined toy budget 5 (λ p. 0) (toy.sum256 0x10) server digest 0x10 cs') (known ∷ [])
handle_chan_new_peer_found_lem_example =
    Loops.handle_chan_new_peer_found_lem toy budget 5 (λ p. 0) (toy.sum256 0x10) server digest 0x10
      (known ∷ []) idle no_tables refl
