-- ===== src/Messages/Tests.antt =====
-- Messages, and each theorem at a concrete input.
use dep2p.Base.{
  ℕ, ◌^◌, ◌-◌, ◌≡◌, refl, List, [], ◌∷◌, map, Option, none, some, leb, if◌then◌else◌, ◌%◌,
}
use dep2p.Base.Predicates.{All}
use dep2p.Keyspace.{Bytes}
use dep2p.Messages.{
  MessageType, ConnectionType, Connectedness, AddrInfo, PeerRoutingInfo, Multiaddrs,
  get_cluster_level, new_message, connectedness, raw_peer_infos_to_pb_peers, peer_infos_to_pb_peers,
  peer_routing_infos_to_pb_peers, pb_peers_to_peer_infos,
}
use dep2p.Messages.Peers

-- An address is its one byte.
abbrev first : Bytes → Option ℕ
first [] = none
first (b ∷ bs) = some b

abbrev pub one_byte : Multiaddrs
one_byte = record { bytes = λ a. a ∷ []; new_multiaddr_bytes = first; new-bytes = λ a. refl }

level_wraps : get_cluster_level (new_message MessageType.ping 0 0 (2 ^ 31 - 1)) ≡ 2147483647
unfolding get_cluster_level new_message
level_wraps = refl

get_cluster_level-new_message_example :
    get_cluster_level (new_message MessageType.find_node 5 0 3)
    ≡ (if leb (2 ^ 31) (3 % 2 ^ 32) then 0 else 3 % 2 ^ 32)
get_cluster_level-new_message_example =
    Peers.get_cluster_level-new_message MessageType.find_node 5 0 3

abbrev infos : List AddrInfo
infos = record { id = 4; addrs = 8 ∷ 9 ∷ [] } ∷ record { id = 6; addrs = [] } ∷ []

pb_peers-raw_peers_example :
    pb_peers_to_peer_infos one_byte (raw_peer_infos_to_pb_peers one_byte infos) ≡ infos
pb_peers-raw_peers_example = Peers.pb_peers-raw_peers one_byte infos

abbrev routing_infos : List PeerRoutingInfo
routing_infos =
    record { info = record { id = 4; addrs = 8 ∷ [] }; connectedness = Connectedness.can_connect }
    ∷ []

pb_peers-routing_infos_example :
    (pb_peers_to_peer_infos one_byte (peer_routing_infos_to_pb_peers one_byte routing_infos)
      ≡ map (λ p. p.info) routing_infos)
    × (map (λ p. connectedness p.connection) (peer_routing_infos_to_pb_peers one_byte routing_infos)
        ≡ map (λ p. p.connectedness) routing_infos)
pb_peers-routing_infos_example = Peers.pb_peers-routing_infos one_byte routing_infos (tt, tt)

peer_infos-not_connected_example :
    All
      (λ p. p.connection ≡ ConnectionType.not_connected)
      (peer_infos_to_pb_peers one_byte (λ p. Connectedness.connected) infos)
peer_infos-not_connected_example =
    Peers.peer_infos-not_connected one_byte (λ p. Connectedness.connected) infos
