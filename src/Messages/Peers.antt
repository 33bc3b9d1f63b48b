-- ===== src/Messages/Peers.antt =====
-- The levels and the peers of a message are read as they were written.
use mathlib.Core.Path.{ap₂}
use dep2p.Base.{ℕ, ◌+◌, ◌-◌, ◌%◌, ◌^◌, ◌≡◌, refl, ap, List, [], ◌∷◌, map, leb, if◌then◌else◌, arith}
use dep2p.Base.Predicates.{All}
use dep2p.Keyspace.{PeerId}
use dep2p.Messages.{
  MessageType, ConnectionType, Connectedness, AddrInfo, PeerRoutingInfo, Multiaddrs,
  get_cluster_level, new_message, connection_type, connectedness, peer_info_to_pb_peer,
  peer_routing_info_to_pb_peer, raw_peer_infos_to_pb_peers, peer_infos_to_pb_peers,
  peer_routing_infos_to_pb_peers, addresses, pb_peer_to_peer_info, pb_peers_to_peer_infos,
}

-- A message that NewMessage makes for a level from 0 to 2^31 - 1 has this level, also where the raw
-- level wraps round; for a negative int32 it has the level 0.
pub get_cluster_level-new_message :
    (type : MessageType) (key value level : ℕ)
    → get_cluster_level (new_message type key value level)
      ≡ (if leb (2 ^ 31) (level % 2 ^ 32) then 0 else level % 2 ^ 32)
unfolding get_cluster_level new_message
get_cluster_level-new_message type key value level =
    let same : ((level % 2 ^ 32 + 1) % 2 ^ 32 + 2 ^ 32 - 1) % 2 ^ 32 ≡ level % 2 ^ 32 =
      omega arith in
    ap (λ (l : ℕ). if leb (2 ^ 31) l then 0 else l) same

-- The connectedness that has a name.
abbrev pub Named : Connectedness → Type 0
Named (Connectedness.unnamed n) = ⊥
Named c = Unit {0}

connectedness-connection_type :
    (c : Connectedness) → Named c → connectedness (connection_type c) ≡ c
unfolding connectedness connection_type
connectedness-connection_type Connectedness.not_connected h = refl
connectedness-connection_type Connectedness.connected h = refl
connectedness-connection_type Connectedness.can_connect h = refl
connectedness-connection_type Connectedness.cannot_connect h = refl
connectedness-connection_type (Connectedness.unnamed n) h = absurd h

module _ (A : Multiaddrs) where
  addresses-bytes : (addrs : List ℕ) → addresses A (map A.bytes addrs) ≡ addrs
  unfolding addresses
  addresses-bytes [] = refl
  addresses-bytes (a ∷ addrs) = rw (A.new-bytes a, addresses) (ap (◌∷◌ a) (addresses-bytes addrs))

  info_back : (p : AddrInfo) → pb_peer_to_peer_info A (peer_info_to_pb_peer A p) ≡ p
  unfolding pb_peer_to_peer_info peer_info_to_pb_peer
  info_back p = ap (λ addrs. record { id = p.id; addrs = addrs }) (addresses-bytes p.addrs)

  routing_info_back :
      (p : PeerRoutingInfo) → pb_peer_to_peer_info A (peer_routing_info_to_pb_peer A p) ≡ p.info
  unfolding pb_peer_to_peer_info peer_routing_info_to_pb_peer
  routing_info_back p =
      ap (λ addrs. record { id = p.info.id; addrs = addrs }) (addresses-bytes p.info.addrs)

  -- The peers that RawPeerInfosToPBPeers writes are read by PBPeersToPeerInfos as they were, with
  -- their addresses and in their order.
  pub pb_peers-raw_peers :
      (peers : List AddrInfo)
      → pb_peers_to_peer_infos A (raw_peer_infos_to_pb_peers A peers) ≡ peers
  unfolding pb_peers_to_peer_infos raw_peer_infos_to_pb_peers
  pb_peers-raw_peers [] = refl
  pb_peers-raw_peers (p ∷ peers) = ap₂ ◌∷◌ (info_back p) (pb_peers-raw_peers peers)

  -- The peers that PeerRoutingInfosToPBPeers writes are read as they were, with their addresses and
  -- their connectedness, where that has a name.
  pub pb_peers-routing_infos :
      (peers : List PeerRoutingInfo)
      → All (λ p. Named p.connectedness) peers
      → (pb_peers_to_peer_infos A (peer_routing_infos_to_pb_peers A peers)
          ≡ map (λ p. p.info) peers)
        × (map (λ p. connectedness p.connection) (peer_routing_infos_to_pb_peers A peers)
            ≡ map (λ p. p.connectedness) peers)
  unfolding pb_peers_to_peer_infos peer_routing_infos_to_pb_peers
  pb_peers-routing_infos [] h = (refl, refl)
  pb_peers-routing_infos (p ∷ peers) h =
      let (infos, named) = pb_peers-routing_infos peers h.1 in
      (
        ap₂ ◌∷◌ (routing_info_back p) infos,
        ap₂ ◌∷◌ (connectedness-connection_type p.connectedness h.0) named,
      )

  -- Whatever the network says of the peers, the peers that PeerInfosToPBPeers writes are marked as not
  -- connected.
  pub peer_infos-not_connected :
      (n : PeerId → Connectedness) (peers : List AddrInfo)
      → All (λ p. p.connection ≡ ConnectionType.not_connected) (peer_infos_to_pb_peers A n peers)
  unfolding peer_infos_to_pb_peers
  peer_infos-not_connected n [] = tt
  peer_infos-not_connected n (p ∷ peers) = (refl, peer_infos-not_connected n peers)
