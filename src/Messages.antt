-- ===== src/Messages.antt =====
-- pb/message.go: the messages of the DHT, and the peers in them. The generated code is not modelled: a
-- message is its fields.
pub mod Peers
pub mod Tests
use dep2p.Base.{
  ℕ, ◌+◌, ◌-◌, ◌%◌, ◌^◌, ◌≡◌, Bool, true, false, List, [], ◌∷◌, map, Option, none, some, ltb, leb,
  if◌then◌else◌,
}
use dep2p.Keyspace.{PeerId, Bytes}

pub data MessageType : Type 0 where
  put_value : MessageType
  get_value : MessageType
  add_provider : MessageType
  get_providers : MessageType
  find_node : MessageType
  ping : MessageType

-- `Message_ConnectionType` and network.Connectedness, with the numbers that have no name.
pub data ConnectionType : Type 0 where
  not_connected : ConnectionType
  connected : ConnectionType
  can_connect : ConnectionType
  cannot_connect : ConnectionType
  unnamed : ℕ → ConnectionType

pub data Connectedness : Type 0 where
  not_connected : Connectedness
  connected : Connectedness
  can_connect : Connectedness
  cannot_connect : Connectedness
  unnamed : ℕ → Connectedness

-- An address is a number that stands for its multiaddr.
pub record AddrInfo : Type 0 where
  pub id : PeerId
  pub addrs : List ℕ

pub record PeerRoutingInfo : Type 0 where
  pub info : AddrInfo
  pub connectedness : Connectedness

-- `Message_Peer`.
pub record Peer : Type 0 where
  pub id : PeerId
  pub addrs : List Bytes
  pub connection : ConnectionType

-- `Message`. Keys and values are numbers that stand for their bytes, 0 for none; the level is the
-- pattern of an int32.
pub record Message : Type 0 where
  pub type : MessageType
  pub key : ℕ
  pub value : ℕ
  pub cluster_level_raw : ℕ
  pub closer_peers : List Peer
  pub provider_peers : List Peer

-- The level is the pattern of an int.
unfoldable pub set_cluster_level : ℕ → Message → Message
set_cluster_level level m = record m { cluster_level_raw = (level % 2 ^ 32 + 1) % 2 ^ 32 }

unfoldable pub get_cluster_level : Message → ℕ
get_cluster_level m =
    let level = (m.cluster_level_raw + 2 ^ 32 - 1) % 2 ^ 32 in
    if leb (2 ^ 31) level then 0 else level

unfoldable pub new_message : MessageType → (key value level : ℕ) → Message
unfolding set_cluster_level
new_message type key value level = set_cluster_level level (record {
  type = type;
  key = key;
  value = value;
  cluster_level_raw = 0;
  closer_peers = [];
  provider_peers = [];
})

unfoldable pub connection_type : Connectedness → ConnectionType
connection_type Connectedness.not_connected = ConnectionType.not_connected
connection_type Connectedness.connected = ConnectionType.connected
connection_type Connectedness.can_connect = ConnectionType.can_connect
connection_type Connectedness.cannot_connect = ConnectionType.cannot_connect
connection_type (Connectedness.unnamed n) = ConnectionType.not_connected

unfoldable pub connectedness : ConnectionType → Connectedness
connectedness ConnectionType.not_connected = Connectedness.not_connected
connectedness ConnectionType.connected = Connectedness.connected
connectedness ConnectionType.can_connect = Connectedness.can_connect
connectedness ConnectionType.cannot_connect = Connectedness.cannot_connect
connectedness (ConnectionType.unnamed n) = Connectedness.not_connected

-- What the code takes from go-multiaddr: none is the error of `NewMultiaddrBytes`.
pub record Multiaddrs : Type 0 where
  pub bytes : ℕ → Bytes
  pub new_multiaddr_bytes : Bytes → Option ℕ
  pub new-bytes : (a : ℕ) → new_multiaddr_bytes (bytes a) ≡ some a

module _ (A : Multiaddrs) where
  open A use {bytes, new_multiaddr_bytes}

  -- The connection that is not set is the first one.
  unfoldable pub peer_info_to_pb_peer : AddrInfo → Peer
  peer_info_to_pb_peer p = record {
    id = p.id;
    addrs = map bytes p.addrs;
    connection = ConnectionType.not_connected;
  }

  unfoldable pub peer_routing_info_to_pb_peer : PeerRoutingInfo → Peer
  unfolding connection_type
  peer_routing_info_to_pb_peer p = record {
    id = p.info.id;
    addrs = map bytes p.info.addrs;
    connection = connection_type p.connectedness;
  }

  unfoldable pub raw_peer_infos_to_pb_peers : List AddrInfo → List Peer
  unfolding peer_info_to_pb_peer
  raw_peer_infos_to_pb_peers peers = map peer_info_to_pb_peer peers

  -- What the loop makes of the copy of an element.
  unfoldable pub with_connection : (PeerId → Connectedness) → Peer → Peer
  unfolding connection_type
  with_connection n pbp = record pbp { connection = connection_type (n pbp.id) }

  -- The loop over the slice changes `pbp`, which is a copy of each element, and the slice is returned.
  unfoldable pub peer_infos_to_pb_peers : (PeerId → Connectedness) → List AddrInfo → List Peer
  unfolding raw_peer_infos_to_pb_peers with_connection
  peer_infos_to_pb_peers n peers =
      let pbps = raw_peer_infos_to_pb_peers peers in
      let copies = map (with_connection n) pbps in pbps

  unfoldable pub peer_routing_infos_to_pb_peers : List PeerRoutingInfo → List Peer
  unfolding peer_routing_info_to_pb_peer
  peer_routing_infos_to_pb_peers peers = map peer_routing_info_to_pb_peer peers

  -- `Addresses`: what does not decode is left out.
  unfoldable pub addresses : List Bytes → List ℕ
  addresses [] = []
  addresses (addr ∷ addrs) =
      let rest = addresses addrs in
      elim (new_multiaddr_bytes addr) [ none ↦ rest | some maddr ↦ maddr ∷ rest ]

  unfoldable pub pb_peer_to_peer_info : Peer → AddrInfo
  unfolding addresses
  pb_peer_to_peer_info pbp = record { id = pbp.id; addrs = addresses pbp.addrs }

  unfoldable pub pb_peers_to_peer_infos : List Peer → List AddrInfo
  unfolding pb_peer_to_peer_info
  pb_peers_to_peer_infos pbps = map pb_peer_to_peer_info pbps
