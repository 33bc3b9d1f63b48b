-- ===== src/Messenger.antt =====
-- pb/protocol_messenger.go: the requests to a peer. The sender of messages is the parameter `send`:
-- none is its error. Spans and logging are left out.
pub mod Served
pub mod Tests
use dep2p.Base.{ℕ, ◌≡◌, Bool, true, false, List, [], ◌∷◌, Option, none, some, if◌then◌else◌}
use dep2p.Keyspace.{PeerId}
use dep2p.Messages.{
  MessageType, put_value, get_value, add_provider, get_providers, find_node, ping, AddrInfo,
  Message, Multiaddrs, new_message, raw_peer_infos_to_pb_peers, pb_peers_to_peer_infos,
}

unfoldable pub is_ping : MessageType → Bool
is_ping put_value = false
is_ping get_value = false
is_ping add_provider = false
is_ping get_providers = false
is_ping find_node = false
is_ping ping = true

module _ (A : Multiaddrs) (send : PeerId → Message → Option Message) where
  -- none is the error.
  unfoldable pub get_closest_peers : (p id : PeerId) (value : ℕ) → Option (List AddrInfo)
  unfolding new_message pb_peers_to_peer_infos
  get_closest_peers p id value = elim (send p (new_message find_node id value 0)) [
    | none ↦ none
    | some resp ↦ some (pb_peers_to_peer_infos A resp.closer_peers)
  ]

  -- The providers and the closer peers.
  unfoldable pub get_provider_infos :
      (p : PeerId) (key : ℕ) → Option (List AddrInfo × List AddrInfo)
  unfolding new_message pb_peers_to_peer_infos
  get_provider_infos p key = elim (send p (new_message get_providers key 0 0)) [
    | none ↦ none
    | some resp ↦
        some
          (pb_peers_to_peer_infos A resp.provider_peers, pb_peers_to_peer_infos A resp.closer_peers)
  ]

  -- Whether there is no error: the type of the response is ping.
  unfoldable pub ping_peer : PeerId → Bool
  unfolding new_message is_ping
  ping_peer p = elim (send p (new_message ping 0 0 0)) [
    | none ↦ false
    | some resp ↦ is_ping resp.type
  ]

module _ (A : Multiaddrs) where
  -- `PutProvider` for the host with these identity and addresses: the message that is sent, none
  -- where the host has no address. It waits for no response.
  unfoldable pub put_provider : AddrInfo → (key : ℕ) → Option Message
  unfolding new_message raw_peer_infos_to_pb_peers
  put_provider host key = elim host.addrs [
    | [] ↦ none
    | a ∷ addrs ↦ some (record (new_message add_provider key 0 0) {
      provider_peers = raw_peer_infos_to_pb_peers A (host ∷ []);
    })
  ]
