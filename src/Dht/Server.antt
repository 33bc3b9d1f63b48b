-- ===== src/Dht/Server.antt =====
-- dht_net.go and handlers.go: the messages of a stream and their answers.
use dep2p.Base.{ℕ, Bool, true, false, List, [], ◌∷◌, map, Option, none, some, if◌then◌else◌}
use dep2p.Keyspace.{PeerId, Primitives}
use dep2p.KBucket.Table.{Diversity}
use dep2p.KBucket.Change.{Table}
use dep2p.Messages.{
  MessageType, put_value, get_value, add_provider, get_providers, find_node, ping, Connectedness,
  AddrInfo, Message, Multiaddrs, get_cluster_level, new_message, peer_infos_to_pb_peers,
}
use dep2p.Dht.{handle_find_peer}

-- What a handler returns: an error, no message, or one.
pub data Reply : Type 0 where
  failed : Reply
  no_message : Reply
  reply : Message → Reply

abbrev pub Handler : Type 0
Handler = PeerId → Message → Reply

unfoldable pub handle_ping : Handler
handle_ping p pmes = reply pmes

-- What the handler of FIND_NODE reads of the node.
pub record Node (P : Primitives) (D : Diversity) : Type 0 where
  pub self : PeerId
  pub bucket_size : ℕ
  pub table : Table P D
  -- The addresses of the peerstore, and the connections of the network.
  pub addrs : PeerId → List ℕ
  pub connectedness : PeerId → Connectedness

unfoldable pub has_addrs : List ℕ → Bool
has_addrs [] = false
has_addrs (a ∷ addrs) = true

module _ {P : Primitives} {D : Diversity} (A : Multiaddrs) (node : Node P D) where
  -- `pstore.PeerInfos`.
  unfoldable pub peer_infos : List PeerId → List AddrInfo
  peer_infos ps = map (λ p. record { id = p; addrs = node.addrs p }) ps

  unfoldable pub find_peer_reply : Message → Option (List PeerId) → Reply
  unfolding peer_infos peer_infos_to_pb_peers new_message get_cluster_level
  find_peer_reply pmes none = failed
  find_peer_reply pmes (some closest) =
      reply (record (new_message pmes.type 0 0 (get_cluster_level pmes)) {
        closer_peers = peer_infos_to_pb_peers A node.connectedness (peer_infos closest);
      })

  -- `handleFindPeer` with its message.
  unfoldable pub handle_find_peer_message : Handler
  unfolding find_peer_reply handle_find_peer has_addrs
  handle_find_peer_message from pmes = find_peer_reply pmes (
      handle_find_peer P D (λ p. has_addrs (node.addrs p)) node.self from pmes.key node.bucket_size
        node.table)

  -- none is nil: the other types are commented out.
  unfoldable pub handler_for_msg_type : MessageType → Option Handler
  unfolding handle_find_peer_message handle_ping
  handler_for_msg_type find_node = some handle_find_peer_message
  handler_for_msg_type ping = some handle_ping
  handler_for_msg_type put_value = none
  handler_for_msg_type get_value = none
  handler_for_msg_type add_provider = none
  handler_for_msg_type get_providers = none

-- What the stream gives: a message, the end, or an error of the reader or of Unmarshal.
pub data Incoming : Type 0 where
  message : Message → Incoming
  eof : Incoming
  unreadable : Incoming

-- What a round of `handleNewMessage` meets: the mode, the stream, and whether a write has no error.
pub record Turn : Type 0 where
  pub server : Bool
  pub incoming : Incoming
  pub writes : Bool

-- A round goes to the next one, with the message that was written if there is one, or returns whether
-- the stream ended in order.
pub data Round : Type 0 where
  next : Option Message → Round
  returns : Bool → Round

module _ (handler_for : MessageType → Option Handler) (from : PeerId) where
  unfoldable pub on_reply : (writes : Bool) → Reply → Round
  on_reply writes failed = returns false
  on_reply writes no_message = next none
  on_reply writes (reply m) = if writes then next (some m) else returns false

  unfoldable pub on_message : (writes : Bool) → Message → Round
  unfolding on_reply
  on_message writes req = elim (handler_for req.type) [
    | none ↦ returns false
    | some handler ↦ on_reply writes (handler from req)
  ]

  unfoldable pub on_incoming : (writes : Bool) → Incoming → Round
  unfolding on_message
  on_incoming writes (message req) = on_message writes req
  on_incoming writes eof = returns true
  on_incoming writes unreadable = returns false

  unfoldable pub new_message_round : Turn → Round
  unfolding on_incoming
  new_message_round t = if t.server then on_incoming t.writes t.incoming else returns false

  unfoldable pub written : Option Message → List Message → List Message
  written none ms = ms
  written (some m) ms = m ∷ ms

  -- The messages that are written in these rounds, and the result, none while the stream is open.
  unfoldable pub handle_new_message : List Turn → List Message × Option Bool
  unfolding written
  handle_new_message [] = ([], none)
  handle_new_message (t ∷ turns) =
      let rest = handle_new_message turns in
      elim (new_message_round t) [
        | returns ordered ↦ ([], some ordered)
        | next m ↦ (written m rest.0, rest.1)
      ]

-- `handleNewStream`: the stream is closed, or else reset.
pub data Ending : Type 0 where
  open_still : Ending
  closed : Ending
  reset : Ending

unfoldable pub handle_new_stream : List Message × Option Bool → Ending
handle_new_stream (ms, none) = open_still
handle_new_stream (ms, some true) = closed
handle_new_stream (ms, some false) = reset
