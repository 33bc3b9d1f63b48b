-- ===== src/Messenger/Served.antt =====
-- The requests of a messenger to a node in server mode: the client and the server together.
use mathlib.Core.Option
use dep2p.Base.{ℕ, ◌≡◌, refl, ap, ◌∙◌, Bool, true, List, [], ◌∷◌, Option, none, some, arith}
use dep2p.Keyspace.{PeerId, Primitives}
use dep2p.KBucket.Table.{Diversity}
use dep2p.Messages.{
  add_provider, find_node, AddrInfo, Message, Multiaddrs, new_message, peer_infos_to_pb_peers,
  pb_peers_to_peer_infos,
}
use dep2p.Messages.Peers.{pb_peers-raw_peers}
use dep2p.Dht.{handle_find_peer}
use dep2p.Dht.Server.{
  Node, has_addrs, peer_infos, find_peer_reply, handler_for_msg_type, Turn, message, on_reply,
  on_message, handle_find_peer_message, Round, next, returns, written, new_message_round,
  handle_new_message, handle_new_stream, reset,
}
use dep2p.Messenger.{get_closest_peers, get_provider_infos, ping_peer, put_provider}

first : List Message → Option Message
first [] = none
first (m ∷ ms) = some m

module _ {P : Primitives} {D : Diversity} (A : Multiaddrs) (node : Node P D) (from : PeerId) where
  abbrev arrives : Message → List Turn
  arrives m = record { server = true; incoming = message m; writes = true } ∷ []

  -- The answer of the node to the message of a peer, over a network that loses nothing.
  unfoldable pub asks : PeerId → Message → Option Message
  unfolding first
  asks p m = first (handle_new_message (handler_for_msg_type A node) from (arrives m)).0

  abbrev pub closest : PeerId → Option (List PeerId)
  closest id =
      handle_find_peer P D (λ p. has_addrs (node.addrs p)) node.self from id node.bucket_size
        node.table

  -- What the client makes of the answer.
  abbrev read : Round → Option (List AddrInfo)
  read r =
      Option.map (λ resp. pb_peers_to_peer_infos A resp.closer_peers)
        (first
          (let x : List Message × Option Bool = elim r [
            | next m ↦ (written (handler_for_msg_type A node) from m [], none)
            | returns ordered ↦ ([], some ordered)
          ] in
            x).0)

  read_reply :
      (req : Message) (o : Option (List PeerId))
      → read (on_reply (handler_for_msg_type A node) from true (find_peer_reply A node req o))
        ≡ Option.map (peer_infos A node) o
  unfolding first on_reply find_peer_reply peer_infos_to_pb_peers written
  read_reply req none = refl
  read_reply req (some ps) = ap some (pb_peers-raw_peers A (peer_infos A node ps))

  -- GetClosestPeers of a peer that asks a node in server mode returns what handleFindPeer finds for it
  -- there, with the node's addresses of each peer, or its error.
  pub get_closest_peers-served :
      (p id : PeerId) (value : ℕ)
      → get_closest_peers A asks p id value ≡ Option.map (peer_infos A node) (closest id)
  unfolding get_closest_peers asks handle_new_message new_message_round handler_for_msg_type
      handle_find_peer_message handle_find_peer
  get_closest_peers-served p id value = read_reply (new_message find_node id value 0) (closest id)

  provider_type :
      (host : AddrInfo) (key : ℕ) (m : Message)
      → put_provider A host key ≡ some m
      → m.type ≡ add_provider
  unfolding put_provider
  provider_type host key m e = ground (arith, e)

  no_handler : handler_for_msg_type A node add_provider ≡ none
  unfolding handler_for_msg_type
  no_handler = refl

  refused :
      (m : Message)
      → handler_for_msg_type A node m.type ≡ none
      → handle_new_stream (handle_new_message (handler_for_msg_type A node) from (arrives m))
        ≡ reset
  unfolding handle_new_message new_message_round on_message handle_new_stream
  refused m h = rw (h, on_message, handle_new_message, handle_new_stream) refl

  -- Such a node answers a ping, and neither request for a provider: GetProviders has an error, and the
  -- message of PutProvider resets its stream.
  pub providers_refused :
      (p : PeerId) (host : AddrInfo) (key : ℕ) (m : Message)
      → put_provider A host key ≡ some m
      → (ping_peer A asks p ≡ true)
        × (get_provider_infos A asks p key ≡ none)
        × (handle_new_stream (handle_new_message (handler_for_msg_type A node) from (arrives m))
            ≡ reset)
  unfolding put_provider ping_peer get_provider_infos asks handle_new_message new_message_round
      handler_for_msg_type on_reply handle_new_stream
  providers_refused p host key m e = (
    refl,
    refl,
    refused m (ap (handler_for_msg_type A node) (provider_type host key m e) ∙ no_handler),
  )
