-- ===== src/Messenger/Tests.antt =====
-- The client and the server at concrete inputs.
use mathlib.Core.Option
use dep2p.Base.{◌≡◌, refl, true, List, [], ◌∷◌, ◌++◌, none}
use dep2p.Keyspace.{PeerId}
use dep2p.Messages.{
  add_provider, ping, Connectedness, AddrInfo, Message, new_message, raw_peer_infos_to_pb_peers,
}
use dep2p.Messages.Tests.{one_byte}
use dep2p.Messenger.{get_closest_peers, get_provider_infos, ping_peer, put_provider}
use dep2p.Messenger.Served
use dep2p.Messenger.Served.{asks, closest}
use dep2p.Dht.Server.{
  Node, peer_infos, handler_for_msg_type, Turn, message, eof, handle_new_message, handle_new_stream,
  reset,
}
use dep2p.Dht.Streams
use dep2p.Dht.Streams.{AllServed, Left}
use dep2p.Keyspace.Tests.{toy}
use dep2p.KBucket.Tests.{budget, full_table}

abbrev node : Node toy budget
node = record {
  self = 0x10;
  bucket_size = 2;
  table = full_table;
  addrs = λ p. p ∷ [];
  connectedness = λ p. Connectedness.connected;
}

abbrev asker : PeerId
asker = 0x40

get_closest_peers-served_example :
    get_closest_peers one_byte (asks one_byte node asker) 0x10 0x60 0
    ≡ Option.map (peer_infos one_byte node) (closest one_byte node asker 0x60)
get_closest_peers-served_example = Served.get_closest_peers-served one_byte node asker 0x10 0x60 0

abbrev host : AddrInfo
host = record { id = asker; addrs = 7 ∷ [] }

abbrev announcement : Message
announcement = record {
  type = add_provider;
  key = 5;
  value = 0;
  cluster_level_raw = 1;
  closer_peers = [];
  provider_peers = raw_peer_infos_to_pb_peers one_byte (host ∷ []);
}

providers_refused_example :
    (ping_peer one_byte (asks one_byte node asker) 0x10 ≡ true)
    × (get_provider_infos one_byte (asks one_byte node asker) 0x10 5 ≡ none)
    × (handle_new_stream (
          handle_new_message
            (handler_for_msg_type one_byte node)
            asker
            (record { server = true; incoming = message announcement; writes = true } ∷ []))
        ≡ reset)
unfolding put_provider
providers_refused_example =
    Served.providers_refused one_byte node asker 0x10 host 5 announcement refl

-- Two pings and the end of the stream.
abbrev turns : List Turn
turns =
    record { server = true; incoming = message (new_message ping 0 0 0); writes = true }
    ∷ record { server = true; incoming = message (new_message ping 0 0 0); writes = true }
    ∷ record { server = true; incoming = eof; writes = true }
    ∷ []

handle_new_stream_lem_example :
    (served : List Turn) × (rest : List Turn) × (turns ≡ served ++ rest)
    × AllServed
        (handler_for_msg_type one_byte node)
        asker
        served
        (handle_new_message (handler_for_msg_type one_byte node) asker turns).0
    × Left
        (handler_for_msg_type one_byte node)
        asker
        rest
        (handle_new_stream (handle_new_message (handler_for_msg_type one_byte node) asker turns))
handle_new_stream_lem_example = Streams.handle_new_stream_lem one_byte node asker turns
