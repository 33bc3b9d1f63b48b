-- ===== src/Lib.antt =====
-- A verification of dep2p, a Kademlia DHT library.
--
-- Parts and files
--   Keyspace     kbucket/keyspace/keyspace.go, kbucket/keyspace/xor.go, kbucket/util.go: keys are the
--                SHA-256 digests of identities, compared by the exclusive or. `xor_bytes` and `sum256`
--                (boxo/util, sha256-simd) are the parameter `Primitives`, with their documented laws.
--   KBucket      the package kbucket. KBucket/Bucket is bucket.go (peers, min, getPeer, remove,
--                pushFront, split), KBucket/Buckets the loops of table.go over the list of buckets,
--                KBucket/Table its lookups, KBucket/Change addPeer, removePeer and nextBucket,
--                KBucket/Nearest sorting.go and NearestPeers (KBucket/Nearest/Nearest shows that
--                they are the nearest), KBucket/Refresh table_refresh.go.
--                KBucket/Invariant states what holds of a table between calls.
--   QPeerset     qpeerset/qpeerset.go: the peers of a lookup and their states. The keys and distances of
--                go-keyspace are the parameter `Space`. A panic of the code is none.
--                QPeerset/Order states what holds of a set between calls.
--   Query        query.go: one lookup. `receive` is a round of the loop of run for an update,
--                `cancelled` the one for a cancelled context, `query_peer` the update that the
--                goroutine of a peer sends. Query/Invariant states what holds between rounds, and
--                Query/Reachable the lookups that the loop reaches. Query/Result is
--                constructLookupResult, Query/Valuable recordValuablePeers.
--   RtRefresh    rtrefresh/rt_refresh_manager.go: doRefresh, pingAndEvictPeers and a turn of loop. The
--                network is the parameter `Network`; the goroutines of the pings end in any order.
--                RtRefresh/Cpls is about the prefix lengths that are refreshed, RtRefresh/Liveness
--                about the evictions, RtRefresh/Turns about a whole turn.
--   PeerDiversity  kbucket/peerdiversity/filter.go. The strategy (PeerIPGroupFilter) and the packages
--                that read addresses are parameters. PeerDiversity/Limits is the filter as
--                makeRoutingTable of dht.go gives it to the table.
--   Dht          dht.go and handlers.go: the peer loop (Dht/Loop), the lookup checks (Dht/Checks), the
--                mode (Dht/Modes), and the answer to FIND_NODE (Dht/Answers). Dht/Server is dht_net.go with
--                the handlers of handlers.go, Dht/Streams what a stream of messages comes to.
--   Providers    providers/provider_set.go and providers/providers_manager.go. golang-lru is the parameter
--                `Cache`, go-datastore with the texts of the keys `Datastore`. Providers/Times is
--                about the times of the records, Providers/Sets about loadProviderSet,
--                Providers/Lookups about addProv and getProvidersForKey. Providers/Collector is the garbage
--                collection of run, with the parameter `Store`, Providers/Collecting about what it removes.
--   MessageManager  internal/net/message_manager.go: a peer's sender and its stream, of which
--                MessageManager/Streams and MessageManager/Retries state what a call comes to, and the
--                senders of all peers with the calls of any number of goroutines (MessageManager/Pool,
--                MessageManager/Owners). The network is the parameter `Transport`.
--   Messages     pb/message.go. go-multiaddr is the parameter `Multiaddrs`.
--   Messenger    pb/protocol_messenger.go; Messenger/Served joins it to the server of Dht/Server.
--   Routing      routing.go: Routing/Deadlines is about classicProvide, Routing/Found about
--                findProvidersAsyncRoutine.
--   ConnSupervisor  connSupervisor.go and discover.go: the actuators, the routing tables of the modes
--                and the lock of the two loops. The handshake is an argument.
--   Base         the names that the other modules share.
--
-- Modelling
--   An identity is a number that stands for its string, and only its hash and equality are used. A byte
--   slice is a list of numbers. A bucket is the list of its peers, the front first. Times are numbers,
--   0 for the zero time. The locks are not modelled: each method of the table is one step on its
--   record, and the calls of PeerAdded and PeerRemoved are recorded in their order. The diversity
--   filter is an interface, `Diversity`.
--   nextBucket recurses on fuel, `split_fuel`, and the loop at the end of removePeer on the number of
--   buckets (`trim_done`).
--   In a lookup the send of an update on the channel and its receipt by the loop are one step, for any
--   running goroutine: the goroutines do not read the query's state, so that only the order of the
--   receipts matters. The stop function and the DHT's peer filter are arguments.
--   Where the code calls sort.Sort, a sort by insertion stands for it; the theorems hold for what it
--   returns, and peers at one distance may stand in another order in the code.
--
--   Counts and sizes (count, n, bucketsize, alpha, beta) are natural numbers: what the code does on
--   negative ones, mostly a panic, is not modelled.
--
--   Bits are native numbers and their native operations, and a shift is a product or a quotient by a
--   power of two, cut to the width where the code does (8 and 16 bits in KBucket/Refresh). The random
--   bytes are arguments. The generated table of key prefixes is a parameter, with what it is generated
--   for as a hypothesis.
--   A select that may send although its context has ended takes either, as the parameter says.
--   A call that holds the lock of a sender is one step, with the network in any state before it. That a
--   goroutine prepares, uses or gives up any sender at any time contains what the goroutines of the code
--   do. The fuel of a sender's loop is 2: the flag `retry` ends it in the second round.
--   A psTryAdd and the select behind it are two steps of a goroutine, between which others may take theirs.
--   The mutex of the connection supervisor has its own state, since the code unlocks it too often; the
--   two loops are modelled one at a time.
--
-- Not modelled: the rest of query.go (the goroutines of the follow-up queries, dialling); the estimator
-- of the network's size, whose numbers are floating-point; the discovery of routing.go and the
-- measurements of lookup.go; construction, options and the connections of the bootstrap in dht.go; the
-- streams, the pubsub and the ping of applications; generated code, the copy of the libp2p core
-- interfaces, metrics and logging.
pub mod Base
pub mod Keyspace
pub mod KBucket
pub mod QPeerset
pub mod Query
pub mod RtRefresh
pub mod PeerDiversity
pub mod Dht
pub mod Providers
pub mod MessageManager
pub mod Messages
pub mod Messenger
pub mod Routing
pub mod ConnSupervisor
