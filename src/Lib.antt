-- ===== src/Lib.antt =====
-- p2pnet: a daemon that connects peers under hashes of their keys, and serves local programs over
-- a Unix socket.
--
-- The parts, and how they meet. A program uses the client library (Client.Node), which connects to
-- the daemon (Client.Connection) and makes one exchange of messages for each call (Client.Session).
-- The requests go over the Unix socket, where the server (Api.Server) keeps a session for the
-- program; each is a frame (Api.Frame). The session (Api.Session) carries a request out on the node
-- manager (P2p.NodeManager), which knows which node has which hash (SH), and answers; Client.Peer
-- puts the library and the session together. Below, an overlay socket (Overlay.Socket) keeps a connection for each
-- peer (Overlay.Connection), under the TH of the peer's key; the own keys come from the key
-- provider (Overlay.KeyProvider). A connection sends over the connections of the transport
-- (Transport.Udp), which have endpoints (Transport.Endpoint). The distributed hash table
-- (Dht.Service) finds peers by the tree of buckets (Dht.KBucket), under the distance of hashes
-- (Crypto.Hash). Keys and ciphers are in Crypto.Keys and Crypto.Ciphers; these and hashes have
-- texts (Crypto.MathString), in base58 among others (Crypto.Base58). The daemon (Daemon) starts the
-- transport (Transport.Socket) and the discoveries, which find other daemons (Discovery). Settings
-- are read of Config; the errors of all parts are in Errors.
--
-- Files and sources (paths from the repository's root):
--   Base, Base/*             shared names, Boolean tests, lists, maps
--   Errors                   src/p2pnet.h, p2pnet.cpp
--   Config                   src/common/Config
--   Crypto/Hash              src/common/crypto/Hash.h, Hash.cpp, MathString.h
--   Crypto/Base58            src/common/crypto/base58.cpp
--   Crypto/MathString        src/common/crypto/MathString.h, base16.cpp, base64.cpp, crc32.cpp: setAsHex
--                            is set_as_hex, and so on; a derived class is a record of operations
--   Crypto/Keys              src/common/crypto/PrivateKeyDSA, PublicKeyDSA
--   Crypto/Ciphers           src/common/crypto/ECDH, AES
--   Version                  src/common/Version.h, src/version.h
--   P2p/NodeManager          src/daemon/p2p/Node, NodeManager, Socket: createNode is create_node,
--                            Node::bind is bind, destroyNode is destroy_node
--   Api/Message, Api/Frame   src/common/api/APIMessage.proto, UnixAPISocket.cpp
--   Api/Session              src/daemon/api/APISession: NodeRegister is register_node, and so on
--   Api/Server               src/daemon/api/APIServer, UnixAPIServer
--   Client/Session           src/library/P2PSession: clientExchange is start_exchange up to the wait and
--                            finish_exchange from there, with handle_receive between them
--   Client/Node              src/library/P2PNode.cpp, P2PSocket.cpp, P2PContext.cpp, Impl.h, and
--                            clientExchange of P2PDaemon.cpp
--   Client/Connection        src/library/daemon_conn
--   Client/KeyPair           src/library/Crypto.cpp
--   Client/Peer              the library against the session of src/daemon/api/APISession
--   Dht/KBucket              src/daemon/dht/KBucket, DHTNode: addNode is add_node; split is
--                            split_and_add, with the addition that follows it
--   Dht/Service              src/daemon/dht/DHTService, src/daemon/protobuf/DHT.proto
--   Overlay/Message          src/daemon/protobuf/OverlayProtocol.proto,
--                            src/daemon/overlay/PayloadParams.h
--   Overlay/Connection       src/daemon/overlay/Connection, and Socket::send of
--                            src/daemon/overlay/Socket
--   Overlay/Socket           src/daemon/overlay/Socket
--   Overlay/KeyProvider      src/daemon/overlay/KeyProvider
--   Transport/Endpoint       src/daemon/transport/SocketEndpoint, ip/IPInterfaceEndpoint
--   Transport/Udp            src/daemon/transport/udp/UDPConnection, UDPInterface, Connection, and the
--                            connection table of src/daemon/transport/Socket
--   Transport/Socket         src/daemon/transport/Socket: the interfaces
--   Discovery                src/daemon/discovery; Discovery/Settings: readConfig of UDPLPDv4.cpp
--                            and UDPLPDv6.cpp
--   Daemon                   src/daemon/Daemon, and the constructor in src/daemon/api/APIManager.cpp
-- Under each of these the other child modules hold proofs, named for what they prove; Tests holds runs.
--
-- How the code is modelled. Pointers to nodes, transport connections, processors and callbacks are
-- numbers, with a store where two parts share an object. A hash, a key and a text are lists of
-- bytes. What a call does besides changing its object (messages, callbacks) is a list of actions.
-- An exception, undefined behaviour and a call that does not end are values of the result.
-- Machine integers wrap where the source can reach the bound: the ids of a session (32 bits), the
-- size of a frame (32 bits), the size of the key history (32 bits), positions in a text (64 bits).
--
-- Fuel. add_node takes one unit for each split, and there are fewer splits than bits in the own
-- hash; encode_loop takes one for each division by 58, and the number's value is enough.
-- closest_loop and get_closest_to take one for each round of a loop, or call, of the source.
-- receive_loop takes the number of receives.
--
-- Parameters: Keccak, Botan's keys, ciphers, filters and big numbers, Protocol Buffers, Asio's
-- addresses and the printing and reading of numbers, the clock, the processors and what the
-- subclasses of the DHT define, which sockets and paths can be opened, the lines of the bootstrap
-- file, the environment and the parser of the configuration.
--
-- A UDP connection object lives while the connection table or a datagram in flight owns it; what reads it
-- after that is undefined. A write to the API socket is done when it is asked for.
--
-- The threads of a client are sequences of events: a call that begins, a message that arrives, a call
-- that goes on. The connection between a client and the daemon hands every message on; what the
-- frames do to a message is a matter of Api/Frame.
--
-- Not modelled: the system calls on sockets and files, logging, the connections of p2p nodes, whose
-- classes are empty, the contexts that a client's socket should make, which have no body, and
-- findAnyIterative of the DHT service.
pub mod Base
pub mod Errors
pub mod Config
pub mod Crypto
pub mod P2p
pub mod Api
pub mod Client
pub mod Dht
pub mod Overlay
pub mod Transport
pub mod Discovery
pub mod Daemon
pub mod Version
