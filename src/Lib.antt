-- ===== src/Lib.antt =====
-- A model of the cluster chat server: nodes that take requests from clients, keep in Redis which
-- node each user is logged in at, and pass messages to one another over TCP.
--
-- The parts and their files:
-- Wire: the bytes between processes. Frame has the ONC1 frame of `sendOneChat`
--   (src/server/clusterrouter.cpp) and its reader; Receive the loop of `ClusterServer::onMessage`
--   (src/server/clusterserver.cpp); Client the loop of `ChatServer::onMessage`
--   (src/server/chatserver.cpp). Rounds, Run, Chunks, RoundTrip and Requests are proofs about them.
-- Router: `ClusterRouter` (src/server/clusterrouter.cpp). Channel has the operations on one
--   `ShardChannel`, Table the map of channels and the sending of messages. Flow tells how the
--   threads' steps interleave on one channel, as a step relation whose steps are the parts under a
--   lock and the calls made behind it; Accept, Order, Wake, Keys, Routes and Ready are proofs.
-- Registry: `NodeRegistry` (src/server/noderegistry.cpp), over the record in Registry/Plane,
--   which Redis fills (`redis_plane`). Sessions, Resolve and Self are the proofs about lookups, Shared
--   those about two registries over one Redis server, Cleanup those about a node that goes.
-- Redis: the session and node operations of `Redis` (src/server/redis/redis.cpp), with the proofs
--   in Redis/Encoding and Redis/Store. The Redis server is a parameter that answers commands;
--   Store, Sessions and Index say what the proofs use of its documented replies; Sessions has the
--   abstract map of sessions that the calls of all nodes refine, as Promises proves; Index has the
--   sets of the nodes' users. Observer has connect, publish, subscribe and the rounds of the
--   observer thread.
-- Service: `ChatService` (src/server/chatservice.cpp). Connections has the buckets of clients,
--   Dispatch the queue of a loop and its drain, Chat and Group the handlers that pass messages on,
--   Session those that begin and end a session; what they use of the other parts is the record
--   `Peers`.
--   Order, Settle, Members, Everyone, Elsewhere and Login are proofs. Users has the abstract table of
--   connections that the buckets refine, and Table their invariant.
--   Requests has the handler table, the replies and `handleClusterMessage`, with the calls that the
--   two servers make; Link is the proof about whole connections.
--   Server has `ChatServer` with all its connections, ClusterServer the class of that name
--   (src/server/clusterserver.cpp) with those of the peers. Interleave has what the two share, a
--   server that keeps a text for each connection; Streams and Peers are the proofs that the
--   connections of each do not mix.
-- Cluster: a whole node. Machine makes an instance of `Peers` of the registry, the router and the
--   tables; Start has the constructor of `ChatService`, `initNode`, and `main` and `resetHandler`
--   (src/server/main.cpp). Across, Bound, Ready, Leave, LoggedIn, Reached, Excluded,
--   Moves, GroupAcross and GroupReached are proofs; Reached goes from a login at one node to a
--   message from another, Excluded from a login at one node to a login at another, Moves from the
--   end of a session at one node to a login at another, and GroupReached from a group message at
--   one node to its members at another.
-- Models: the table classes (src/server/model), with the database as a parameter, which
--   Models/Mysql fills with `MySQL` (src/server/db/db.cpp).
-- Pool: `ConnectionPool` (src/server/db/connectionpool.cpp), with the proofs in Pool/Lent.
-- Json: what the program uses of the JSON library (thirdparty/json.hpp), as an interface.
-- Reader: `findJsonEnd` of the client (src/client/main.cpp), with the proofs in Reader/Objects.
-- Client: the rest of src/client/main.cpp. Input is the menu's `getline`, Commands has the menu and
--   the requests, Receive the loop of `readTaskHandler`, Screen what is shown, Responses what is
--   done with a message, and Main the two threads as a step relation. Typed, Served, Stream, Keeps,
--   Login and Accepted are proofs; Served goes from a typed line to the handler on the node.
-- Config, Types, Text: src/server/config.cpp (Config/Env has the proofs),
--   include/server/clustertypes.hpp, and what the source uses of `std::string`.
-- Prelude: shared helpers. Tests: runs at concrete inputs.
--
-- Conventions. A byte is a number below 256 and a string is a list of bytes. An `int` is an
-- integer; where it crosses the wire its wrap-around is written out. A map is an association list.
-- What an operation asks of muduo (a send, a connect, a call queued in a loop) is a list of
-- actions that it returns. A shared channel is a pointer, an index into the router's list of
-- channels. The operations of the chat service, the registry and the table of channels are modelled
-- as calls with no other thread between their parts; the channel and the dispatcher of a loop are
-- also modelled step by step, with the other threads between the locked parts. The clock is part of
-- the outside state. `main_menu` runs on fuel, the number of rounds, since its loop need not end; no
-- theorem asks it to.
--
-- The three receiving loops run on fuel, the length of the buffer and one: each round but the last
-- takes at least one byte out of the buffer, so the fuel suffices.
--
-- Not modelled: the opening of the client's socket and its help text (src/client/main.cpp), the
-- calls that set up the servers and the signal handler, logging and metrics. The JSON library is a
-- parameter: it reads and writes text, and a `json::exception` is a
-- missing result; that `dump` throws on text that is not UTF-8 is left out. A line that the client
-- shows is one text, so the part of it that `cout` has when an exception comes is left out. `stoi`
-- is the standard library's, for an int of 32 bits. muduo, hiredis and the MySQL client library
-- are parameters.
pub mod Prelude
pub mod Wire
pub mod Text
pub mod Types
pub mod Json
pub mod Config
pub mod Router
pub mod Redis
pub mod Registry
pub mod Models
pub mod Service
pub mod Pool
pub mod Reader
pub mod Client
pub mod Cluster
mod Tests
