-- ===== src/Lib.antt =====
-- Verification of the distributed chat system: the servers of the cluster, the client program, their
-- wire protocol and the networking below it.
--
-- A server (server/ChatServer) accepts TCP connections. A connection is a client's, which logs in
-- and then sends messages and joins rooms, or another server's, which introduces itself by
-- S2S_CONNECT. Each server keeps a table of all users of the cluster and where they are
-- (server/UserManager), the members of each room here and the servers with members elsewhere
-- (server/ChatRoomManager), and the sessions and peers (server/ConnectionManager over
-- server/ClientSession and server/ServerNode). It tells its peers of logins, logouts and rooms and
-- routes messages to them (server/ReplicationManager), and drops a peer that is silent
-- (server/HeartbeatManager). All packets have one frame (protocol/MessageSerializer). main_server
-- makes a server of a configuration file; main_client reads lines, sends them through
-- client/ChatClient and prints what arrives.
--
-- Files and sources, from the repository's root:
--   Prelude, Dict: shared helpers; association lists for std::unordered_map and lists without
--     duplicates for std::unordered_set. The order of an unordered container is not specified: a
--     new key goes to the end here.
--   Text: include/core/common/Common.h (Trim, Split) and std::string::find; Text/Decimal:
--     std::to_string and std::stoi on int, as the C++ standard documents them; Text/Lines and
--     Text/Cutting: lemmas on lines and on texts that are cut. Text is a list of bytes.
--   Networking: src/core/networking/TcpSocket.cpp. What the operating system answers is an argument.
--     Networking/Winsock: the reference count in the same file, and SocketUtils.cpp.
--   Threading: include/core/threading/ThreadPool.h and src/core/threading/ThreadPool.cpp.
--   Config: src/core/config/ConfigManager.cpp; Logging: src/core/logging/Logger.cpp.
--   Protocol: include/protocol/Packet.h and src/protocol/MessageSerializer.cpp.
--   Server/Users: src/server/UserManager.cpp; Server/Rooms: src/server/ChatRoomManager.cpp;
--     each with an abstract specification in its child Refinement.
--   Server/Connections: src/server/ConnectionManager.cpp, ClientSession.cpp and ServerNode.cpp.
--     Objects behind std::shared_ptr stand on heaps and the maps hold their addresses.
--   Server/State: the fields of ChatServer, the send loops, and HandlePeerDisconnect.
--   Server/Replication: src/server/ReplicationManager.cpp; its children say what a send to the peers
--     never touches (Spares) and what it sends when the loops succeed (Reach).
--   Server/Clients: HandleClientPacket to HandleRoomCreate in src/server/ChatServer.cpp.
--   Server/Peers: HandleServerPacket to HandleS2SRoomMemberSync in the same file.
--   Server/Links: AddPeerConfig, Start, Stop, and what ListenerLoop and PeerConnectorLoop do for one
--     connection, in the same file.
--   Server/Heartbeat: src/server/HeartbeatManager.cpp.
--   Server/Events: the listener's reads, the queue of the pool with its tasks, and everything that can
--     happen to a server, one step at a time; Workers: the tasks in hand; LoginRace: HandleLogin in
--     two steps.
--   Server/Loops: the rounds of ListenerLoop and PeerConnectorLoop in src/server/ChatServer.cpp, of
--     HeartbeatLoop and of a worker of the pool; Turn says which thread goes next.
--   Startup: src/main_server.cpp, from the configuration to the server and its loop over std::cin,
--     with the rounds that the server's threads are through with when a line is read.
--   Client: src/client/ChatClient.cpp; Client/Texts: the texts that it prints.
--   Console: the commands and the loop at the prompt in src/main_client.cpp.
--   Programs: main_server and main_client from their start to their end, with what they print and how
--     they end (ServerMain, ClientMain); the other children say what becomes of a run.
--   Cluster: clients and servers together, no code of its own.
--   Tests: a server with two sessions and a peer, and the theorems at concrete inputs.
--
-- A function of the source is the definition of the same name in snake_case (`connect_client` and
-- `send_login` are Connect and Login of the client); `x_fields` is the part of a handler after Unpack,
-- other helpers say which part they are. An operation takes the state and returns the new one. What a
-- server sends is appended to `network.wire`: the socket, the buffer, the bytes that the system took
-- and the result. `answers` decides how the system answers each send loop; it may depend on all that
-- was sent, so a statement over any server covers every way in which sends fail, block or are cut up.
-- A client keeps the bytes that the system took and the text that was printed.
--
-- Loops and fuel: the send and receive loops are recursive on the system's answers, which end in a
-- failure, so a loop that blocks for ever is left out; how many answers are enough is stated with
-- the loops. Split runs as many rounds as the text has bytes, and a number is written with one round
-- more than its value; both are enough, as every round shortens the text or divides by ten. The
-- client's receive loop has one round more than its stream has bytes; each round but the last takes a
-- frame of at least five bytes off. Loops over std::cin run over a list of lines.
--
-- Concurrency: the source runs handlers on a thread pool, and the listener, the connector and the
-- heartbeat on threads of their own. Server/Events is a step relation: the listener enqueues a task
-- for each packet, a worker takes the first task of the queue if one of the pool's threads is free,
-- and the tasks that workers hold end in any order; accepts, losses, reconnections, checks of a
-- peer and time come in between. Each of these is one step. Server/Loops has the threads
-- themselves: a round of the listener takes the lists of sessions and peers before select, as the
-- source does, and asks for each handle whether it is in the set that select left; a round of the
-- connector tries each configured peer; a round of the heartbeat checks each peer; a worker takes a
-- task or ends one. A run is a list of such turns in any order, with the answers of the system. The
-- program main_server has such turns before each line that it reads; it stops the server as they left
-- it, and what its threads still do while Stop waits for them is left out.
-- Interleavings inside a handler are left out there; Server/Events/LoginRace has the one of two
-- logins. Mutexes only guard the single operations. The pool is only stopped with the server;
-- Threading has its shutdown, over any tasks, where the steps of several workers come in any order.
-- The client's receive loop runs by itself, without requests in between.
--
-- Machine integers: the length field wraps at 2 ^ 32 as in Serialize; std::stoi refuses what does not
-- fit an int; a handle is an unsigned 64-bit SOCKET and INVALID_SOCKET is 2 ^ 64 - 1. Times are
-- steady_clock readings in nanoseconds. The send loops count in `int`, which is not cut off here: a
-- buffer is taken to be shorter than 2 ^ 31 bytes, and a frame that a server reads always is.
--
-- Not modelled: the destructors of sockets that no pointer is left to, which close them, as of the
-- socket that RegisterPeerSocket replaces; what threads other than the main one write to std::cerr;
-- the futures of the thread pool, which nobody reads; the modes of the terminal,
-- which are system calls only; the log calls of the server and of main_server, on which no
-- behaviour depends, and the folder that main_server makes for the log; what the client's receive
-- thread does while its user types, after the half second that follows the login; tests, scripts
-- and build output.
pub mod Prelude
pub mod Dict
pub mod Text
pub mod Networking
pub mod Config
pub mod Logging
pub mod Threading
pub mod Protocol
pub mod Server
pub mod Startup
pub mod Client
pub mod Console
pub mod Programs
pub mod Cluster
mod Tests
