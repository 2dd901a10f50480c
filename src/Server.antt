-- ===== src/Server.antt =====
-- src/server: the managers, the objects that they share, and the packet handlers.
pub mod Users
pub mod Rooms
pub mod Connections
pub mod State
pub mod Replication
pub mod Clients
pub mod Peers
pub mod Heartbeat
pub mod Links
pub mod Events
pub mod Loops
