-- ===== src/Cluster.antt =====
-- Clients and servers together: what one program sends, the next one reads.
pub mod Messages
pub mod Presence
pub mod Linking
pub mod Rooms
