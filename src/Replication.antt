-- ===== src/Replication.antt =====
-- core/internal/replication: the leader's view of its followers (manager.go), the follower's replication
-- loop (worker.go), and its reading of the leader's responses (tcp_transport.go).
pub mod Partition
pub mod Manager
pub mod Worker
pub mod TcpTransport
