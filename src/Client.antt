-- ===== src/Client.antt =====
-- The worker of the client: internal/client/worker.go and tcp_worker.go.
pub mod Active
pub mod Http
pub mod Task
pub mod Pool
pub mod Tcp
pub mod Memory
