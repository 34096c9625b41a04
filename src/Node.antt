-- ===== src/Node.antt =====
-- internal/node/node.go: the configuration of a node, and its start and shutdown.
pub mod Flags
pub mod Config
pub mod Process
pub mod Startup
