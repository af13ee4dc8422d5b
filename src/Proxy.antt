-- ===== src/Proxy.antt =====
-- proxy/proxy.go: the reverse proxy in front of the workers.
pub mod Defs
pub mod Requests
mod Tests
