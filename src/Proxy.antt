-- ===== src/Proxy.antt =====
-- The crate crates/syllog-proxy: the choice of a route, and the registry of providers.
pub mod Router
pub mod Registry
