-- ===== src/Endpoint.antt =====
-- src/endpoint.rs: the client's relay endpoint, which address is in use and when it changes.
pub mod Backoff
pub mod Budget
pub mod Controller
pub mod Tests
