-- ===== src/Service.antt =====
-- The channel below all service clients: the methods of the services, and the intercepted call of one.
mod Methods
pub mod Channel
pub mod Stubs
pub mod Tokens
unfoldable pub use Methods.*
