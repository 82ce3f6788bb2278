-- ===== src/Auth.antt =====
-- src/rpc/auth.rs: the requests and responses for roles and users, and the client. Permissions are in
-- Permission.antt. `AuthClient` has no refresh of its own: a refused request is an error at once.
pub mod Scopes
mod Messages
mod Roles
mod Users
pub mod Client
pub use Messages.*
pub use Roles.*
pub use Users.*
