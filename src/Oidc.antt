-- ===== src/Oidc.antt =====
-- internal/oidc: the authorization server.
pub mod Clients
pub mod Users
pub mod Server
pub mod Wire
pub mod Issue
pub mod Token
pub mod Authorize
pub mod Resources
pub mod History
pub mod Routes
pub mod Concurrent
