-- ===== src/Auth.antt =====
-- src/harbor_auth.cpp: `AuthManager`.
pub mod Text
pub mod Manager
pub mod Cookie
pub mod Request
pub mod Cors
