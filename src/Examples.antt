-- ===== src/Examples.antt =====
-- Concrete inputs for the theorems, and the theorems at those inputs.
pub mod Inputs
pub mod Cookies
pub mod Access
pub mod Sessions
pub mod Timeouts
pub mod Servers
pub mod Requests
pub mod Handlers
pub mod Logins
pub mod Types
pub mod Texts
