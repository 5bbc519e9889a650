-- ===== src/Calls.antt =====
-- The calls of the first version of the API (conjurapi/): a test where there is one, a request, and
-- the answer read.
mod Examples
pub mod Issuers
pub mod Ldap
pub mod Objects
pub mod Passwords
pub mod Policies
pub mod Variables
