-- ===== src/Authenticators.antt =====
-- The authenticators (conjurapi/authn/).
pub mod TokenFile
