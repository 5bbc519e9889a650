-- ===== src/Url.antt =====
-- Building request URLs (conjurapi/router_url.go), with what it calls of Go's packages path and
-- net/url.
mod Examples
pub mod Path
pub mod Escape
pub mod Router
