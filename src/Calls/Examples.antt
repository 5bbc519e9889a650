-- ===== src/Calls/Examples.antt =====
-- Calls of the first version of the API at concrete inputs (conjurapi/ldap_mappings.go).
use conjur_api_go.Common.{false}
use conjur_api_go.Requests.{Context}
use conjur_api_go.Session.Small.{small_server, small_client}

abbrev small_context : Context
small_context = small_server.context (small_client false "").config
