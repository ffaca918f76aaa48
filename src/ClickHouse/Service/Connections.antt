-- ===== src/ClickHouse/Service/Connections.antt =====
-- InitializeService of the ClickHouse provider leaks no connection.
use bindings.Common.{arith, GoMap}
use bindings.Sql.Connections.{KeepsCount}
use bindings.Sql.{History, Server, close_on_error, ping_context, sql_open}
use bindings.Url.{UrlLib}
use bindings.Sdk.{Sdk}
use bindings.ClickHouse.Service.{initialize_service}

-- A successful InitializeService has opened one connection and keeps it; a failed one leaves as
-- many open as before, whatever the step that failed.
pub initialize_service-KeepsCount :
    (sdk : Sdk) (server : Server) (urls : UrlLib) (service_config : GoMap) (h : History)
    → KeepsCount h (initialize_service sdk server urls service_config h)
unfolding initialize_service sql_open ping_context close_on_error
initialize_service-KeepsCount sdk server urls service_config h = ground arith
