-- ===== src/Snowflake/Service/Connections.antt =====
-- InitializeService of the Snowflake provider leaks no connection.
use bindings.Common.{arith, GoMap}
use bindings.Sql.Connections.{KeepsCount}
use bindings.Snowflake.Auth.{KeyLib}
use bindings.GoText.{GoText}
use bindings.Snowflake.Service.{initialize_service}
use bindings.Sql.{History, Server, sql_open, ping_context, close_on_error}
use bindings.Sdk.{Sdk}

-- A successful InitializeService has opened one connection and keeps it; a failed one leaves as
-- many open as before, whatever the step that failed.
initialize_service-KeepsCount_of_snowflake :
    {Key : Type 0} (sdk : Sdk) (text : GoText) (server : Server) (keys : KeyLib Key)
    (service_config : GoMap) (h : History)
    → KeepsCount h (initialize_service sdk text server keys service_config h)
unfolding initialize_service sql_open ping_context close_on_error
initialize_service-KeepsCount_of_snowflake sdk text server keys service_config h = ground arith
