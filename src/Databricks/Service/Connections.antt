-- ===== src/Databricks/Service/Connections.antt =====
-- InitializeService of the Databricks provider leaks no connection.
use bindings.Common.{arith, GoMap}
use bindings.Sql.Connections.{KeepsCount}
use bindings.Sql.{History, Server, query_context, query_row, close_on_error, ping_context}
use bindings.Databricks.Service.{ClientLib, initialize_service}
use bindings.Databricks.Workspace.{IntLib}
use bindings.Url.{UrlLib}
use bindings.GoText.{GoText}
use bindings.Sdk.{Sdk}

-- A successful InitializeService of Databricks has made one connection pool and keeps it; a failed
-- one leaves as many open as before, whatever the step that failed.
pub initialize_service-KeepsCount_of_databricks :
    {Int : Type 0} (sdk : Sdk) (text : GoText) (urls : UrlLib) (ints : IntLib Int)
    (clients : ClientLib) (server : Server) (c : GoMap) (h : History)
    → KeepsCount h (initialize_service sdk text urls ints clients server c h)
unfolding initialize_service ping_context close_on_error query_row query_context
initialize_service-KeepsCount_of_databricks sdk text urls ints clients server c h = ground arith
