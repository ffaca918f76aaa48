-- ===== src/Lib.antt =====
-- The OpenRun binding providers: out-of-process service bindings that create database accounts for
-- apps and apply grants to them. Each provider is a Go package of its own that implements the
-- interface `binding.ServiceBinding` of the OpenRun SDK: InitializeService opens the admin
-- connection, GenerateAccount creates the objects of an account and reports them as artifacts,
-- DeleteArtifact undoes one, ApplyGrants and RevokeGrants hand a callback to the SDK's engine, which
-- calls it with lists of grants.
--
-- Parts and files:
-- - Common, Exec: shared lemmas; Go's errors as a tree (Exec/Errors), a Go function that returns
--   `(value, error)` and changes state as `Exec S A = S → Result A × S`.
-- - Sdk: the SDK's types, and its functions as the fields of a record, since the SDK is not in the
--   repository. Url: Go's url.URL, with parsing and printing as the fields of a record. GoText:
--   strings.ToLower, ToUpper and TrimSpace, whose effect on every code point is Unicode's.
-- - Sql: the `*sql.DB` of the SQL providers. The server is an arbitrary function of the history of
--   everything that it was asked before: nothing is assumed of what it answers, whatever other
--   clients do meanwhile. Sql/Plan: account generations as lists of statements.
--   Sql/Grants: the loop of every applyPerms, and what a run of it settles. Sql/Does: what an
--   operation executes when it succeeds, with a rule for each way of composing operations;
--   Sql/Settled applies it to the loop of an applyPerms. Sql/Executions: the statements with their
--   answers. Sql/Rows: the loop over the rows of a query. Sql/Lookups: what a query of one row was
--   answered. Sql/Commands: what RunCommand and the
--   health checks hand to the SDK. Sql/Perms, Sql/Connections: the rest that is shared.
-- - ClickHouse (clickhouse/clickhouse_binding.go): Password is generateClickhousePassword; Accounts is
--   GenerateAccount, clickhouseAccountURLs and DeleteArtifact; Perms is applyPerms with its closures
--   applyStmt and tableSpecific; Service is the life cycle and the callbacks of the grants.
-- - Oracle (oracle/oracle_binding.go): Accounts is GenerateAccount and DeleteArtifact; Perms is
--   applyPerms, applySchemaWide, applyObjectPerm and the lookups; Service as above.
-- - MongoDb (mongodb/mongodb_binding.go, mongodb/mongodb_atlas_api.go): Grants builds the privileges
--   and the Atlas roles; Client is the driver's admin client and the Atlas API client; Accounts is
--   generateSelfHostedAccount and DeleteArtifact; Users is setUserGrants, restoreSelfHostedUser,
--   ApplyGrants and RevokeGrants; Urls is buildMongoAccountURL; Service is initSelfHosted with
--   checkMongoAuthorizationEnabled; Atlas is initAtlas, generateAtlasAccount and waitForAtlasUser;
--   Generation is GenerateAccount for both kinds of service; Health is the health checks and
--   RunCommand.
-- - SqlServer (sqlserver/sqlserver_binding.go): GenerateAccount, DeleteArtifact with
--   dropSchemaCascade, applyPerms and the life cycle.
-- - Snowflake (snowflake/snowflake_binding.go, snowflake/snowflake_auth.go): Auth is
--   snowflakeAuthConfig and parseSnowflakePrivateKey; Accounts is GenerateAccount and DeleteArtifact;
--   Perms is applyPerms with resolveTableOrView and scanShowNames; Service as above. rows.Columns is
--   an argument, and every value of the column is a text.
-- - Databricks (databricks/databricks_binding.go, databricks/databricks_auth.go): Auth is
--   databricksAuthConfig, the host and the warehouse id; Quoting is quoteDatabricksIdent, with a
--   reader of quoted identifiers to compare it with; Workspace is the REST plane, whose calls are
--   logged beside the history of the SQL plane; Accounts is GenerateAccount and createAccountCredential;
--   Artifacts is DeleteArtifact; Perms is applyPerms; Service as above.
-- - Samples: concrete servers and SDK functions, for the Tests module of each provider.
--
-- Conventions. Names follow the source, in snake_case. Loops over slices are recursion on the list.
-- The one loop without such a bound, the polling of waitForAtlasUser, has fuel for its rounds, and
-- `none` is a run that has not ended when the fuel is spent; with a clock that does not go back and
-- waits of five seconds, one round more than a fifth of the configured seconds is enough, which is
-- proved; its deadline wraps in 64 bits as a time.Duration does. The verb %q is printed without its escapes. RawQuery is held as url.Values, which is how
-- the code reads and writes it. A context's cancellation is one of the errors that the server may
-- answer with, and in the polling loop a function of what went before. Logging has no effect.
-- Integers of type int64 are an abstract type where the code only passes them on.
--
-- Not modelled: GetAccountEnv, which returns constants; the entry points, which hand a provider to
-- the SDK's server; the transports of the Atlas HTTP client (digest and OAuth), of which only the
-- choice is modelled; Error() of an Atlas error, which formats a text.
pub mod Common
pub mod Exec
pub mod Sdk
pub mod Sql
pub mod Url
pub mod Samples
pub mod ClickHouse
pub mod Databricks
pub mod GoText
pub mod MongoDb
pub mod Oracle
pub mod Snowflake
pub mod SqlServer
