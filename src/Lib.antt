-- ===== src/Lib.antt =====
-- A model of the ProjectBook backend (Go), a REST server for design projects, and what holds of it.
--
-- A request passes the policies of its route before a handler: authentication by goAuth, the
-- project in the path, the permissions of the user in that project, the test of a permission bit,
-- a rate limit and the response cache. The list of policies is checked when a route is registered.
--
-- Base, Text          numbers, lists, results, bits; strings as lists of bytes with the functions of
--                     package strings (white space and letter case of ASCII)
-- Rbac                internal/core/rbac (permission bits, roles, DefaultRoleMask) and HasPerm of
--                     internal/core/policy/rbac.go
-- Policy.Metadata     internal/core/policy/metadata.go
-- Policy.Rules        internal/core/policy/validator.go, validator_rules.go (ValidateRouteMetadata);
--                     an error is a constructor with the values in its message
-- Policy.Http         requests, responses and errors: net/http, internal/core/auth/context.go,
--                     internal/core/errors, internal/core/response
-- Policy.Gates        internal/core/policy/policy.go, auth.go, permissions.go, rbac.go, ratelimit.go,
--                     internal/core/projectscope
-- Policy.CacheControl internal/core/policy/cachecontrol.go
-- Policy.Caching      internal/core/policy/cache.go
-- Cache               internal/core/cache/manager.go: templates, tags, versions and tokens, keys, Get and
--                     Set; Cache.Store has the state of the process and the commands of Redis
-- Policy.Pipeline     Chain, and the metadata of each constructor; Policy.Pipeline.Registry has the metadata
--                     as metadata.go stores it, by the pointer to the code of a policy
--
-- An update of an artifact is a JSON patch, checked against the rules of its kind and the status
-- that is stored, and then written by one UPDATE statement with conditions of its own.
--
-- Patchx              internal/core/patchx, ValidatePatch; Patchx.Merge is MergeShallow
-- Permissions         internal/core/permissions/resolver.go: the cached map of permission masks
-- Permissions.Tags    what an invalidation names: tags.go, InvalidateResolverUserCache
-- Permissions.Relational  relational.go and HybridResolver.Resolve
-- RateLimit           internal/core/ratelimit: keys, the Lua script and Allow; RateLimit.Identity is
--                     ResolveScopeAndIdentifier
-- Artifacts.Workflow  internal/modules/artifacts/service.go and dto.go: the checks of Update<Kind>
-- Artifacts.Kinds     the tables of the six kinds
-- Artifacts.Sql, Rows internal/modules/artifacts/repo.go: conditions with NULL, and what the UPDATE
--                     statements do to title, status, archived_from_status and document_revision
-- Artifacts.Updates   checks and statement together, with no other request between them
--
-- A listing has a limit and a cursor, which is an offset in disguise.
--
-- Pagination          internal/core/pagination/cursor.go, and the listing of internal/modules/activity,
--                     whose functions the other listings have copies of
--
-- The masks of a project's roles and members are changed by the team module, which also invites
-- users. Its operations are transactions on five tables, and any run of them is a TeamRun.
--
-- Team                internal/modules/team/dto.go: requests, roles, errors
-- Team.Store, Repo    internal/modules/team/repo.go: the tables, queries and operations
-- Team.Service        internal/modules/team/service.go
-- Team.Lifecycle      internal/core/permissions/lifecycle.go, on the same tables
-- Team.Resolution     the query of relational.go on the same tables
--
-- The process starts with a configuration that Load reads from the environment and Lint accepts.
--
-- Config              internal/core/config/config.go and profile.go: Load in Config.Load and
--                     Config.Services, Lint in Config.Lint with the lists of its checks
--
-- A handler is a function from a request, the headers set so far and the state of all services to
-- an outcome, a response or a panic, and the new state; a policy is a function on handlers. The
-- function AuthRequired is auth_required_policy, and so on: a definition has the name of the
-- function it models. Loops over lists are structural recursion. Decimal digits and a client that
-- follows cursors run on fuel: more than the number, and more requests than there are rows, is enough. The
-- query of a listing is run anew at each request, and what follows the cursors may get another order.
--
-- goAuth's Guard, the permission resolver, the rate limiter, the cache manager and the JSON encoder
-- are fields of the records Services and CacheManager, and nothing is assumed of them. The manager
-- runs over a record of four Redis commands, and what a theorem needs of counters is CounterLaws. The
-- limiter runs over a record of three Redis commands; what a theorem needs of them is the record
-- IsLive. SHA-256, net.SplitHostPort, the addresses of net/mail, URLs, networks, durations and floats of
-- the configuration, PostgreSQL's cast to uuid and the lookup of a project by its slug are parameters.
--
-- The tables hold the columns that the operations read or decide on. A transaction that fails leaves
-- them as they were; failures of the connection, of Redis and of the cache manager are left out, those of
-- the queries that UpdateProblem makes behind its UPDATE and of storing who changed a role's mask too, and
-- so are concurrent transactions, the notification of an invited user and the lists of the team
-- module as responses. Left out as well are request identifiers, metrics, logging, the SQL that is not
-- named above, the construction of the services and the check of arguments that panics when a route
-- is built. Modules of projects, pages, resources, calendar and home, the wiring of the process and
-- the tools are not modelled.
pub mod Artifacts
pub mod Base
pub mod Cache
pub mod Config
pub mod Pagination
pub mod Patchx
pub mod Permissions
pub mod Policy
pub mod RateLimit
pub mod Rbac
pub mod Team
pub mod Text
