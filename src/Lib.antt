-- ===== src/Lib.antt =====
-- The SCIM bridge of mas_iam_operator, services/scim-bridge: a program that keeps the users of
-- IBM Maximo Application Suite (MAS) in step with those of a Keycloak realm. And parts of the
-- installer, tools/mas-iam-installer, that sets up the bridge, Keycloak and LDAP on a cluster.
--
-- The program reads users from Keycloak (internal/keycloak), keeps those in scope, plans an action
-- for each (internal/bridge/planner.go), and executes the actions against the SCIM interface of MAS
-- (internal/mas). What it did is kept in a correlation store (internal/state), from which the next
-- pass plans. With groups configured, tracked users who left the groups are deactivated, never
-- deleted. After an error that says that
-- MAS refused the token, a new one is fetched and the pass repeated (internal/bridge/app.go).
--
-- Prelude holds the shared names, the lemmas on texts, lists and sorting, and Go's maps as
-- association lists. Errors holds Go's error values: `as_response` is `errors.As` for the
-- ResponseError of a SCIM call, `is_unauthorized` is `errors.Is` for ErrMASUnauthorized. Http is the
-- network, a parameter: a request leads to a response or an error and to a next state.
--
-- Config/Settings, Config/Env, Config/Parse and Config/Validate are internal/config/config.go.
-- Keycloak/Users, Keycloak/Groups and Keycloak/Client are internal/keycloak/client.go.
-- Mas/Payload is internal/mas/payload.go, Mas/Retry and Mas/Client are internal/mas/client.go and
-- internal/mas/auth.go, and Mas/Api is the interface MASClient that the executor uses.
-- State/Entry, State/Memory, State/File and State/Backend are internal/state/store.go; State/Api is
-- the interface Store with its contract `IsLawful`, a parameter of the theorems on the bridge.
-- State/File/Durable and State/File/Reload are on the state file.
-- Bridge/Profile, Bridge/Scope, Bridge/Patch, Bridge/Planner, Bridge/Executor, Bridge/Poller,
-- Bridge/Backfill and Bridge/App are the files of internal/bridge; Bridge/Executor/Entries holds the
-- entries that the executor saves, and Bridge/Executor/Steps its methods. The other modules below
-- them are named for what they prove.
-- Cleanup is cmd/scim-bridge-cleanup/main.go. Tests holds runs and examples.
--
-- The installer reads its values from flags and the environment, validates and completes them, and
-- checks the cluster and MAS before it installs anything. It configures the identity providers of
-- MAS through MAS's administration interface. In tools/mas-iam-installer/internal:
-- Installer/Settings, Installer/Components, Installer/Environment, Installer/Validate,
-- Installer/Target and Installer/Secret are config/install.go. Installer/Storage is
-- RankStorageClasses of preflight/preflight.go, and Installer/Preflight with Overwrite, Probes and
-- Run is the rest of that file. Installer/Cluster holds the queries of oc/client.go that the checks
-- make, and Cluster/Queries, Cluster/Secrets and Cluster/Instances the others. Installer/Admin with
-- Types, Client, Session and Providers is masadmin. Installer/Auth with Certificates, Apply,
-- Pipeline and Memory is how app/mas_auth_api.go configures the identity providers. Its waits run
-- on fuel, which is enough when it is one more than a number of pauses that together are longer
-- than the timeout.
--
-- A method that changes state takes it and returns it: the correlation store, the state of MAS and
-- that of Keycloak are values, and every request is a step of the state of its server. The mutex of
-- a store makes each of its methods one step. A Go map is an association list; where Go's order of
-- a loop over a map is not specified, one order is fixed and said at the definition.
--
-- The loop over the pages of a group has no bound in the source. It runs on fuel, one unit for a
-- page: it is enough that the group has fewer than fifty members for each unit, since each round
-- that goes on has read fifty. ListUsers calls itself with a page size at which it does not do so
-- again: it has fuel for two calls.
--
-- Not modelled: log lines, TLS, timeouts and contexts that are cancelled in a request, the flags of
-- the commands, the redaction of logged payloads, the installer's other commands and its prompts,
-- and the Helm operator and the scripts, which share no code with the bridge. JSON,
-- URLs, quoting, durations, the file system, the command line client of the cluster, the clock and
-- the random numbers are parameters.
pub mod Prelude
pub mod Errors
pub mod Http
pub mod Config
pub mod Keycloak
pub mod Mas
pub mod State
pub mod Bridge
pub mod Cleanup
pub mod Installer
pub mod Tests
