-- ===== src/Lib.antt =====
-- OpenWrt RMM: the server's store of commands, fleet operations, rollouts and remote sessions, who may
-- use them, and the agent that runs the commands on a router.
--
-- A server keeps routers (devices), the commands for them, and operators with permissions; an agent on
-- each router claims commands and reports results. The modelled parts, and how they work together:
--
--   Schema      the tables, from server/internal/store/sqlite.go (Migrate) and
--               server/internal/model/model.go, as lists of rows in one record `Db`
--   Env         the clock, the random source and the signing key, given to each operation
--   Signing     internal/commandsig/commandsig.go: Canonical, Sign, Verify
--   Access      server/internal/store/permissions.go, and fleetPrincipal and fleetDeviceAccess of
--               fleet_operations.go; Access.Policy is SavePermissionPolicy, which closes sessions
--   Redact      RedactSensitiveOutput of server/internal/store/sqlite.go
--   Reactions   reactionCommandStillAllowed of server/internal/store/fleet_rules.go; its child Advance
--               is advanceFleetRule for one device, from the observation on
--   Rollouts    server/internal/store/rollout_waves.go and sqlite.go: Pause is
--               pauseGuardedRollout, Guard is validateRolloutGuard and guardReady, Batch the queue,
--               Report is HandleAgentRolloutResult as handleCommandResult of
--               server/internal/httpapi/server.go calls it, Status SetAgentRolloutStatus
--   Commands    newCommand, CreateCommand, ExpireClaimedCommands, SaveCommandResult and CancelCommand
--               of sqlite.go; Commands.Claim is ClaimNextCommand, which asks Access, Rollouts and
--               Reactions; Commands.History is their interleavings
--   Fleet       server/internal/store/fleet_operations.go and fleet_updates.go: Fleet.Create is
--               CreateFleetOperation, Fleet.Action SetFleetOperationAction, Fleet.Advance
--               advanceFleetOperation with its parts Poll and Dispatch
--   Sessions    CreateRemoteSession, AttachRemoteSessionCommand, CloseRemoteSession and
--               ExpireRemoteSessions of sqlite.go, and enforceFleetAccess and
--               CreateManagedRemoteCommand of fleet_access.go
--   Agent       agent/go/cmd/rmm-agent: Agent.Validate is what the agent accepts, Agent.State its files,
--               Agent.Process processCommand with the failures and stops around it, Agent.Shell
--               runCommand and the command lines that it runs, Agent.Redact the redaction, Agent.Profile profiles.go and internal/fleetprofile/profile.go;
--               Commands.Trust joins the server and the agent
--   Limiter     loginRateLimiter of server/internal/httpapi/auth.go
--   Notices     quiet hours and retry delays of server/internal/httpapi/notifications.go;
--               Notices.Deliveries is the queue of server/internal/store/notifications.go
--   Base        shared lists, texts and table operations
--   Examples    concrete inputs
--
-- An operation is a function from the database to a result and a database: a transaction is one step,
-- and one that fails leaves the database as it was. SQL statements are the functions of Base.Rows.
-- A column of JSON text is the record of what the code reads of it; instants are nanoseconds in ℕ.
-- An operation reads the clock once, where the code may read it several times within a transaction.
-- What stands outside the repository is a parameter: Ed25519, base64 and encoding/json in
-- `Ed25519` with `Ed25519Laws`; net/url, crypto/sha256 and the time formats in `CreateLib`;
-- strings.ToLower and crypto/rand in `Env`; the router's programs in `Platform` and
-- `ProfilePlatform` and `Programs`, its file system in `Circumstances` and `ProfileFaults`. No definition uses fuel: the loops of the code are over
-- finite lists, or count down to the attempt of a delivery.
--
-- Not modelled: errors of the database itself and its locks, HTTP and the web interface, what the
-- router's programs do, the agent's metrics and tunnels, the sending of notifications, schedules,
-- the samples of the metrics, incidents, and the creation and reconciliation of rollouts.
pub mod Base
pub mod Schema
pub mod Env
pub mod Signing
pub mod Access
pub mod Agent
pub mod Redact
pub mod Reactions
pub mod Rollouts
pub mod Commands
pub mod Fleet
pub mod Sessions
pub mod Notices
pub mod Limiter
pub mod Examples
