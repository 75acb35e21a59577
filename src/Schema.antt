-- ===== src/Schema.antt =====
-- The tables of server/internal/store/sqlite.go (Migrate) and the records of
-- server/internal/model/model.go that the modelled code reads and writes. A table is the list of
-- its rows. A column of JSON text is held as the code decodes it (`Json`, `Inventory`, `Metrics`),
-- a column of RFC 3339 text as the instant that it names, in nanoseconds.
-- The error return of the operations is `Result`.
mod Columns
mod Tables
pub use Columns.*
pub use Tables.*
use openwrt_rmm.Base.{ℕ, List, ◌≡◌, refl, arith}

-- The database, as far as the modelled code uses it. `draws` counts the identifiers drawn.
pub record Db : Type 0 where
  pub users : List User
  pub devices : List Device
  pub policies : List PolicyRow
  pub access_policies : List FleetAccessPolicy
  pub commands : List Command
  pub command_permissions : List CommandPermissionRow
  pub operations : List FleetOperation
  pub backups : List Backup
  pub rollouts : List Rollout
  pub rules : List RuleRow
  pub schedules : List ScheduleRow
  pub schedule_runs : List ScheduleRun
  pub sessions : List RemoteSession
  pub access_grants : List AccessGrant
  pub access_sessions : List AccessGrant
  pub audit : List AuditEvent
  pub draws : ℕ

-- A transaction: its statements take effect when its checks pass, and an error rolls it back.
unfoldable pub commit_if : Check → Db → Db → Check × Db
commit_if (ok u) after db = (ok u, after)
commit_if (err e) after db = (err e, db)

pub commit_if-ok :
    (c : Check) (after db : Db)
    → (commit_if c after db).0 ≡ ok tt
    → (commit_if c after db).1 ≡ after
unfolding commit_if
commit_if-ok (ok u) after db h = refl
commit_if-ok (err e) after db h = ground arith
