-- ===== src/Tenancy.antt =====
-- services/tenancy: the metering events and the usage rollups that they build (metering.go, store.go,
-- postgres.go), and the quota that is checked against these (quota.go, tiers.go); the users,
-- workspaces, members, tokens and keys (store.go, postgres.go), and the service over them (server.go,
-- workspaces.go, authflow.go, apikeys.go).
mod Tests
mod ServiceTests
mod TokenTests
pub mod Metering
pub mod Rollups
pub mod Billing
pub mod Validity
pub mod Quota
pub mod Admission
pub mod Tiers
pub mod QuotaApi
pub mod Directory
pub mod Memberships
pub mod Access
pub mod Members
pub mod Credentials
pub mod Keys
pub mod Sessions
pub mod Refresh
pub mod Service
pub mod Follows
pub mod Owners
pub mod Custody
pub mod Authority
pub mod Rotation
pub mod Scope
use aether_edit.Prelude.{
  ℕ, zero, suc, ◌+◌, ◌-◌, ◌*◌, ◌/◌, ◌%◌, ◌^◌, ◌≤◌, ◌<◌, String, ◌≡◌, refl, sym, ap, ◌∙◌, subst, ◌≢◌,
  ◌↔◌, ◌⊎◌, inl, inr, Bool, true, false, not, ◌&&◌, ◌||◌, Option, none, some, List, [], ◌∷◌, ◌++◌,
  map, arith, str_eq, eq_iff, ltb, leb, ◌==◌, if◌then◌else◌, ltb→lt, lt→ltb, leb→le, ==_iff, tests,
  Bool-cases, Option-cases, length, get_elem?, set, length-append, get_or, take, drop, replicate,
  Result, ok, err, ◌>>=◌, ◌>>◌, guard,
}
use aether_edit.Prelude.Float.{Float}
use aether_edit.Prelude.Int.{ℤ}

-- The kinds of `contracts.MeteringEvent`, and any other text.
pub data MeteringKind : Type 0 where
  upload_session_created upload_completed : MeteringKind
  job_queued job_started job_completed job_failed : MeteringKind
  other_kind : String → MeteringKind

-- `contracts.MeteringEvent`, less the columns that are only stored. The zero time is `none`.
pub record MeteringEvent (fl : Float) : Type 0 where
  pub event_id : String
  pub workspace_id : String
  pub kind : MeteringKind
  pub bytes : Option ℤ
  pub encode_seconds : Option fl.F
  pub at : Option ℕ

-- `UsageRollup`, less the time of the update. The byte count is a sum of numbers that are checked not
-- to be negative.
pub record UsageRollup (fl : Float) : Type 0 where
  pub workspace_id : String
  pub month : String
  pub bytes_uploaded : ℕ
  pub encode_seconds : fl.F
  pub upload_sessions : ℕ
  pub uploads_completed : ℕ
  pub jobs_queued : ℕ
  pub jobs_started : ℕ
  pub jobs_completed : ℕ
  pub jobs_failed : ℕ

-- The tables tenancy_metering_events, by its primary key event_id, and tenancy_usage_rollups, by its
-- primary key of workspace and month.
pub record Ledger (fl : Float) : Type 0 where
  pub events : List (MeteringEvent fl)
  pub rollups : List (UsageRollup fl)

-- `Workspace`, less its time of creation.
pub record Workspace : Type 0 where
  pub id : String
  pub name : String
  pub plan_tier : String
  pub created_by : String
