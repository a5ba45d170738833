-- ===== src/Tenancy/Quota.antt =====
-- services/tenancy: the checks of `MeteredQuota` (quota.go) over the tiers (tiers.go) and the rollups.
-- Whether the database answers each call, and the present month, are arguments. Sizes are int64, and
-- their sum wraps round.
use aether_edit.Prelude.{
  ℕ, ◌+◌, ◌-◌, ◌%◌, ◌^◌, String, Bool, true, false, not, ◌&&◌, Option, none, some, str_eq, ltb,
  if◌then◌else◌, Result, ok, err,
}
use aether_edit.Prelude.Float.{Float}
use aether_edit.Prelude.Int.{ℤ, pos, negsuc, pos_part, ltb_ℤ}
use aether_edit.Prelude.Assoc.{Assoc, lookup}
use aether_edit.Tenancy.{Workspace, Ledger}
use aether_edit.Tenancy.Metering.{get_rollup, sum_storage_bytes}

-- `Tier`
pub record Tier (fl : Float) : Type 0 where
  pub encode_hours_per_month : fl.F
  pub storage_bytes : ℤ
  pub max_upload_bytes : ℤ
  pub allow_uploads : Bool
  pub allow_jobs : Bool

-- `MeteredQuota`: the workspaces and rollups of the store, and the tiers.
pub record MeteredQuota (fl : Float) : Type 0 where
  pub workspaces : Assoc Workspace
  pub ledger : Ledger fl
  pub tiers : Assoc (Tier fl)

pub data Reason : Type 0 where
  workspace_unknown tier_unknown : Reason
  uploads_disabled upload_size_exceeded storage_exceeded : Reason
  jobs_disabled encode_hours_exhausted : Reason

-- `contracts.QuotaDecision`
pub data Decision : Type 0 where
  allowed : Decision
  denied : Reason → Decision

pub data QuotaError : Type 0 where
  lookup_failed negative_size rollup_failed : QuotaError

-- A check goes on with a value, or ends in a decision or an error.
pub data Check (A : Type 0) : Type 0 where
  go_on : A → Check A
  decide : Result QuotaError Decision → Check A

infixl 5 ◌>>=◌
abbrev pub ◌>>=◌ : {A B : Type 0} → Check A → (A → Check B) → Check B
go_on a >>= f = f a
decide r >>= f = decide r

infixl 5 ◌>>◌
abbrev pub ◌>>◌ : {B : Type 0} → Check (Unit {0}) → Check B → Check B
m >> k = m >>= λ _. k

-- `if !test { return r }`
abbrev pub unless_decided : Bool → Result QuotaError Decision → Check (Unit {0})
unless_decided true r = go_on tt
unless_decided false r = decide r

-- The decision of a check that has come to its end.
abbrev pub conclude : Check (Unit {0}) → Result QuotaError Decision
conclude (go_on _) = ok allowed
conclude (decide r) = r

abbrev pub need_tier : {A : Type 0} → Option A → Reason → Check A
need_tier none r = decide (ok (denied r))
need_tier (some a) r = go_on a

-- The sum of two numbers as an int64.
unfoldable pub add_int64 : ℕ → ℕ → ℤ
add_int64 a b =
    let s = (a + b) % 2 ^ 64 in if ltb s (2 ^ 63) then pos s else negsuc (2 ^ 64 - 1 - s)

module _ {fl : Float} where
  -- `resolveTier`
  unfoldable pub resolve_tier : Bool → String → MeteredQuota fl → Check (Tier fl)
  unfolding lookup
  resolve_tier up ws q = do
    unless_decided up (err lookup_failed)
    w ← need_tier (lookup ws q.workspaces) workspace_unknown
    need_tier (lookup w.plan_tier q.tiers) tier_unknown

  -- The storage quota of `CheckUploadSession`, where the tier has one.
  unfoldable pub check_storage : Bool → String → ℕ → Tier fl → MeteredQuota fl → Check (Unit {0})
  check_storage up ws size t q =
      if ltb_ℤ (pos 0) t.storage_bytes
      then (do
        unless_decided up (err rollup_failed)
        unless_decided
            (not (ltb_ℤ t.storage_bytes (add_int64 (sum_storage_bytes ws q.ledger) size)))
            (ok (denied storage_exceeded)))
      else go_on tt

  -- `CheckUploadSession`
  unfoldable pub check_upload_session :
      Bool → Bool → String → ℤ → MeteredQuota fl → Result QuotaError Decision
  check_upload_session up sum_up ws size q = conclude (do
    unless_decided (not (str_eq ws "")) (ok (denied workspace_unknown))
    unless_decided (not (ltb_ℤ size (pos 0))) (err negative_size)
    t ← resolve_tier up ws q
    unless_decided t.allow_uploads (ok (denied uploads_disabled))
    unless_decided (not (ltb_ℤ (pos 0) t.max_upload_bytes && ltb_ℤ t.max_upload_bytes size))
        (ok (denied upload_size_exceeded))
    check_storage sum_up ws (pos_part size) t q)

  -- `rollup.EncodeSeconds`, which is 0 for a month without a rollup.
  unfoldable pub encoded_seconds : String → String → MeteredQuota fl → fl.F
  unfolding get_rollup
  encoded_seconds ws month q = elim (get_rollup ws month q.ledger) [
    | none ↦ fl.of_nat 0
    | some r ↦ r.encode_seconds
  ]

  -- The hours of `CheckJobAdmission`, where the tier has a limit.
  unfoldable pub check_hours : Bool → String → String → Tier fl → MeteredQuota fl → Check (Unit {0})
  unfolding encoded_seconds
  check_hours up ws month t q =
      if fl.lt (fl.of_nat 0) t.encode_hours_per_month
      then (do
        unless_decided up (err rollup_failed)
        unless_decided
            (not (
              fl.le (fl.mul t.encode_hours_per_month (fl.of_nat 3600))
                (encoded_seconds ws month q)))
            (ok (denied encode_hours_exhausted)))
      else go_on tt

  -- `CheckJobAdmission`
  unfoldable pub check_job_admission :
      Bool → Bool → String → String → MeteredQuota fl → Result QuotaError Decision
  check_job_admission up rollup_up ws month q = conclude (do
    unless_decided (not (str_eq ws "")) (ok (denied workspace_unknown))
    t ← resolve_tier up ws q
    unless_decided t.allow_jobs (ok (denied jobs_disabled))
    check_hours rollup_up ws month t q)
