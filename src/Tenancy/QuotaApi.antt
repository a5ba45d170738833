-- ===== src/Tenancy/QuotaApi.antt =====
-- services/tenancy: the quota endpoints for the other services (quota.go) behind the internal token
-- (server.go).
use aether_edit.Prelude.{
  ℕ, String, Bool, Option, none, some, str_eq, if◌then◌else◌, Result, ok, err,
}
use aether_edit.Prelude.Float.{Float}
use aether_edit.Prelude.Int.{ℤ, pos, ltb_ℤ}
use aether_edit.Tenancy.Quota.{
  MeteredQuota, Decision, QuotaError, check_upload_session, check_job_admission,
}

pub data QuotaReply : Type 0 where
  fail : ℕ → String → QuotaReply
  decided : Decision → QuotaReply

-- `quotaUploadRequest`
pub record QuotaUploadRequest : Type 0 where
  pub workspace_id : String
  pub size_hint_bytes : ℤ

-- `internalAuthMiddleware`, of the configured token and the header.
unfoldable pub internal_auth : String → String → QuotaReply → QuotaReply
internal_auth token got rest = if str_eq got token then rest else fail 401 "unauthorized"

abbrev pub decision_view : Result QuotaError Decision → QuotaReply
decision_view (ok d) = decided d
decision_view (err e) = fail 500 "internal"

abbrev pub upload_reply : Result QuotaError Decision → QuotaUploadRequest → QuotaReply
upload_reply r req =
    if str_eq req.workspace_id ""
    then fail 400 "invalid_workspace_id"
    else if ltb_ℤ req.size_hint_bytes (pos 0)
    then fail 400 "invalid_size_hint"
    else decision_view r

module _ {fl : Float} where
  -- `handleQuotaCheckUpload`, of a body that may not decode.
  unfoldable pub handle_quota_check_upload :
      Bool → Bool → Option QuotaUploadRequest → MeteredQuota fl → QuotaReply
  handle_quota_check_upload up sum_up none q = fail 400 "invalid_body"
  handle_quota_check_upload up sum_up (some req) q =
      upload_reply (check_upload_session up sum_up req.workspace_id req.size_hint_bytes q) req

  -- `handleQuotaCheckJob`, of the workspace in the body.
  unfoldable pub handle_quota_check_job :
      Bool → Bool → String → Option String → MeteredQuota fl → QuotaReply
  handle_quota_check_job up rollup_up month none q = fail 400 "invalid_body"
  handle_quota_check_job up rollup_up month (some ws) q =
      if str_eq ws ""
      then fail 400 "invalid_workspace_id"
      else decision_view (check_job_admission up rollup_up ws month q)
