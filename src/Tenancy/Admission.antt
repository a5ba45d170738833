-- ===== src/Tenancy/Admission.antt =====
-- services/tenancy/quota.go: exactly what is admitted.
use aether_edit.Prelude.{
  ℕ, ◌+◌, ◌%◌, ◌^◌, ◌<◌, String, ◌≡◌, ◌↔◌, ◌⊎◌, inl, inr, true, false, some, arith, str_eq, ltb,
  lt→ltb, Option-cases, ok,
}
use aether_edit.Prelude.Float.{Float}
use aether_edit.Prelude.Int.{ℤ, pos, ◌≤ℤ◌}
use aether_edit.Prelude.Assoc.{lookup}
use aether_edit.Tenancy.{Workspace}
use aether_edit.Tenancy.Metering.{sum_storage_bytes}
use aether_edit.Tenancy.Quota.{
  Reason, workspace_unknown, tier_unknown, Tier, MeteredQuota, allowed, denied, go_on, decide,
  add_int64, resolve_tier, check_storage, check_upload_session, encoded_seconds, check_hours,
  check_job_admission,
}

wrap_lem : (n : ℕ) → n < 2 ^ 63 → (n % 2 ^ 64 ≡ n) × (ltb n (2 ^ 63) ≡ true)
wrap_lem n h = (omega (arith, h), lt→ltb n (2 ^ 63) h)

-- A limit that is not positive is none.
abbrev pub IsWithin : ℕ → ℤ → Type 0
IsWithin n limit = (limit ≤ℤ pos 0) ⊎ (pos n ≤ℤ limit)

add_int64_small : (a b : ℕ) → a + b < 2 ^ 63 → add_int64 a b ≡ pos (a + b)
unfolding add_int64
add_int64_small a b h = ground (arith, wrap_lem (a + b) h)

module _ {fl : Float} where
  -- The workspace and its tier are known.
  pub record HasTier (ws : String) (q : MeteredQuota fl) (t : Tier fl) : Type 0 where
    pub workspace : Workspace
    pub known : lookup ws q.workspaces ≡ some workspace
    pub defined : lookup workspace.plan_tier q.tiers ≡ some t

  resolve_lem :
      (ws : String) (q : MeteredQuota fl) (t : Tier fl)
      → HasTier ws q t
      → resolve_tier true ws q ≡ go_on t
  unfolding resolve_tier
  resolve_lem ws q t k = ground (arith, k.known, k.defined)

  resolve_cases :
      (ws : String) (q : MeteredQuota fl)
      → ((t : Tier fl) × HasTier ws q t)
        ⊎ ((r : Reason) × (resolve_tier true ws q ≡ decide (ok (denied r))))
  unfolding resolve_tier
  resolve_cases ws q = elim (Option-cases (lookup ws q.workspaces)) [
    | inl absent ↦ inr (workspace_unknown, ground (arith, absent))
    | inr (w, e) ↦ elim (Option-cases (lookup w.plan_tier q.tiers)) [
      | inl absent ↦ inr (tier_unknown, ground (arith, e, absent))
      | inr (t, d) ↦ inl (t, record { workspace = w; known = e; defined = d })
    ]
  ]

  -- With a known tier, and the database answering.
  with_tier :
      (ws : String) (size : ℕ) (q : MeteredQuota fl) (t : Tier fl)
      → HasTier ws q t
      → sum_storage_bytes ws q.ledger + size < 2 ^ 63
      → (check_upload_session true true ws (pos size) q ≡ ok allowed) ↔ (
          (str_eq ws "" ≡ false)
          × (t.allow_uploads ≡ true)
          × IsWithin size t.max_upload_bytes
          × IsWithin (sum_storage_bytes ws q.ledger + size) t.storage_bytes)
  unfolding check_upload_session check_storage
  with_tier ws size q t k small =
      let r = resolve_lem ws q t k in
      let a = add_int64_small (sum_storage_bytes ws q.ledger) size small in
      (λ h. ground (arith, r, a, h), λ h. ground (arith, r, a, h))

  -- With the database answering, and a sum of the stored bytes and the size that an int64 holds: an
  -- upload session is allowed exactly if the workspace is named and known, its tier is defined and
  -- allows uploads, and the size is within the tier's cap and with the stored bytes within its storage,
  -- where the tier has them.
  pub check_upload_session_iff :
      (ws : String) (size : ℕ) (q : MeteredQuota fl)
      → sum_storage_bytes ws q.ledger + size < 2 ^ 63
      → (check_upload_session true true ws (pos size) q ≡ ok allowed) ↔ (
          (t : Tier fl) × HasTier ws q t
          × (str_eq ws "" ≡ false)
          × (t.allow_uploads ≡ true)
          × IsWithin size t.max_upload_bytes
          × IsWithin (sum_storage_bytes ws q.ledger + size) t.storage_bytes)
  unfolding check_upload_session
  check_upload_session_iff ws size q small = (
    (λ h. elim (resolve_cases ws q) [
      | inl (t, k) ↦
          let (named, lets, cap, room) = (with_tier ws size q t k small).0 h in
          (t, k, named, lets, cap, room)
      | inr (r, e) ↦ ground (arith, e, h)
    ]),
    (λ (t, k, named, lets, cap, room). (with_tier ws size q t k small).1 (named, lets, cap, room)),
  )

  job_with_tier :
      (ws month : String) (q : MeteredQuota fl) (t : Tier fl)
      → HasTier ws q t
      → (check_job_admission true true ws month q ≡ ok allowed) ↔ (
          (str_eq ws "" ≡ false)
          × (t.allow_jobs ≡ true)
          × ((fl.lt (fl.of_nat 0) t.encode_hours_per_month ≡ false)
              ⊎ (fl.le
                    (fl.mul t.encode_hours_per_month (fl.of_nat 3600))
                    (encoded_seconds ws month q)
                  ≡ false)))
  unfolding check_job_admission check_hours
  job_with_tier ws month q t k =
      let r = resolve_lem ws q t k in (λ h. ground (arith, r, h), λ h. ground (arith, r, h))

  -- With the database answering: a job is admitted exactly if the workspace is named and known, its
  -- tier is defined and allows jobs, and the tier has no limit of hours or the seconds encoded in the
  -- month have not reached it.
  pub check_job_admission_iff :
      (ws month : String) (q : MeteredQuota fl)
      → (check_job_admission true true ws month q ≡ ok allowed) ↔ (
          (t : Tier fl) × HasTier ws q t
          × (str_eq ws "" ≡ false)
          × (t.allow_jobs ≡ true)
          × ((fl.lt (fl.of_nat 0) t.encode_hours_per_month ≡ false)
              ⊎ (fl.le
                    (fl.mul t.encode_hours_per_month (fl.of_nat 3600))
                    (encoded_seconds ws month q)
                  ≡ false)))
  unfolding check_job_admission
  check_job_admission_iff ws month q = (
    (λ h. elim (resolve_cases ws q) [
      | inl (t, k) ↦
          let (named, lets, hours) = (job_with_tier ws month q t k).0 h in
          (t, k, named, lets, hours)
      | inr (r, e) ↦ ground (arith, e, h)
    ]),
    (λ (t, k, named, lets, hours). (job_with_tier ws month q t k).1 (named, lets, hours)),
  )
