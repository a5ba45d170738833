-- ===== src/Tenancy/Rollups.antt =====
-- services/tenancy/postgres.go: what the upsert of `ApplyMetering` adds to the rollups.
use aether_edit.Prelude.{
  ℕ, ◌+◌, ◌&&◌, Bool, false, Option, String, ◌≡◌, refl, ap, ◌∙◌, inl, inr, true, false, none, some,
  List, [], ◌∷◌, arith, str_eq, eq_iff, if◌then◌else◌, Bool-cases, ok, err,
}
use aether_edit.Prelude.Float.{Float}
use aether_edit.Prelude.Table.{select_first}
use aether_edit.Tenancy.{
  MeteringEvent, UsageRollup, upload_session_created, upload_completed, job_queued, job_started,
  job_completed, job_failed,
}
use aether_edit.Tenancy.Metering.{
  rollup_delta, count_event, same_key, add_rollup, upsert, sum_bytes, bytes_or_zero,
  seconds_or_zero,
}

-- The columns that count.
pub data Column : Type 0 where
  bytes sessions uploads queued started completed failed : Column

-- The row of the first event holds its seconds, and those of each later one are added on the right.
abbrev pub plus_seconds : (fl : Float) → Option fl.F → fl.F → Option fl.F
plus_seconds fl none x = some x
plus_seconds fl (some total) x = some (fl.add total x)

module _ {fl : Float} where
  unfoldable pub value : Column → UsageRollup fl → ℕ
  value bytes r = r.bytes_uploaded
  value sessions r = r.upload_sessions
  value uploads r = r.uploads_completed
  value queued r = r.jobs_queued
  value started r = r.jobs_started
  value completed r = r.jobs_completed
  value failed r = r.jobs_failed

  value-add_rollup :
      (col : Column) (d r : UsageRollup fl) → value col (add_rollup d r) ≡ value col r + value col d
  unfolding value add_rollup
  value-add_rollup bytes d r = refl
  value-add_rollup sessions d r = refl
  value-add_rollup uploads d r = refl
  value-add_rollup queued d r = refl
  value-add_rollup started d r = refl
  value-add_rollup completed d r = refl
  value-add_rollup failed d r = refl

  -- What the rollup of a workspace and month says; 0 where there is none.
  unfoldable pub read : Column → String → String → List (UsageRollup fl) → ℕ
  unfolding select_first value
  read col ws month rs = elim (select_first (same_key ws month) rs) [
    | none ↦ 0
    | some r ↦ value col r
  ]

  -- What a delta adds to the rollup of a workspace and month.
  unfoldable pub share : Column → String → String → UsageRollup fl → ℕ
  unfolding value
  share col ws month d = if same_key ws month d then value col d else 0

  -- What an event of each kind counts for.
  unfoldable pub amount : Column → MeteringEvent fl → ℕ
  amount bytes ev = elim ev.kind [ upload_completed ↦ bytes_or_zero ev.bytes | _ ↦ 0 ]
  amount sessions ev = elim ev.kind [ upload_session_created ↦ 1 | _ ↦ 0 ]
  amount uploads ev = elim ev.kind [ upload_completed ↦ 1 | _ ↦ 0 ]
  amount queued ev = elim ev.kind [ job_queued ↦ 1 | _ ↦ 0 ]
  amount started ev = elim ev.kind [ job_started ↦ 1 | _ ↦ 0 ]
  amount completed ev = elim ev.kind [ job_completed ↦ 1 | _ ↦ 0 ]
  amount failed ev = elim ev.kind [ job_failed ↦ 1 | _ ↦ 0 ]

  -- The seconds of encoding of a job that has ended.
  unfoldable pub seconds_of : MeteringEvent fl → fl.F
  seconds_of ev = elim ev.kind [
    | job_completed ↦ seconds_or_zero fl ev.encode_seconds
    | job_failed ↦ seconds_or_zero fl ev.encode_seconds
    | _ ↦ fl.of_nat 0
  ]

  -- The event is of this workspace and month.
  abbrev pub bills : (ℕ → String) → String → String → MeteringEvent fl → Bool
  bills month_of ws month ev = elim ev.at [
    | none ↦ false
    | some t ↦ str_eq ev.workspace_id ws && str_eq (month_of t) month
  ]

  -- What the recorded events add up to.
  unfoldable pub billed : (ℕ → String) → Column → String → String → List (MeteringEvent fl) → ℕ
  unfolding amount
  billed month_of col ws month [] = 0
  billed month_of col ws month (ev ∷ evs) = elim (rollup_delta month_of ev) [
    | err _ ↦ billed month_of col ws month evs
    | ok _ ↦
        (if bills month_of ws month ev then amount col ev else 0) + billed month_of col ws month evs
  ]

  -- The seconds of the recorded events, added in the order in which they were recorded; `none` where
  -- there is no event.
  unfoldable pub billed_seconds :
      (ℕ → String) → String → String → List (MeteringEvent fl) → Option fl.F
  unfolding seconds_of
  billed_seconds month_of ws month [] = none
  billed_seconds month_of ws month (ev ∷ evs) = elim (rollup_delta month_of ev) [
    | err _ ↦ billed_seconds month_of ws month evs
    | ok _ ↦
        (if bills month_of ws month ev
          then plus_seconds fl (billed_seconds month_of ws month evs) (seconds_of ev)
          else billed_seconds month_of ws month evs)
  ]

  unfoldable pub read_seconds : String → String → List (UsageRollup fl) → Option fl.F
  unfolding select_first
  read_seconds ws month rs = elim (select_first (same_key ws month) rs) [
    | none ↦ none
    | some r ↦ some r.encode_seconds
  ]

  pub delta_key :
      (month_of : ℕ → String) (ws month : String) (ev : MeteringEvent fl) (d : UsageRollup fl)
      → rollup_delta month_of ev ≡ ok d
      → same_key ws month d ≡ bills month_of ws month ev
  unfolding rollup_delta count_event
  delta_key month_of ws month ev d h = ground arith

  pub delta_value :
      (month_of : ℕ → String) (col : Column) (ev : MeteringEvent fl) (d : UsageRollup fl)
      → rollup_delta month_of ev ≡ ok d
      → value col d ≡ amount col ev
  unfolding rollup_delta count_event value amount
  delta_value month_of bytes ev d h = ground arith
  delta_value month_of sessions ev d h = ground arith
  delta_value month_of uploads ev d h = ground arith
  delta_value month_of queued ev d h = ground arith
  delta_value month_of started ev d h = ground arith
  delta_value month_of completed ev d h = ground arith
  delta_value month_of failed ev d h = ground arith

  pub delta_seconds :
      (month_of : ℕ → String) (ev : MeteringEvent fl) (d : UsageRollup fl)
      → rollup_delta month_of ev ≡ ok d
      → d.encode_seconds ≡ seconds_of ev
  unfolding rollup_delta count_event seconds_of
  delta_seconds month_of ev d h = ground arith

  read-cons :
      (col : Column) (ws month : String) (r : UsageRollup fl) (rs : List (UsageRollup fl))
      → read col ws month (r ∷ rs)
        ≡ (if same_key ws month r then value col r else read col ws month rs)
  unfolding read
  read-cons col ws month r rs = ground arith

  upsert-cons :
      (d r : UsageRollup fl) (rs : List (UsageRollup fl))
      → upsert d (r ∷ rs)
        ≡ (if same_key d.workspace_id d.month r then add_rollup d r ∷ rs else r ∷ upsert d rs)
  unfolding upsert
  upsert-cons d r rs = refl

  -- A row of the delta's key meets a key exactly when the delta does.
  same_key_agrees :
      (ws month : String) (d r : UsageRollup fl)
      → same_key d.workspace_id d.month r ≡ true
      → same_key ws month r ≡ same_key ws month d
  same_key_agrees ws month d r h =
      ground (arith, h, eq_iff r.workspace_id d.workspace_id, eq_iff r.month d.month)

  same_key_differs :
      (ws month : String) (d r : UsageRollup fl)
      → same_key d.workspace_id d.month r ≡ false
      → same_key ws month r ≡ true
      → same_key ws month d ≡ false
  same_key_differs ws month d r h k = ground (
    arith,
    h,
    k,
    eq_iff r.workspace_id ws,
    eq_iff r.month month,
    eq_iff d.workspace_id ws,
    eq_iff d.month month,
    eq_iff r.workspace_id d.workspace_id,
    eq_iff r.month d.month,
  )

  added_key :
      (ws month : String) (d r : UsageRollup fl)
      → same_key ws month (add_rollup d r) ≡ same_key ws month r
  unfolding add_rollup
  added_key ws month d r = refl

  same_step :
      (col : Column) (ws month : String) (d r : UsageRollup fl) (rs : List (UsageRollup fl))
      → same_key d.workspace_id d.month r ≡ true
      → (if same_key ws month (add_rollup d r)
          then value col (add_rollup d r)
          else read col ws month rs)
        ≡ share col ws month d + read col ws month (r ∷ rs)
  unfolding share
  same_step col ws month d r rs h =
      let agree = same_key_agrees ws month d r h in
      let keeps : same_key ws month (add_rollup d r) ≡ same_key ws month r =
        added_key ws month d r in
      elim (Bool-cases (same_key ws month r)) [
        | inl here ↦
            grind (arith, keeps, agree, here, value-add_rollup col d r, read-cons col ws month r rs)
        | inr there ↦ grind (arith, keeps, agree, there, read-cons col ws month r rs)
      ]

  other_step :
      (col : Column) (ws month : String) (d r : UsageRollup fl) (rs : List (UsageRollup fl))
      → same_key d.workspace_id d.month r ≡ false
      → read col ws month (upsert d rs) ≡ share col ws month d + read col ws month rs
      → (if same_key ws month r then value col r else read col ws month (upsert d rs))
        ≡ share col ws month d + read col ws month (r ∷ rs)
  unfolding share
  other_step col ws month d r rs h ih = elim (Bool-cases (same_key ws month r)) [
    | inl here ↦
        grind (arith, here, same_key_differs ws month d r h here, read-cons col ws month r rs)
    | inr there ↦ grind (arith, there, ih, read-cons col ws month r rs)
  ]

  pub read-upsert :
      (col : Column) (ws month : String) (d : UsageRollup fl) (rs : List (UsageRollup fl))
      → read col ws month (upsert d rs) ≡ share col ws month d + read col ws month rs
  unfolding share read upsert
  read-upsert col ws month d [] = ground arith
  read-upsert col ws month d (r ∷ rs) = elim (Bool-cases (same_key d.workspace_id d.month r)) [
    | inl same ↦
        let to : upsert d (r ∷ rs) ≡ add_rollup d r ∷ rs =
          upsert-cons d r rs ∙ ap (λ b. if b then add_rollup d r ∷ rs else r ∷ upsert d rs) same in
        ap (read col ws month) to
        ∙ read-cons col ws month (add_rollup d r) rs
        ∙ same_step col ws month d r rs same
    | inr other ↦
        let to : upsert d (r ∷ rs) ≡ r ∷ upsert d rs =
          upsert-cons d r rs ∙ ap (λ b. if b then add_rollup d r ∷ rs else r ∷ upsert d rs) other in
        ap (read col ws month) to
        ∙ read-cons col ws month r (upsert d rs)
        ∙ other_step col ws month d r rs other (read-upsert col ws month d rs)
  ]

  pub read_seconds-upsert :
      (ws month : String) (d : UsageRollup fl) (rs : List (UsageRollup fl))
      → read_seconds ws month (upsert d rs) ≡ (
          if same_key ws month d
          then plus_seconds fl (read_seconds ws month rs) d.encode_seconds
          else read_seconds ws month rs)
  unfolding read_seconds upsert add_rollup
  read_seconds-upsert ws month d [] = ground arith
  read_seconds-upsert ws month d (r ∷ rs) = elim (Bool-cases (same_key d.workspace_id d.month r)) [
    | inl same ↦ ground (arith, same, same_key_agrees ws month d r same)
    | inr other ↦ elim (Bool-cases (same_key ws month r)) [
      | inl here ↦ ground (arith, other, here, same_key_differs ws month d r other here)
      | inr there ↦ ground (arith, other, there, read_seconds-upsert ws month d rs)
    ]
  ]

  -- What a delta adds to the stored bytes of a workspace.
  unfoldable pub stored_share : String → UsageRollup fl → ℕ
  stored_share ws d = if str_eq d.workspace_id ws then d.bytes_uploaded else 0

  pub sum_bytes-upsert :
      (ws : String) (d : UsageRollup fl) (rs : List (UsageRollup fl))
      → sum_bytes ws (upsert d rs) ≡ stored_share ws d + sum_bytes ws rs
  unfolding sum_bytes upsert stored_share add_rollup
  sum_bytes-upsert ws d [] = ground arith
  sum_bytes-upsert ws d (r ∷ rs) = ground (
    arith,
    sum_bytes-upsert ws d rs,
    eq_iff r.workspace_id d.workspace_id,
    eq_iff r.workspace_id ws,
    eq_iff d.workspace_id ws,
  )

  -- The bytes that the recorded events add up to, in all months.
  unfoldable pub landed : (ℕ → String) → String → List (MeteringEvent fl) → ℕ
  unfolding stored_share
  landed month_of ws [] = 0
  landed month_of ws (ev ∷ evs) = elim (rollup_delta month_of ev) [
    | err _ ↦ landed month_of ws evs
    | ok d ↦ stored_share ws d + landed month_of ws evs
  ]
