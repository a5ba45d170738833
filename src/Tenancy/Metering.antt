-- ===== src/Tenancy/Metering.antt =====
-- services/tenancy: `rollupDelta`, `consumeMeteringPayload` and `handle` of metering.go, and the
-- methods of postgres.go behind them. A decoded payload is an argument, `none` where json.Unmarshal
-- fails; so are `monthOf` and how the transaction ends: it commits and is answered, it is rolled back,
-- or it commits but its answer is lost.
use aether_edit.Prelude.{
  ℕ, ◌+◌, String, Bool, true, false, not, ◌&&◌, ◌||◌, Option, none, some, List, [], ◌∷◌, str_eq,
  if◌then◌else◌, Result, ok, err, ◌>>=◌, ◌>>◌, guard,
}
use aether_edit.Prelude.Float.{Float}
use aether_edit.Prelude.Int.{ℤ, pos, ltb_ℤ, pos_part}
use aether_edit.Prelude.Table.{select_first}
use aether_edit.Tenancy.Access.{Outcome, answered, refused, lost}
use aether_edit.Tenancy.{
  upload_session_created, upload_completed, job_queued, job_started, job_completed, job_failed,
  other_kind, MeteringEvent, UsageRollup, Ledger,
}

-- The errors of `rollupDelta`, and the database's.
pub data MeteringError : Type 0 where
  undecodable missing_ids missing_time negative_bytes negative_seconds unknown_kind store_failed :
      MeteringError

-- What `handle` answers the stream: the message is done, is dropped for good, or comes again.
pub data Answer : Type 0 where
  ack term nak : Answer

abbrev pub is_negative : Option ℤ → Bool
is_negative none = false
is_negative (some z) = ltb_ℤ z (pos 0)

-- `*ev.Bytes`, or the column's 0.
abbrev pub bytes_or_zero : Option ℤ → ℕ
bytes_or_zero none = 0
bytes_or_zero (some z) = pos_part z

abbrev pub is_negative_float : (fl : Float) → Option fl.F → Bool
is_negative_float fl none = false
is_negative_float fl (some x) = fl.lt x (fl.of_nat 0)

-- `*ev.EncodeSeconds`, or the column's 0.
abbrev pub seconds_or_zero : (fl : Float) → Option fl.F → fl.F
seconds_or_zero fl none = fl.of_nat 0
seconds_or_zero fl (some x) = x

abbrev pub at_or : Option ℕ → Result MeteringError ℕ
at_or none = err missing_time
at_or (some t) = ok t

module _ {fl : Float} where
  abbrev pub blank : String → String → UsageRollup fl
  blank ws month = record {
    workspace_id = ws;
    month = month;
    bytes_uploaded = 0;
    encode_seconds = fl.of_nat 0;
    upload_sessions = 0;
    uploads_completed = 0;
    jobs_queued = 0;
    jobs_started = 0;
    jobs_completed = 0;
    jobs_failed = 0;
  }

  -- The `switch` of `rollupDelta`.
  unfoldable pub count_event :
      MeteringEvent fl → UsageRollup fl → Result MeteringError (UsageRollup fl)
  count_event ev d = elim ev.kind [
    | upload_session_created ↦ ok (record d { upload_sessions = 1 })
    | upload_completed ↦
        ok (record d { uploads_completed = 1; bytes_uploaded = bytes_or_zero ev.bytes })
    | job_queued ↦ ok (record d { jobs_queued = 1 })
    | job_started ↦ ok (record d { jobs_started = 1 })
    | job_completed ↦
        ok (record d { jobs_completed = 1; encode_seconds = seconds_or_zero fl ev.encode_seconds })
    | job_failed ↦
        ok (record d { jobs_failed = 1; encode_seconds = seconds_or_zero fl ev.encode_seconds })
    | other_kind _ ↦ err unknown_kind
  ]

  -- `rollupDelta`
  unfoldable pub rollup_delta :
      (ℕ → String) → MeteringEvent fl → Result MeteringError (UsageRollup fl)
  unfolding count_event
  rollup_delta month_of ev = do
    guard (not (str_eq ev.event_id "" || str_eq ev.workspace_id "")) missing_ids
    t ← at_or ev.at
    guard (not (is_negative ev.bytes)) negative_bytes
    guard (not (is_negative_float fl ev.encode_seconds)) negative_seconds
    count_event ev (blank ev.workspace_id (month_of t))

  abbrev pub same_key : String → String → UsageRollup fl → Bool
  same_key ws month r = str_eq r.workspace_id ws && str_eq r.month month

  -- `DO UPDATE SET` of the upsert.
  unfoldable pub add_rollup : UsageRollup fl → UsageRollup fl → UsageRollup fl
  add_rollup d r = record r {
    bytes_uploaded = r.bytes_uploaded + d.bytes_uploaded;
    encode_seconds = fl.add r.encode_seconds d.encode_seconds;
    upload_sessions = r.upload_sessions + d.upload_sessions;
    uploads_completed = r.uploads_completed + d.uploads_completed;
    jobs_queued = r.jobs_queued + d.jobs_queued;
    jobs_started = r.jobs_started + d.jobs_started;
    jobs_completed = r.jobs_completed + d.jobs_completed;
    jobs_failed = r.jobs_failed + d.jobs_failed;
  }

  -- `INSERT … ON CONFLICT (workspace_id, month)`
  unfoldable pub upsert : UsageRollup fl → List (UsageRollup fl) → List (UsageRollup fl)
  unfolding add_rollup
  upsert d [] = d ∷ []
  upsert d (r ∷ rs) =
      if same_key d.workspace_id d.month r then add_rollup d r ∷ rs else r ∷ upsert d rs

  -- Whether the event's id is in the table.
  unfoldable pub is_recorded : String → List (MeteringEvent fl) → Bool
  is_recorded id [] = false
  is_recorded id (ev ∷ evs) = str_eq ev.event_id id || is_recorded id evs

  -- `ApplyMetering`: whether the delta is applied. The delta carries the month that is passed with it.
  unfoldable pub apply_metering : MeteringEvent fl → UsageRollup fl → Ledger fl → Bool × Ledger fl
  unfolding is_recorded upsert
  apply_metering ev d l =
      if is_recorded ev.event_id l.events
      then (false, l)
      else (true, record { events = ev ∷ l.events; rollups = upsert d l.rollups })

  -- The end of the transaction.
  abbrev pub commit : Outcome → Bool × Ledger fl → Ledger fl → Result MeteringError Bool × Ledger fl
  commit answered (applied, new) old = (ok applied, new)
  commit refused (applied, new) old = (err store_failed, old)
  commit lost (applied, new) old = (err store_failed, new)

  -- `consumeMeteringPayload`
  unfoldable pub consume :
      (ℕ → String)
      → Outcome
      → Option (MeteringEvent fl)
      → Ledger fl
      → Result MeteringError Bool × Ledger fl
  unfolding rollup_delta apply_metering
  consume month_of up none l = (err undecodable, l)
  consume month_of up (some ev) l = elim (rollup_delta month_of ev) [
    | err e ↦ (err e, l)
    | ok d ↦ commit up (apply_metering ev d l) l
  ]

  -- `isTerminalMeteringErr`
  unfoldable pub is_terminal : (ℕ → String) → Option (MeteringEvent fl) → Bool
  unfolding rollup_delta
  is_terminal month_of none = true
  is_terminal month_of (some ev) = elim (rollup_delta month_of ev) [ err _ ↦ true | ok _ ↦ false ]

  -- `handle`
  unfoldable pub handle :
      (ℕ → String) → Outcome → Option (MeteringEvent fl) → Ledger fl → Answer × Ledger fl
  unfolding consume is_terminal
  handle month_of up payload l = (
    elim (consume month_of up payload l).0 [
      | ok _ ↦ ack
      | err _ ↦ (if is_terminal month_of payload then term else nak)
    ],
    (consume month_of up payload l).1,
  )

  -- `GetRollup`
  unfoldable pub get_rollup : String → String → Ledger fl → Option (UsageRollup fl)
  unfolding select_first
  get_rollup ws month l = select_first (same_key ws month) l.rollups

  unfoldable pub sum_bytes : String → List (UsageRollup fl) → ℕ
  sum_bytes ws [] = 0
  sum_bytes ws (r ∷ rs) =
      if str_eq r.workspace_id ws then r.bytes_uploaded + sum_bytes ws rs else sum_bytes ws rs

  -- `SumStorageBytes`
  unfoldable pub sum_storage_bytes : String → Ledger fl → ℕ
  unfolding sum_bytes
  sum_storage_bytes ws l = sum_bytes ws l.rollups
