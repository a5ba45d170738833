-- ===== src/Store.antt =====
-- services/orchestrator/internal/store/store.go: the jobs and sources tables, one function per
-- method. A table is the list of its rows; a method is one SQL statement, so it is one step, and
-- `now` is the database's clock. A method that fails because the database cannot be reached changes
-- nothing and is not modelled here; the callers' models let the environment choose such failures.
mod Tests
pub mod Ops
pub mod Rows
pub mod Keys
pub mod Claim
pub mod Moves
pub mod Consistent
use aether_edit.Prelude.{
  ℕ, suc, ◌+◌, String, Bool, true, false, not, ◌&&◌, ◌||◌, Option, none, some, List, [], ◌∷◌, ◌++◌,
  str_eq, ltb, if◌then◌else◌, Result, ok, err,
}
use aether_edit.Prelude.Float.{Float}
use aether_edit.Prelude.Table.{update_where, select_first, select_all, count_where}
use aether_edit.Jobs.{
  State, queued, running, completed, failed, is_queued, is_running, is_failed, ErrorClass, internal,
  valid_error_class, OutputProgress, Job,
}

-- `ErrNotFound`, `ErrConflict`, the refusal of an unknown class by `MarkFailed`, and the driver's
-- error where an INSERT meets the primary key of another row.
pub data StoreError : Type 0 where
  not_found conflict invalid_class duplicate_key : StoreError

abbrev pub is_active : State → Bool
is_active s = is_queued s || is_running s

module _ {fl : Float} where
  abbrev pub same_id : String → Job fl → Bool
  same_id id j = str_eq j.id id

  abbrev pub owned : String → String → Job fl → Bool
  owned ws id j = str_eq j.workspace_id ws && str_eq j.id id

  abbrev pub new_row : String → ℕ → Job fl → Job fl
  new_row id now j = record j {
    id = id;
    state = queued;
    error_class = none;
    error_message = "";
    attempts = 0;
    progress_pct = fl.of_nat 0;
    fps = fl.of_nat 0;
    speed_x = fl.of_nat 0;
    eta_seconds = fl.of_nat 0;
    created_at = now;
    queued_at = now;
    started_at = none;
    finished_at = none;
  }

  -- `CreateJob`; `id` is the fresh uuid. The columns that the INSERT leaves out have the defaults
  -- of store/migrations/0001_init.up.sql.
  unfoldable pub create_job :
      String → ℕ → Job fl → List (Job fl) → Result StoreError (Job fl) × List (Job fl)
  unfolding select_first
  create_job id now j rows = elim (select_first (same_id id) rows) [
    | none ↦ (ok (new_row id now j), rows ++ new_row id now j ∷ [])
    | some _ ↦ (err duplicate_key, rows)
  ]

  -- The condition of `HasActiveJobForSource`.
  unfoldable pub blocks_source : String → String → String → Job fl → Bool
  blocks_source ws key preset j =
      str_eq j.workspace_id ws
      && (str_eq j.source_object_key key && (str_eq j.preset_id preset && not (is_failed j.state)))

  -- `HasActiveJobForSource`
  unfoldable pub has_active_job_for_source : String → String → String → List (Job fl) → Bool
  unfolding blocks_source
  has_active_job_for_source ws key preset rows =
      elim (select_first (blocks_source ws key preset) rows) [ none ↦ false | some _ ↦ true ]

  -- `GetJob`
  unfoldable pub get_job : String → String → List (Job fl) → Result StoreError (Job fl)
  get_job ws id rows = elim (select_first (owned ws id) rows) [
    | none ↦ err not_found
    | some j ↦ ok j
  ]

  -- `CountActiveJobs`
  unfoldable pub count_active_jobs : String → List (Job fl) → ℕ
  count_active_jobs ws rows = count_where (λ j. str_eq j.workspace_id ws && is_active j.state) rows

  -- The inner SELECT of `ClaimNextQueued`: the queued row of least `queued_at`. Of rows with the
  -- same time SQL may take any, and this takes the first. A statement holds its locks only while it
  -- runs, and statements run one after the other here, so that SKIP LOCKED has no row to skip; at
  -- once with another statement, the claim would pass over the rows that it has locked.
  unfoldable pub oldest_queued : List (Job fl) → Option (Job fl)
  oldest_queued [] = none
  oldest_queued (j ∷ rows) =
      let rest = oldest_queued rows in
      if is_queued j.state
      then elim rest [
        | none ↦ some j
        | some k ↦ (if ltb k.queued_at j.queued_at then some k else some j)
      ]
      else rest

  abbrev pub claimed : ℕ → Job fl → Job fl
  claimed now j = record j {
    state = running;
    started_at = some now;
    error_class = none;
    error_message = "";
    attempts = j.attempts + 1;
  }

  -- `ClaimNextQueued`
  unfoldable pub claim_next_queued : ℕ → List (Job fl) → Result StoreError (Job fl) × List (Job fl)
  unfolding oldest_queued update_where
  claim_next_queued now rows = elim (oldest_queued rows) [
    | none ↦ (err not_found, rows)
    | some j ↦ (ok (claimed now j), update_where (same_id j.id) (claimed now) rows)
  ]

  -- `UpdateProgress`
  unfoldable pub update_progress :
      String → fl.F → fl.F → fl.F → fl.F → List (OutputProgress fl) → List (Job fl) → List (Job fl)
  unfolding update_where
  update_progress id pct fps speed eta outputs =
      update_where (λ j. str_eq j.id id && is_running j.state)
        (λ j. record j {
          progress_pct = pct;
          fps = fps;
          speed_x = speed;
          eta_seconds = eta;
          outputs = outputs;
        })

  -- `UPDATE … RETURNING`: the first changed row, or the error for none, and the table.
  unfoldable pub update_returning :
      StoreError
      → (Job fl → Bool)
      → (Job fl → Job fl)
      → List (Job fl)
      → Result StoreError (Job fl) × List (Job fl)
  unfolding select_first update_where
  update_returning missing p f rows =
      (elim (select_first p rows) [ none ↦ err missing | some j ↦ ok (f j) ], update_where p f rows)

  abbrev pub completed_with : ℕ → List (OutputProgress fl) → Job fl → Job fl
  completed_with now outputs j = record j {
    state = completed;
    progress_pct = fl.of_nat 100;
    eta_seconds = fl.of_nat 0;
    outputs = outputs;
    finished_at = some now;
  }

  -- `MarkCompleted`
  unfoldable pub mark_completed :
      String
      → ℕ
      → List (OutputProgress fl)
      → List (Job fl)
      → Result StoreError (Job fl) × List (Job fl)
  unfolding update_returning
  mark_completed id now outputs =
      update_returning conflict (λ j. str_eq j.id id && is_running j.state)
        (completed_with now outputs)

  abbrev pub failed_with : ℕ → ErrorClass → String → Job fl → Job fl
  failed_with now class msg j = record j {
    state = failed;
    error_class = some class;
    error_message = msg;
    finished_at = some now;
  }

  -- `MarkFailed`
  unfoldable pub mark_failed :
      String → ℕ → ErrorClass → String → List (Job fl) → Result StoreError (Job fl) × List (Job fl)
  unfolding update_returning valid_error_class
  mark_failed id now class msg rows =
      if valid_error_class class
      then update_returning conflict (λ j. str_eq j.id id && is_active j.state)
          (failed_with now class msg) rows
      else (err invalid_class, rows)

  abbrev pub requeued : ℕ → Job fl → Job fl
  requeued now j = record j {
    state = queued;
    error_class = none;
    error_message = "";
    progress_pct = fl.of_nat 0;
    fps = fl.of_nat 0;
    speed_x = fl.of_nat 0;
    eta_seconds = fl.of_nat 0;
    outputs = [];
    queued_at = now;
    started_at = none;
    finished_at = none;
  }

  -- The second look of `RetryJob` and `CancelQueued`: a missing row is told from one in another
  -- state.
  unfoldable pub missing_or_conflict : String → String → List (Job fl) → StoreError
  unfolding get_job
  missing_or_conflict ws id rows = elim (get_job ws id rows) [ ok _ ↦ conflict | err e ↦ e ]

  -- `RetryJob`
  unfoldable pub retry_job :
      String → String → ℕ → List (Job fl) → Result StoreError (Job fl) × List (Job fl)
  unfolding update_returning missing_or_conflict
  retry_job ws id now rows =
      update_returning (missing_or_conflict ws id rows) (λ j. owned ws id j && is_failed j.state)
        (requeued now) rows

  -- `CancelQueued`
  unfoldable pub cancel_queued :
      String → String → ℕ → List (Job fl) → Result StoreError (Job fl) × List (Job fl)
  unfolding update_returning missing_or_conflict
  cancel_queued ws id now rows =
      update_returning (missing_or_conflict ws id rows) (λ j. owned ws id j && is_queued j.state)
        (failed_with now internal "canceled by user") rows
