-- ===== src/Store/Ops.antt =====
-- The statements of services/orchestrator/internal/store/store.go that write the jobs table, as a
-- data type, and their runs. Any interleaving of the API, the scheduler and the consumer is a list
-- of these, since each is one statement.
use aether_edit.Prelude.{ℕ, String, List, [], ◌∷◌}
use aether_edit.Prelude.Float.{Float}
use aether_edit.Jobs.{ErrorClass, OutputProgress, Job}
use aether_edit.Store.{
  create_job, claim_next_queued, update_progress, mark_completed, mark_failed, retry_job,
  cancel_queued,
}

pub data Op (fl : Float) : Type 0 where
  create : String → ℕ → Job fl → Op fl
  claim : ℕ → Op fl
  progress : String → fl.F → fl.F → fl.F → fl.F → List (OutputProgress fl) → Op fl
  complete : String → ℕ → List (OutputProgress fl) → Op fl
  fail : String → ℕ → ErrorClass → String → Op fl
  retry : String → String → ℕ → Op fl
  cancel : String → String → ℕ → Op fl

module _ {fl : Float} where
  unfoldable pub apply : Op fl → List (Job fl) → List (Job fl)
  unfolding create_job claim_next_queued update_progress mark_completed mark_failed retry_job
      cancel_queued
  apply (create id now j) rows = (create_job id now j rows).1
  apply (claim now) rows = (claim_next_queued now rows).1
  apply (progress id pct fps speed eta outputs) rows =
      update_progress id pct fps speed eta outputs rows
  apply (complete id now outputs) rows = (mark_completed id now outputs rows).1
  apply (fail id now class msg) rows = (mark_failed id now class msg rows).1
  apply (retry ws id now) rows = (retry_job ws id now rows).1
  apply (cancel ws id now) rows = (cancel_queued ws id now rows).1

  unfoldable pub run : List (Op fl) → List (Job fl) → List (Job fl)
  run [] rows = rows
  run (op ∷ ops) rows = run ops (apply op rows)
