-- ===== src/Store/Tests.antt =====
-- The jobs table at concrete rows: services/orchestrator/internal/store/store.go.
use aether_edit.Prelude.{
  ◌+◌, ◌≤◌, ◌≡◌, refl, ◌≢◌, none, some, List, [], ◌∷◌, arith, eq_iff, get_elem?, ok,
}
use mathlib.Core.List.{Memᴰ}
use aether_edit.Prelude.Float.{whole}
use aether_edit.Jobs.{queued, running, completed, encode, Job}
use aether_edit.Store.{claim_next_queued, get_job}
use aether_edit.Store.Rows.{All, UniqueIds}
use aether_edit.Store.Ops.{Op, claim, complete, fail, retry, cancel, apply, run}
use aether_edit.Store.Moves.{Evolved, apply-Evolved, run-completed}
use aether_edit.Store.Consistent.{IsConsistent, run-IsConsistent}
use aether_edit.Store.Claim.{claim_takes_oldest, claim_none}

abbrev asked : Job whole
asked = record {
  id = "";
  workspace_id = "w";
  user_id = "u";
  preset_id = "p";
  source_object_key = "k";
  source_sha256 = "s";
  state = queued;
  error_class = none;
  error_message = "";
  attempts = 0;
  progress_pct = 0;
  fps = 0;
  speed_x = 0;
  eta_seconds = 0;
  outputs = [];
  created_at = 0;
  queued_at = 0;
  started_at = none;
  finished_at = none;
}

abbrev first : Job whole
first = record asked { id = "a"; queued_at = 5; created_at = 5 }

abbrev second : Job whole
second = record asked { id = "b"; queued_at = 3; created_at = 3 }

abbrev done : Job whole
done = record asked {
  id = "c";
  state = completed;
  attempts = 1;
  started_at = some 1;
  finished_at = some 2;
}

abbrev rows : List (Job whole)
rows = first ∷ second ∷ done ∷ []

rows-UniqueIds : UniqueIds rows
rows-UniqueIds = (
  (ground (arith, eq_iff "b" "a"), (ground (arith, eq_iff "c" "a"), tt)),
  ((ground (arith, eq_iff "c" "b"), tt), (tt, tt)),
)

abbrev ops : List (Op whole)
ops =
    claim 9
    ∷ fail "b" 10 encode "boom"
    ∷ retry "w" "b" 11
    ∷ cancel "w" "a" 12
    ∷ claim 13
    ∷ complete "b" 14 []
    ∷ []

ops-run :
    (get_job "w" "b" (run ops rows))
    ≡ ok (record second {
      state = completed;
      attempts = 2;
      queued_at = 11;
      started_at = some 13;
      finished_at = some 14;
      progress_pct = 100;
    })
unfolding run apply get_job
ops-run = refl

apply-Evolved_example : Evolved rows (apply (claim 9) rows)
apply-Evolved_example = apply-Evolved (claim 9) rows rows-UniqueIds

run-completed_example : get_elem? (run ops rows) 2 ≡ some done
run-completed_example = run-completed ops rows 2 done rows-UniqueIds refl refl

run-IsConsistent_example : UniqueIds (run ops []) × All IsConsistent (run ops [])
run-IsConsistent_example = run-IsConsistent ops

claim_takes_oldest_example :
    (j : Job whole) × Memᴰ j rows
    × (j.state ≡ queued)
    × All (λ r. r.state ≡ queued → j.queued_at ≤ r.queued_at) rows
    × (record second { state = running; started_at = some 9; attempts = 1 } ≡ record j {
      state = running;
      started_at = some 9;
      error_class = none;
      error_message = "";
      attempts = j.attempts + 1;
    })
unfolding claim_next_queued
claim_takes_oldest_example =
    claim_takes_oldest 9 rows (record second { state = running; started_at = some 9; attempts = 1 })
      refl

claim_none_example :
    All (λ r. r.state ≢ queued) (done ∷ []) × ((claim_next_queued 9 (done ∷ [])).1 ≡ done ∷ [])
unfolding claim_next_queued
claim_none_example = claim_none 9 (done ∷ []) refl
