-- ===== src/Telemetry/Aggregator/Local.antt =====
-- services/telemetry/internal/jobs/aggregator.go: what is kept of a job depends on its own messages
-- alone.
use aether_edit.Prelude.{
  String, ◌≡◌, refl, ap, ◌∙◌, inl, inr, Option, none, some, List, [], ◌∷◌, arith, str_eq, eq_iff,
  if◌then◌else◌, Bool-cases, Option-cases, Result, ok, err,
}
use aether_edit.Prelude.Float.{Float}
use aether_edit.Prelude.Assoc.{lookup, lookup-insert, lookup-delete_ne, lookup-delete_self}
use aether_edit.Telemetry.Aggregator.{
  Announcement, EventState, queued, running, completed, failed, other_state, ProgressEvent,
  JobState, Aggregator, Runtime, EventError, fresh, with_progress, on_queued, on_running, forget,
  apply_state, apply_progress,
}
use aether_edit.Telemetry.Aggregator.Handlers.{
  if_valid, check_state, check_progress, handle_state, handle_progress,
}
use aether_edit.Telemetry.Aggregator.Counts.{IsCounted}
use aether_edit.Telemetry.Aggregator.Runs.{
  Message, state_message, progress_message, handle, run, handle-IsCounted,
}

module _ {fl : Float} where
  -- A valid state message takes a job through this.
  unfoldable pub state_after : EventState → Option (JobState fl) → Option (JobState fl)
  state_after queued none = some (fresh queued)
  state_after queued (some js) = some js
  state_after running none = some (fresh running)
  state_after running (some js) = some (record js { state = running })
  state_after completed o = none
  state_after failed o = none
  state_after (other_state s) o = o

  -- A message that is not valid leaves the job as it was.
  abbrev pub if_ok :
      Result EventError (Unit {0})
      → Option (JobState fl)
      → Option (JobState fl)
      → Option (JobState fl)
  if_ok (err e) old new = old
  if_ok (ok _) old new = new

  -- What one message makes of a job; a progress message leaves it running with its values.
  unfoldable pub job_after : String → Message fl → Option (JobState fl) → Option (JobState fl)
  unfolding state_after
  job_after id (state_message none) o = o
  job_after id (state_message (some ev)) o =
      if_ok (check_state ev) o (if str_eq ev.job_id id then state_after ev.state o else o)
  job_after id (progress_message none) o = o
  job_after id (progress_message (some ev)) o =
      if_ok (check_progress ev) o
        (if str_eq ev.job_id id then some (with_progress ev (fresh running)) else o)

  unfoldable pub history :
      String → List (Runtime fl × Message fl) → Option (JobState fl) → Option (JobState fl)
  unfolding job_after
  history id [] o = o
  history id ((rt, m) ∷ ms) o = history id ms (job_after id m o)

  on_queued-lookup :
      (k id : String) (a : Aggregator fl)
      → lookup k (on_queued id a).active
        ≡ (if str_eq id k then state_after queued (lookup k a.active) else lookup k a.active)
  unfolding on_queued state_after
  on_queued-lookup k id a = ground (arith, eq_iff id k, lookup-insert id k (fresh queued) a.active)

  on_running-lookup :
      (k id : String) (a : Aggregator fl)
      → IsCounted a
      → lookup k (on_running id a).active
        ≡ (if str_eq id k then state_after running (lookup k a.active) else lookup k a.active)
  unfolding on_running state_after
  on_running-lookup k id a c = elim (Option-cases (lookup id a.active)) [
    | inl absent ↦ ground (arith, absent, eq_iff id k, lookup-insert id k (fresh running) a.active)
    | inr (js, present) ↦ ground (
      arith,
      present,
      eq_iff id k,
      c.live id js present,
      lookup-insert id k (record js { state = running }) a.active,
    )
  ]

  apply_progress-lookup :
      (k : String) (ev : ProgressEvent fl) (a : Aggregator fl)
      → IsCounted a
      → lookup k (apply_progress ev a).active ≡ (
          if str_eq ev.job_id k then some (with_progress ev (fresh running)) else lookup k a.active)
  unfolding apply_progress
  apply_progress-lookup k ev a c = elim (Option-cases (lookup ev.job_id a.active)) [
    | inl absent ↦ ground (
      arith,
      absent,
      eq_iff ev.job_id k,
      lookup-insert ev.job_id k (with_progress ev (fresh running)) a.active,
    )
    | inr (js, present) ↦ ground (
      arith,
      present,
      eq_iff ev.job_id k,
      c.live ev.job_id js present,
      lookup-insert ev.job_id k (with_progress ev (record js { state = running })) a.active,
      lookup-insert ev.job_id k (with_progress ev js) a.active,
    )
  ]

  forget-lookup :
      (k id : String) (a : Aggregator fl)
      → IsCounted a
      → lookup k (forget id a).active ≡ (if str_eq id k then none else lookup k a.active)
  unfolding forget
  forget-lookup k id a c = elim (Bool-cases (str_eq id k)) [
    | inl same ↦ ground (arith, same, eq_iff id k, lookup-delete_self id a.active c.once)
    | inr other ↦ ground (
      arith,
      other,
      lookup-delete_ne id k a.active (λ q. ground (arith, other, (eq_iff id k).1 q)),
    )
  ]

  apply_state-lookup :
      (k : String) (s : EventState) (id : String) (a : Aggregator fl)
      → IsCounted a
      → lookup k (apply_state s id a).active
        ≡ (if str_eq id k then state_after s (lookup k a.active) else lookup k a.active)
  unfolding apply_state state_after
  apply_state-lookup k queued id a c = on_queued-lookup k id a
  apply_state-lookup k running id a c = on_running-lookup k id a c
  apply_state-lookup k completed id a c = forget-lookup k id a c
  apply_state-lookup k failed id a c = forget-lookup k id a c
  apply_state-lookup k (other_state s) id a c = ground arith

  valid_lookup :
      (k : String) (r : Result EventError (Unit {0})) (a : Aggregator fl) (out : Announcement fl)
      (b : Aggregator fl) (new : Option (JobState fl))
      → lookup k b.active ≡ new
      → lookup k (if_valid r a out b).1.active ≡ if_ok r (lookup k a.active) new
  valid_lookup k (ok _) a out b new h = h
  valid_lookup k (err e) a out b new h = refl

  handle-lookup :
      (k : String) (rt : Runtime fl) (m : Message fl) (a : Aggregator fl)
      → IsCounted a
      → lookup k (handle rt m a).1.active ≡ job_after k m (lookup k a.active)
  unfolding handle handle_state handle_progress job_after
  handle-lookup k rt (state_message none) a c = refl
  handle-lookup k rt (state_message (some ev)) a c =
      valid_lookup k (check_state ev) a _ _ _ (apply_state-lookup k ev.state ev.job_id a c)
  handle-lookup k rt (progress_message none) a c = refl
  handle-lookup k rt (progress_message (some ev)) a c =
      valid_lookup k (check_progress ev) a _ _ _ (apply_progress-lookup k ev a c)

  -- Whatever messages arrive, from a state whose counters are right: what the map holds for a job is
  -- what the job's own valid messages make of it, in their order, whatever the messages of other jobs.
  pub run-history :
      (ms : List (Runtime fl × Message fl)) (id : String) (a : Aggregator fl)
      → IsCounted a
      → lookup id (run ms a).active ≡ history id ms (lookup id a.active)
  unfolding run history
  run-history [] id a c = refl
  run-history ((rt, m) ∷ ms) id a c =
      run-history ms id (handle rt m a).1 (handle-IsCounted rt m a c)
      ∙ ap (history id ms) (handle-lookup id rt m a c)
