-- ===== src/Telemetry/Aggregator/Handlers.antt =====
-- services/telemetry/internal/jobs/aggregator.go: the two handlers, and the two calls of the hub that
-- follow each.
use aether_edit.Prelude.{
  ℕ, String, Bool, true, false, not, ◌||◌, Option, none, some, List, [], ◌∷◌, str_eq, if◌then◌else◌,
  Result, ok, err, ◌>>◌, guard,
}
use aether_edit.Prelude.Float.{Float}
use aether_edit.Prelude.Assoc.{lookup}
use aether_edit.Telemetry.Hub.{Hub, publish, publish_sticky}
use aether_edit.Telemetry.Aggregator.{
  EventState, running, is_running, is_completed, is_known, StateEvent, ProgressEvent, Aggregate,
  JobState, JobStreamEvent, Aggregator, Announcement, Runtime, EventError, undecodable,
  ids_required, time_required, unknown_event_state, out_of_range, apply_state, apply_progress,
}

abbrev pub is_some : Option ℕ → Bool
is_some none = false
is_some (some _) = true

-- The checks of `HandleState`.
unfoldable pub check_state : StateEvent → Result EventError (Unit {0})
check_state ev = do
  guard (not (str_eq ev.job_id "" || str_eq ev.workspace_id "")) ids_required
  guard (is_some ev.at) time_required
  guard (is_known ev.state) unknown_event_state

module _ {fl : Float} where
  -- `jobEventLocked`
  unfoldable pub job_event : String → EventState → Aggregator fl → JobStreamEvent fl
  unfolding lookup
  job_event id s a = elim (lookup id a.active) [
    | some js ↦ record {
      job_id = id;
      state = s;
      fps = js.fps;
      speed_x = js.speed_x;
      eta_seconds = js.eta_seconds;
      progress_pct = js.progress_pct;
    }
    | none ↦ record {
      job_id = id;
      state = s;
      fps = fl.of_nat 0;
      speed_x = fl.of_nat 0;
      eta_seconds = fl.of_nat 0;
      progress_pct = if is_completed s then fl.of_nat 100 else fl.of_nat 0;
    }
  ]

  -- The loop of `aggregateLocked`: the sums over the running jobs.
  unfoldable pub rates : List (JobState fl) → fl.F → fl.F → fl.F × fl.F
  rates [] fps speed = (fps, speed)
  rates (js ∷ rest) fps speed =
      if is_running js.state
      then rates rest (fl.add fps js.fps) (fl.add speed js.speed_x)
      else rates rest fps speed

  -- `aggregateLocked`, and `Snapshot`.
  unfoldable pub aggregate : Runtime fl → Aggregator fl → Aggregate fl
  unfolding rates
  aggregate rt a =
      let (fps, speed) = rates (rt.range a.active) (fl.of_nat 0) (fl.of_nat 0) in
      record {
        queued_count = a.queued_count;
        in_flight = a.in_flight;
        completed_count = a.completed_count;
        failed_count = a.failed_count;
        farm_fps = fps;
        aggregate_speed_x = speed;
      }

  -- `publish`: an event that JSON cannot hold is left out.
  unfoldable pub publish_job : Runtime fl → JobStreamEvent fl → Hub → Hub
  unfolding publish
  publish_job rt job h = elim (rt.job_json job) [
    | none ↦ h
    | some bytes ↦ publish (record { name = "job"; content = bytes; tag = "" }) h
  ]

  unfoldable pub publish_aggregate : Runtime fl → Aggregate fl → Hub → Hub
  unfolding publish_sticky
  publish_aggregate rt agg h = elim (rt.aggregate_json agg) [
    | none ↦ h
    | some bytes ↦ publish_sticky (record { name = "aggregate"; content = bytes; tag = "" }) h
  ]

  -- `out` and `agg`, taken under the mutex.
  abbrev pub announced : Runtime fl → String → EventState → Aggregator fl → Announcement fl
  announced rt id s a = record { job = job_event id s a; counts = aggregate rt a }

  -- An invalid message ends the handler, before the mutex.
  abbrev pub if_valid :
      Result EventError (Unit {0})
      → Aggregator fl
      → Announcement fl
      → Aggregator fl
      → Result EventError (Announcement fl) × Aggregator fl
  if_valid (err e) old out new = (err e, old)
  if_valid (ok _) old out new = (ok out, new)

  -- `HandleState` up to the release of the mutex, with what it publishes after that.
  unfoldable pub handle_state :
      Runtime fl
      → Option StateEvent
      → Aggregator fl
      → Result EventError (Announcement fl) × Aggregator fl
  unfolding check_state apply_state job_event aggregate
  handle_state rt none a = (err undecodable, a)
  handle_state rt (some ev) a =
      if_valid (check_state ev) a
        (announced rt ev.job_id ev.state (apply_state ev.state ev.job_id a))
        (apply_state ev.state ev.job_id a)

  -- The checks of `HandleProgress`.
  unfoldable pub check_progress : ProgressEvent fl → Result EventError (Unit {0})
  check_progress ev = do
    guard (not (str_eq ev.job_id "" || str_eq ev.workspace_id "")) ids_required
    guard (is_some ev.at) time_required
    guard
        (not (
          fl.lt ev.fps (fl.of_nat 0)
          || (fl.lt ev.speed_x (fl.of_nat 0)
              || (fl.lt ev.eta_seconds (fl.of_nat 0)
                  || (fl.lt ev.progress_pct (fl.of_nat 0)
                      || fl.lt (fl.of_nat 100) ev.progress_pct)))))
        out_of_range

  -- The state that the job event of `HandleProgress` carries, `js.state`.
  abbrev pub state_of : String → Aggregator fl → EventState
  state_of id a = elim (lookup id a.active) [ none ↦ running | some js ↦ js.state ]

  -- `HandleProgress`, likewise.
  unfoldable pub handle_progress :
      Runtime fl
      → Option (ProgressEvent fl)
      → Aggregator fl
      → Result EventError (Announcement fl) × Aggregator fl
  unfolding check_progress apply_progress job_event aggregate lookup
  handle_progress rt none a = (err undecodable, a)
  handle_progress rt (some ev) a =
      if_valid (check_progress ev) a
        (announced rt ev.job_id (state_of ev.job_id (apply_progress ev a)) (apply_progress ev a))
        (apply_progress ev a)
