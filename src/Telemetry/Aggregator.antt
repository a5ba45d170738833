-- ===== src/Telemetry/Aggregator.antt =====
-- services/telemetry/internal/jobs/aggregator.go: the batch counts and the state of the active jobs.
-- What a handler does while it holds the mutex is one step; it publishes after that. The decoded message is an argument, `none` where
-- `strictUnmarshal` fails; so are the JSON encoders and the order in which Go ranges over the map. The
-- zero time is `none`. The counters are int64, which the number of messages does not reach.
pub mod Handlers
pub mod Counts
pub mod Runs
pub mod Local
pub mod Publication
pub mod Delivery
use aether_edit.Prelude.{
  ℕ, zero, suc, ◌+◌, ◌-◌, ◌*◌, ◌/◌, ◌%◌, ◌^◌, ◌≤◌, ◌<◌, String, ◌≡◌, refl, sym, ap, ◌∙◌, subst, ◌≢◌,
  ◌↔◌, ◌⊎◌, inl, inr, Bool, true, false, not, ◌&&◌, ◌||◌, Option, none, some, List, [], ◌∷◌, ◌++◌,
  map, arith, str_eq, eq_iff, ltb, leb, ◌==◌, if◌then◌else◌, ltb→lt, lt→ltb, leb→le, ==_iff, tests,
  Bool-cases, Option-cases, length, get_elem?, set, length-append, get_or, take, drop, replicate,
  Result, ok, err, ◌>>=◌, ◌>>◌, guard,
}
use aether_edit.Prelude.Float.{Float}
use aether_edit.Prelude.Int.{ℤ, pos, inc, dec}
use aether_edit.Prelude.Assoc.{Assoc, lookup, insert, delete}

-- The constants of a job's state, and any other text.
pub data EventState : Type 0 where
  queued running completed failed : EventState
  other_state : String → EventState

abbrev pub is_queued : EventState → Bool
is_queued queued = true
is_queued _ = false

abbrev pub is_running : EventState → Bool
is_running running = true
is_running _ = false

abbrev pub is_completed : EventState → Bool
is_completed completed = true
is_completed _ = false

abbrev pub is_known : EventState → Bool
is_known (other_state _) = false
is_known _ = true

-- `stateEvent`
pub record StateEvent : Type 0 where
  pub job_id : String
  pub workspace_id : String
  pub state : EventState
  pub at : Option ℕ

-- `progressEvent`
pub record ProgressEvent (fl : Float) : Type 0 where
  pub job_id : String
  pub workspace_id : String
  pub fps : fl.F
  pub speed_x : fl.F
  pub eta_seconds : fl.F
  pub progress_pct : fl.F
  pub at : Option ℕ

-- `Aggregate`
pub record Aggregate (fl : Float) : Type 0 where
  pub queued_count : ℤ
  pub in_flight : ℤ
  pub completed_count : ℤ
  pub failed_count : ℤ
  pub farm_fps : fl.F
  pub aggregate_speed_x : fl.F

-- `jobState`
pub record JobState (fl : Float) : Type 0 where
  pub state : EventState
  pub fps : fl.F
  pub speed_x : fl.F
  pub eta_seconds : fl.F
  pub progress_pct : fl.F

-- `contracts.JobStreamEvent`
pub record JobStreamEvent (fl : Float) : Type 0 where
  pub job_id : String
  pub state : EventState
  pub fps : fl.F
  pub speed_x : fl.F
  pub eta_seconds : fl.F
  pub progress_pct : fl.F

-- `Aggregator`
pub record Aggregator (fl : Float) : Type 0 where
  pub active : Assoc (JobState fl)
  pub queued_count : ℤ
  pub in_flight : ℤ
  pub completed_count : ℤ
  pub failed_count : ℤ

-- What a handler publishes once it has released the mutex: the event of the job and the counts.
pub record Announcement (fl : Float) : Type 0 where
  pub job : JobStreamEvent fl
  pub counts : Aggregate fl

-- `json.Marshal` of the two events, and a range over the map.
pub record Runtime (fl : Float) : Type 0 where
  pub job_json : JobStreamEvent fl → Option (List ℕ)
  pub aggregate_json : Aggregate fl → Option (List ℕ)
  pub range : Assoc (JobState fl) → List (JobState fl)

-- The errors of the handlers.
pub data EventError : Type 0 where
  undecodable ids_required time_required unknown_event_state out_of_range : EventError

module _ {fl : Float} where
  -- `&jobState{state: s}`
  abbrev pub fresh : EventState → JobState fl
  fresh s = record {
    state = s;
    fps = fl.of_nat 0;
    speed_x = fl.of_nat 0;
    eta_seconds = fl.of_nat 0;
    progress_pct = fl.of_nat 0;
  }

  -- `case StateQueued`
  unfoldable pub on_queued : String → Aggregator fl → Aggregator fl
  unfolding lookup insert
  on_queued id a = elim (lookup id a.active) [
    | none ↦ record a {
      active = insert id (fresh queued) a.active;
      queued_count = inc a.queued_count;
    }
    | some _ ↦ a
  ]

  -- A known job leaves the queue.
  abbrev pub start_queued : Aggregator fl → Aggregator fl
  start_queued a = record a { queued_count = dec a.queued_count; in_flight = inc a.in_flight }

  -- `case StateRunning`
  unfoldable pub on_running : String → Aggregator fl → Aggregator fl
  unfolding lookup insert
  on_running id a = elim (lookup id a.active) [
    | none ↦ record a { active = insert id (fresh running) a.active; in_flight = inc a.in_flight }
    | some js ↦
        (if is_queued js.state
          then record (start_queued a) {
            active = insert id (record js { state = running }) a.active;
          }
          else a)
  ]

  -- `case StateCompleted, StateFailed`, up to the count of the ended jobs.
  unfoldable pub forget : String → Aggregator fl → Aggregator fl
  unfolding lookup delete
  forget id a = elim (lookup id a.active) [
    | none ↦ a
    | some js ↦
        (if is_queued js.state
          then record a { queued_count = dec a.queued_count; active = delete id a.active }
          else record a { in_flight = dec a.in_flight; active = delete id a.active })
  ]

  -- The `switch` on the state.
  unfoldable pub apply_state : EventState → String → Aggregator fl → Aggregator fl
  unfolding on_queued on_running forget
  apply_state queued id a = on_queued id a
  apply_state running id a = on_running id a
  apply_state completed id a = record (forget id a) {
    completed_count = inc (forget id a).completed_count;
  }
  apply_state failed id a = record (forget id a) { failed_count = inc (forget id a).failed_count }
  apply_state (other_state s) id a = a

  abbrev pub with_progress : ProgressEvent fl → JobState fl → JobState fl
  with_progress ev js = record js {
    fps = ev.fps;
    speed_x = ev.speed_x;
    eta_seconds = ev.eta_seconds;
    progress_pct = ev.progress_pct;
  }

  -- The body of `HandleProgress`: an unknown or queued job runs.
  unfoldable pub apply_progress : ProgressEvent fl → Aggregator fl → Aggregator fl
  unfolding lookup insert
  apply_progress ev a = elim (lookup ev.job_id a.active) [
    | none ↦ record a {
      active = insert ev.job_id (with_progress ev (fresh running)) a.active;
      in_flight = inc a.in_flight;
    }
    | some js ↦
        (if is_queued js.state
          then record (start_queued a) {
            active = insert ev.job_id (with_progress ev (record js { state = running })) a.active;
          }
          else record a { active = insert ev.job_id (with_progress ev js) a.active })
  ]
