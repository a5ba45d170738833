-- ===== src/Jobs.antt =====
-- services/orchestrator/internal/jobs/job.go: the states of a transcode job, the error classes,
-- the transition table and the job row.
-- A Go `State` or `ErrorClass` is a string. The constants are constructors here, and `unknown`
-- holds any other text; `state_of` reads a text.
pub mod Lifecycle
mod Tests
pub mod Preset
use aether_edit.Prelude.{
  ℕ, String, ◌≡◌, refl, Bool, true, false, not, ◌||◌, Option, none, some, List, str_eq,
  if◌then◌else◌,
}
use aether_edit.Prelude.Float.{Float}

pub data State : Type 0 where
  queued running completed failed : State
  unknown : String → State

-- `ValidState`
unfoldable pub valid_state : State → Bool
valid_state queued = true
valid_state running = true
valid_state completed = true
valid_state failed = true
valid_state (unknown _) = false

-- `State(raw)`, the conversion of a text.
unfoldable pub state_of : String → State
state_of s =
    if str_eq s "queued"
    then queued
    else if str_eq s "running"
    then running
    else if str_eq s "completed"
    then completed
    else if str_eq s "failed"
    then failed
    else unknown s

pub data ErrorClass : Type 0 where
  validation asset decode encode internal : ErrorClass
  unknown_class : String → ErrorClass

-- `ValidErrorClass`
unfoldable pub valid_error_class : ErrorClass → Bool
valid_error_class validation = true
valid_error_class asset = true
valid_error_class decode = true
valid_error_class encode = true
valid_error_class internal = true
valid_error_class (unknown_class _) = false

-- `s == StateQueued` and its like.
abbrev pub is_queued : State → Bool
is_queued queued = true
is_queued _ = false

abbrev pub is_running : State → Bool
is_running running = true
is_running _ = false

abbrev pub is_completed : State → Bool
is_completed completed = true
is_completed _ = false

abbrev pub is_failed : State → Bool
is_failed failed = true
is_failed _ = false

-- `CanTransition`
unfoldable pub can_transition : State → State → Bool
can_transition queued to = is_running to || is_failed to
can_transition running to = is_completed to || is_failed to
can_transition failed to = is_queued to
can_transition completed to = false
can_transition (unknown _) to = false

-- The two messages under which `Transition` wraps `ErrInvalidTransition`.
pub data TransitionError : Type 0 where
  unknown_state illegal_move : TransitionError

-- `Transition`: `none` is a nil error.
unfoldable pub transition : State → State → Option TransitionError
unfolding valid_state can_transition
transition from to =
    if not (valid_state from) || not (valid_state to)
    then some unknown_state
    else if can_transition from to
    then none
    else some illegal_move

-- `CanRetry`
unfoldable pub can_retry : State → Bool
can_retry s = is_failed s

-- `CanCancel`
unfoldable pub can_cancel : State → Bool
can_cancel s = is_queued s || is_running s

-- The text states of `OutputProgress.State`.
pub data OutputState : Type 0 where
  out_pending out_running out_completed out_failed : OutputState

-- `OutputProgress`
pub record OutputProgress (fl : Float) : Type 0 where
  pub name : String
  pub object_key : String
  pub state : OutputState
  pub progress_pct : fl.F

-- `Job`. Times are instants as numbers; `none` is a null column.
pub record Job (fl : Float) : Type 0 where
  pub id : String
  pub workspace_id : String
  pub user_id : String
  pub preset_id : String
  pub source_object_key : String
  pub source_sha256 : String
  pub state : State
  pub error_class : Option ErrorClass
  pub error_message : String
  pub attempts : ℕ
  pub progress_pct : fl.F
  pub fps : fl.F
  pub speed_x : fl.F
  pub eta_seconds : fl.F
  pub outputs : List (OutputProgress fl)
  pub created_at : ℕ
  pub queued_at : ℕ
  pub started_at : Option ℕ
  pub finished_at : Option ℕ
