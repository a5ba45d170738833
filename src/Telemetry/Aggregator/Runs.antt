-- ===== src/Telemetry/Aggregator/Runs.antt =====
-- services/telemetry/internal/jobs/aggregator.go: any sequence of messages.
use aether_edit.Prelude.{◌≡◌, refl, Option, none, some, List, [], ◌∷◌, arith, Result, ok, err}
use aether_edit.Prelude.Float.{Float}
use aether_edit.Telemetry.Aggregator.{
  StateEvent, ProgressEvent, Aggregator, Announcement, Runtime, EventError,
}
use aether_edit.Telemetry.Aggregator.Handlers.{
  if_valid, check_state, check_progress, handle_state, handle_progress,
}
use aether_edit.Telemetry.Aggregator.Counts.{
  IsCounted, apply_state-IsCounted, apply_progress-IsCounted,
}

-- A message of one of the two subjects, as it decodes.
pub data Message (fl : Float) : Type 0 where
  state_message : Option StateEvent → Message fl
  progress_message : Option (ProgressEvent fl) → Message fl

module _ {fl : Float} where
  unfoldable pub handle :
      Runtime fl → Message fl → Aggregator fl → Result EventError (Announcement fl) × Aggregator fl
  unfolding handle_state handle_progress
  handle rt (state_message ev) a = handle_state rt ev a
  handle rt (progress_message ev) a = handle_progress rt ev a

  -- Each message comes with the runtime's answers.
  unfoldable pub run : List (Runtime fl × Message fl) → Aggregator fl → Aggregator fl
  unfolding handle
  run [] a = a
  run ((rt, m) ∷ ms) a = run ms (handle rt m a).1

  if_valid-IsCounted :
      (r : Result EventError (Unit {0})) (a : Aggregator fl) (out : Announcement fl)
      (b : Aggregator fl)
      → IsCounted a
      → IsCounted b
      → IsCounted (if_valid r a out b).1
  if_valid-IsCounted (ok _) a out b c d = d
  if_valid-IsCounted (err e) a out b c d = c

  pub handle-IsCounted :
      (rt : Runtime fl) (m : Message fl) (a : Aggregator fl)
      → IsCounted a
      → IsCounted (handle rt m a).1
  unfolding handle handle_state handle_progress
  handle-IsCounted rt (state_message none) a c = c
  handle-IsCounted rt (state_message (some ev)) a c =
      if_valid-IsCounted (check_state ev) a _ _ c (apply_state-IsCounted ev.state ev.job_id a c)
  handle-IsCounted rt (progress_message none) a c = c
  handle-IsCounted rt (progress_message (some ev)) a c =
      if_valid-IsCounted (check_progress ev) a _ _ c (apply_progress-IsCounted ev a c)

  -- Whatever messages arrive, valid or not, from a state whose counters are right: each active job
  -- stands once in the map and is queued or running, and the two counters are the numbers of these
  -- jobs.
  pub run-IsCounted :
      (ms : List (Runtime fl × Message fl)) (a : Aggregator fl) → IsCounted a → IsCounted (run ms a)
  unfolding run
  run-IsCounted [] a c = c
  run-IsCounted ((rt, m) ∷ ms) a c = run-IsCounted ms (handle rt m a).1 (handle-IsCounted rt m a c)

  if_valid_err :
      (r : Result EventError (Unit {0})) (a : Aggregator fl) (out : Announcement fl)
      (b : Aggregator fl) (e : EventError)
      → (if_valid r a out b).0 ≡ err e
      → (if_valid r a out b).1 ≡ a
  if_valid_err (ok _) a out b e h = ground (arith, h)
  if_valid_err (err d) a out b e h = refl

  -- A message that a handler refuses changes nothing.
  pub handle_refuses :
      (rt : Runtime fl) (m : Message fl) (a : Aggregator fl) (e : EventError)
      → (handle rt m a).0 ≡ err e
      → (handle rt m a).1 ≡ a
  unfolding handle handle_state handle_progress
  handle_refuses rt (state_message none) a e h = refl
  handle_refuses rt (state_message (some ev)) a e h = if_valid_err (check_state ev) a _ _ e h
  handle_refuses rt (progress_message none) a e h = refl
  handle_refuses rt (progress_message (some ev)) a e h = if_valid_err (check_progress ev) a _ _ e h
