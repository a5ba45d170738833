-- ===== src/Telemetry/Aggregator/Publication.antt =====
-- services/telemetry/internal/jobs/aggregator.go: the handlers beside each other. A handler changes
-- the counters under the mutex and publishes afterwards, in two calls of the hub, so that any number
-- of handlers may have published nothing yet, or only the event of their job.
use aether_edit.Prelude.{
  ℕ, zero, suc, ◌+◌, Bool, true, false, Option, none, some, List, [], ◌∷◌, ◌++◌, if◌then◌else◌,
  get_elem?, Result, ok, err,
}
use aether_edit.Prelude.Float.{Float}
use aether_edit.Prelude.Assoc.{Assoc}
use aether_edit.Telemetry.Hub.{Event, Hub}
use aether_edit.Telemetry.Aggregator.{
  JobState, Aggregate, Aggregator, Announcement, Runtime, EventError,
}
use aether_edit.Telemetry.Aggregator.Handlers.{aggregate, publish_job, publish_aggregate}
use aether_edit.Telemetry.Aggregator.Runs.{Message, handle}

-- A handler that has released the mutex: what it publishes, and whether the job's event is out.
pub record Publishing (fl : Float) : Type 0 where
  pub out : Announcement fl
  pub job_told : Bool

-- The aggregator, the handlers that are at their publication, and the hub.
pub record Telemeter (fl : Float) : Type 0 where
  pub aggregator : Aggregator fl
  pub publishing : List (Publishing fl)
  pub hub : Hub

-- A message is handled, with an order of the range over the map, up to the release of the mutex; or
-- the handler at a position makes its next call of the hub.
pub data Act (fl : Float) : Type 0 where
  arrives : (Assoc (JobState fl) → List (JobState fl)) → Message fl → Act fl
  tells : ℕ → Act fl

abbrev pub aggregate_event : List ℕ → Event
aggregate_event bytes = record { name = "aggregate"; content = bytes; tag = "" }

module _ {fl : Float} where
  unfoldable pub put : ℕ → Publishing fl → List (Publishing fl) → List (Publishing fl)
  put n p [] = []
  put zero p (q ∷ ps) = p ∷ ps
  put (suc n) p (q ∷ ps) = q ∷ put n p ps

  unfoldable pub remove : ℕ → List (Publishing fl) → List (Publishing fl)
  remove n [] = []
  remove zero (q ∷ ps) = ps
  remove (suc n) (q ∷ ps) = q ∷ remove n ps

  abbrev pub ranging : Runtime fl → (Assoc (JobState fl) → List (JobState fl)) → Runtime fl
  ranging rt range = record rt { range = range }

  -- A handler that accepts its message goes on to publish.
  abbrev pub joined :
      Result EventError (Announcement fl) → List (Publishing fl) → List (Publishing fl)
  joined (err e) ps = ps
  joined (ok out) ps = record { out = out; job_told = false } ∷ ps

  -- The next call of a handler.
  abbrev pub tell : Runtime fl → ℕ → Publishing fl → Telemeter fl → Telemeter fl
  tell rt n p t =
      if p.job_told
      then record t {
        publishing = remove n t.publishing;
        hub = publish_aggregate rt p.out.counts t.hub;
      }
      else record t {
        publishing = put n (record p { job_told = true }) t.publishing;
        hub = publish_job rt p.out.job t.hub;
      }

  unfoldable pub act : Runtime fl → Act fl → Telemeter fl → Telemeter fl
  unfolding handle put remove publish_aggregate publish_job
  act rt (arrives range m) t = record t {
    aggregator = (handle (ranging rt range) m t.aggregator).1;
    publishing = joined (handle (ranging rt range) m t.aggregator).0 t.publishing;
  }
  act rt (tells n) t = elim (get_elem? t.publishing n) [ none ↦ t | some p ↦ tell rt n p t ]

  unfoldable pub run_acts : Runtime fl → List (Act fl) → Telemeter fl → Telemeter fl
  unfolding act
  run_acts rt [] t = t
  run_acts rt (a ∷ acts) t = run_acts rt acts (act rt a t)

  -- The aggregates of the states that the accepted messages leave, from the messages alone.
  unfoldable pub snapshots : Runtime fl → List (Act fl) → Aggregator fl → List (Aggregate fl)
  unfolding handle aggregate
  snapshots rt [] a = []
  snapshots rt (tells n ∷ acts) a = snapshots rt acts a
  snapshots rt (arrives range m ∷ acts) a =
      let b = (handle (ranging rt range) m a).1 in
      let later = snapshots rt acts b in
      elim (handle (ranging rt range) m a).0 [
        | err _ ↦ later
        | ok _ ↦ aggregate (ranging rt range) b ∷ later
      ]

  -- The aggregate that a step publishes.
  unfoldable pub told_by : Act fl → Telemeter fl → List (Aggregate fl)
  told_by (arrives range m) t = []
  told_by (tells n) t = elim (get_elem? t.publishing n) [
    | none ↦ []
    | some p ↦ (if p.job_told then p.out.counts ∷ [] else [])
  ]

  -- The aggregates that a run publishes, in order.
  unfoldable pub told : Runtime fl → List (Act fl) → Telemeter fl → List (Aggregate fl)
  unfolding told_by act
  told rt [] t = []
  told rt (a ∷ acts) t = told_by a t ++ told rt acts (act rt a t)

  -- How many aggregates pass a test.
  unfoldable pub count_of : (Aggregate fl → Bool) → List (Aggregate fl) → ℕ
  count_of f [] = 0
  count_of f (g ∷ gs) = (if f g then 1 else 0) + count_of f gs

  -- How many aggregates of handlers that are still publishing pass a test.
  unfoldable pub count_publishing : (Aggregate fl → Bool) → List (Publishing fl) → ℕ
  count_publishing f [] = 0
  count_publishing f (p ∷ ps) = (if f p.out.counts then 1 else 0) + count_publishing f ps

  -- The sticky event after some aggregates, of which those count that JSON can hold.
  unfoldable pub sticky_after : Runtime fl → List (Aggregate fl) → Option Event → Option Event
  sticky_after rt [] before = before
  sticky_after rt (g ∷ gs) before =
      sticky_after rt gs
        (elim (rt.aggregate_json g) [ none ↦ before | some bytes ↦ some (aggregate_event bytes) ])
