-- ===== src/Telemetry/Tests.antt =====
-- services/telemetry: concrete runs of the hub and of the aggregator.
use aether_edit.Prelude.{
  ◌+◌, ◌^◌, ◌<◌, ℕ, Bool, String, ◌≡◌, refl, true, none, some, List, [], ◌∷◌, map, arith, str_eq,
  length, get_elem?,
}
use aether_edit.Prelude.Float.{whole}
use aether_edit.Prelude.Int.{ℤ, pos}
use aether_edit.Prelude.Assoc.{Assoc, lookup, count_by}
use aether_edit.Telemetry.Hub.{
  Event, Conn, Slot, Hub, push_all, accepts, store, drop_oldest, signal, drain,
}
use aether_edit.Telemetry.Hub.Buffer.{IsBounded, accepted, latest, push_all-latest}
use aether_edit.Telemetry.Hub.Stream.{
  Serving, Action, pushed, signalled, woken, drained, act, run as run_stream, serve, is_awake,
  waiting, connected, dropped_marker, event_frame, run-is_awake, drain_round, frames_of,
  event_frames,
}
use aether_edit.Telemetry.Hub.Account.{accounted, weight, count_accepted, run_accounts}
use aether_edit.Telemetry.Hub.Fanout.{
  HubCall, published, published_sticky, subscribed_with, unsubscribed, serve_calls, published_to,
  last_sticky, serve_calls-reach, serve_calls-sticky,
}
use aether_edit.Telemetry.Aggregator.{
  Aggregate, JobState, EventState, queued, running, failed, Aggregator, Runtime,
}
use aether_edit.Telemetry.Aggregator.Handlers.{aggregate}
use aether_edit.Telemetry.Aggregator.Counts.{IsCounted}
use aether_edit.Telemetry.Aggregator.Runs.{
  Message, state_message, progress_message, handle, run, run-IsCounted,
}
use aether_edit.Telemetry.Aggregator.Publication.{
  Telemeter, Act, arrives, tells, act as act_beside, run_acts, snapshots, told, told_by, count_of,
  count_publishing, sticky_after,
}
use aether_edit.Telemetry.Aggregator.Delivery.{run_acts_tell}
use aether_edit.Telemetry.Aggregator.Local.{history, run-history}

abbrev ev : String → Event
ev s = record { name = s; content = []; tag = "t" }

-- A connection with room for two, which holds one event.
abbrev narrow : Conn
narrow = record {
  buf = ev "a" ∷ [];
  max = 2;
  dropped = 0;
  notify = true;
  filter = some (λ e. str_eq e.tag "t");
}

narrow-IsBounded : IsBounded narrow
narrow-IsBounded = record { positive = omega arith; within = omega arith }

push_all-latest_example :
    ((push_all (ev "b" ∷ ev "c" ∷ []) narrow).buf
      ≡ latest 2 (ev "a" ∷ accepted narrow.filter (ev "b" ∷ ev "c" ∷ [])))
    × ((push_all (ev "b" ∷ ev "c" ∷ []) narrow).dropped
          + length (push_all (ev "b" ∷ ev "c" ∷ []) narrow).buf
        ≡ 1 + length (accepted narrow.filter (ev "b" ∷ ev "c" ∷ [])))
unfolding accepted
push_all-latest_example =
    push_all-latest (ev "b" ∷ ev "c" ∷ []) narrow narrow-IsBounded (omega arith)

abbrev busy : List Action
busy = pushed (ev "b") ∷ pushed (ev "c") ∷ woken ∷ drained true ∷ signalled ∷ drained true ∷ []

abbrev served : Serving
served = record {
  conn = record narrow { buf = []; notify = true };
  phase = waiting;
  out = connected ∷ dropped_marker 1 ∷ event_frame (ev "b") ∷ event_frame (ev "c") ∷ [];
  unsignalled = 1;
}

serves : run_stream busy (serve narrow) ≡ some served
unfolding run_stream serve act drain_round drain frames_of event_frames accepts store drop_oldest
    signal
serves = refl

narrow_awake : is_awake (serve narrow) ≡ true
unfolding is_awake serve
narrow_awake = refl

few : accounted (serve narrow) + count_accepted narrow.filter busy + 1 < 2 ^ 64
unfolding serve weight count_accepted accepts
few = omega arith

run-is_awake_example : is_awake served ≡ true
run-is_awake_example = run-is_awake busy (serve narrow) served narrow_awake serves

run_accounts_example :
    accounted served ≡ accounted (serve narrow) + count_accepted narrow.filter busy
unfolding serve
run_accounts_example = run_accounts busy (serve narrow) served narrow-IsBounded few serves

abbrev one : Hub
one = record {
  slots = record { conn = narrow; subscribed = true } ∷ [];
  sticky = ("s", ev "s") ∷ [];
  buf_size = 2;
}

abbrev traffic : List HubCall
traffic =
    published (ev "b")
    ∷ published_sticky (ev "s")
    ∷ subscribed_with none (0 ∷ [])
    ∷ unsubscribed 0
    ∷ published (ev "late")
    ∷ []

serve_calls-reach_example :
    (t : Slot) × (get_elem? (serve_calls traffic one).slots 0 ≡ some t)
    × (t.conn ≡ push_all (published_to 0 traffic) narrow)
serve_calls-reach_example =
    serve_calls-reach traffic 0 one (record { conn = narrow; subscribed = true }) refl refl

serve_calls-sticky_example :
    lookup "s" (serve_calls traffic one).sticky ≡ last_sticky "s" traffic (lookup "s" one.sticky)
serve_calls-sticky_example = serve_calls-sticky traffic "s" one

abbrev idle : Aggregator whole
idle = record {
  active = [];
  queued_count = pos 0;
  in_flight = pos 0;
  completed_count = pos 0;
  failed_count = pos 0;
}

abbrev rt : Runtime whole
rt = record {
  job_json = λ e. some (1 ∷ []);
  aggregate_json = λ g. some (g.farm_fps ∷ []);
  range = map (λ e. e.1);
}

abbrev said : String → EventState → Message whole
said id s =
    state_message (some (record { job_id = id; workspace_id = "w"; state = s; at = some 1 }))

abbrev progress : Message whole
progress = progress_message (
    some (record {
      job_id = "j";
      workspace_id = "w";
      fps = 30;
      speed_x = 2;
      eta_seconds = 9;
      progress_pct = 50;
      at = some 2;
    }))

abbrev messages : List (Runtime whole × Message whole)
messages =
    (rt, said "j" queued)
    ∷ (rt, said "k" running)
    ∷ (rt, state_message none)
    ∷ (rt, progress)
    ∷ (rt, said "k" failed)
    ∷ []

idle-IsCounted : IsCounted idle
unfolding lookup count_by
idle-IsCounted = record {
  once = tt;
  live = λ id js h. ground (arith, h);
  queue = refl;
  flight = refl;
}

run-IsCounted_example : IsCounted (run messages idle)
run-IsCounted_example = run-IsCounted messages idle idle-IsCounted

run-history_example :
    lookup "j" (run messages idle).active ≡ history "j" messages (lookup "j" idle.active)
run-history_example = run-history messages "j" idle idle-IsCounted

abbrev by_list : Assoc (JobState whole) → List (JobState whole)
by_list = map (λ e. e.1)

-- Two handlers are at their publication; the second one's aggregate is published first.
abbrev crossing : List (Act whole)
crossing =
    arrives by_list (said "j" queued)
    ∷ arrives by_list progress
    ∷ tells 1
    ∷ tells 0
    ∷ tells 0
    ∷ arrives by_list (state_message none)
    ∷ tells 0
    ∷ []

-- One job, which is queued or runs at a rate.
abbrev one_job : ℤ → ℤ → ℕ → ℕ → Aggregate whole
one_job waiting_jobs running_jobs fps speed = record {
  queued_count = waiting_jobs;
  in_flight = running_jobs;
  completed_count = pos 0;
  failed_count = pos 0;
  farm_fps = fps;
  aggregate_speed_x = speed;
}

abbrev telemeter : Telemeter whole
telemeter = record { aggregator = idle; publishing = []; hub = one }

overtaken :
    told rt crossing telemeter ≡ one_job (pos 0) (pos 1) 30 2 ∷ one_job (pos 1) (pos 0) 0 0 ∷ []
unfolding told told_by act_beside handle aggregate
overtaken = refl

run_acts_tell_example :
    ((f : Aggregate whole → Bool)
      → count_publishing f [] + count_of f (snapshots rt crossing idle)
        ≡ count_of f (told rt crossing telemeter)
          + count_publishing f (run_acts rt crossing telemeter).publishing)
    × (lookup "aggregate" (run_acts rt crossing telemeter).hub.sticky
        ≡ sticky_after rt (told rt crossing telemeter) (lookup "aggregate" one.sticky))
run_acts_tell_example = run_acts_tell rt crossing telemeter
