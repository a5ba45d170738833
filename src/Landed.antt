-- ===== src/Landed.antt =====
-- services/orchestrator/internal/consumer/landed.go: the consumer of landed uploads. The outcomes of
-- the calls to the object storage, the prober and the database are arguments; the jobs table is the
-- state, beside the messages that announce a queued job. Metering and progress messages are sent
-- without a look at their outcome, so both are one announcement.
pub mod Once
mod Tests
use aether_edit.Prelude.{
  ℕ, zero, suc, ◌+◌, ◌-◌, ◌*◌, ◌/◌, ◌%◌, ◌^◌, ◌≤◌, ◌<◌, String, ◌≡◌, refl, sym, ap, ◌∙◌, subst, ◌≢◌,
  ◌↔◌, ◌⊎◌, inl, inr, Bool, true, false, not, ◌&&◌, ◌||◌, Option, none, some, List, [], ◌∷◌, ◌++◌,
  map, arith, str_eq, eq_iff, ltb, leb, ◌==◌, if◌then◌else◌, ltb→lt, lt→ltb, leb→le, ==_iff, tests,
  Bool-cases, Option-cases, length, get_elem?, set, length-append, get_or, take, drop, replicate,
  Result, Result-cases, ok, err, ◌>>=◌, ◌>>◌, guard,
}
use aether_edit.Prelude.Float.{Float}
use aether_edit.Jobs.{queued, Job}
use aether_edit.Store.{has_active_job_for_source, create_job}

-- `UploadLanded`, by the fields that the consumer passes on.
pub record UploadLanded : Type 0 where
  pub workspace_id : String
  pub user_id : String
  pub object_key : String
  pub sha256 : String

-- What the message is answered with.
pub data Answer : Type 0 where
  ack term nak : Answer

pub data ProbeOutcome : Type 0 where
  probed bad_asset probe_failed : ProbeOutcome

-- The answer of `DefaultPreset`: its id, `ErrNotFound`, or another error.
pub data PresetAnswer : Type 0 where
  preset_found : String → PresetAnswer
  no_preset preset_failed : PresetAnswer

-- How the calls end: whether the object exists, if the storage says so; the scratch directory and the
-- download; the probe; the database's calls; the fresh id and the time of a new job.
pub record Outcomes : Type 0 where
  pub exists : Option Bool
  pub scratch : Bool
  pub downloads : Bool
  pub probe : ProbeOutcome
  pub upsert_up : Bool
  pub preset : PresetAnswer
  pub active_up : Bool
  pub create_up : Bool
  pub fresh : String
  pub now : ℕ

-- The jobs table, and the ids of the jobs announced.
pub record State (fl : Float) : Type 0 where
  pub rows : List (Job fl)
  pub announced : List String

module _ {fl : Float} where
  -- The literal that is given to `CreateJob`; the columns that it leaves out are set there.
  abbrev pub job_for : UploadLanded → String → ℕ → Job fl
  job_for ev preset now = record {
    id = "";
    workspace_id = ev.workspace_id;
    user_id = ev.user_id;
    preset_id = preset;
    source_object_key = ev.object_key;
    source_sha256 = ev.sha256;
    state = queued;
    error_class = none;
    error_message = "";
    attempts = 0;
    progress_pct = fl.of_nat 0;
    fps = fl.of_nat 0;
    speed_x = fl.of_nat 0;
    eta_seconds = fl.of_nat 0;
    outputs = [];
    created_at = now;
    queued_at = now;
    started_at = none;
    finished_at = none;
  }

  -- `CreateJob` and what follows it.
  unfoldable pub create_for : Outcomes → UploadLanded → String → State fl → Bool × State fl
  unfolding create_job
  create_for o ev preset s = elim (create_job o.fresh o.now (job_for ev preset o.now) s.rows).0 [
    | ok j ↦ (
      true,
      record {
        rows = (create_job o.fresh o.now (job_for ev preset o.now) s.rows).1;
        announced = j.id ∷ s.announced;
      },
    )
    | err _ ↦ (false, s)
  ]

  -- `autoCreateJob`: whether the message may be acknowledged.
  unfoldable pub auto_create_job : Outcomes → UploadLanded → State fl → Bool × State fl
  auto_create_job o ev s = elim o.preset [
    | no_preset ↦ (true, s)
    | preset_failed ↦ (false, s)
    | preset_found preset ↦
        (if not o.active_up
          then (false, s)
          else if has_active_job_for_source ev.workspace_id ev.object_key preset s.rows
          then (true, s)
          else if o.create_up
          then create_for o ev preset s
          else (false, s))
  ]

  -- The end of `handle`, with the source persisted.
  unfoldable pub finish : Bool → Outcomes → UploadLanded → State fl → Answer × State fl
  finish auto o ev s =
      if auto
      then ((if (auto_create_job o ev s).0 then ack else nak), (auto_create_job o ev s).1)
      else (ack, s)

  -- `handle`; `auto` is `AutoCreateJobs`, and the event is `none` where it does not parse.
  unfoldable pub handle : Bool → Outcomes → Option UploadLanded → State fl → Answer × State fl
  handle auto o none s = (term, s)
  handle auto o (some ev) s = elim o.exists [
    | none ↦ (nak, s)
    | some there ↦
        (if not there || (not o.scratch || not o.downloads) then (nak, s) else elim o.probe [
          | bad_asset ↦ (term, s)
          | probe_failed ↦ (nak, s)
          | probed ↦ (if o.upsert_up then finish auto o ev s else (nak, s))
        ])
  ]
