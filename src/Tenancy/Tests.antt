-- ===== src/Tenancy/Tests.antt =====
-- services/tenancy: concrete deliveries and checks.
use aether_edit.Prelude.{
  ℕ, ◌+◌, ◌*◌, ◌^◌, ◌<◌, String, ◌≡◌, refl, ◌↔◌, ◌⊎◌, true, false, Option, none, some, List, [],
  ◌∷◌, arith, str_eq, ltb, leb, ok,
}
use aether_edit.Prelude.Float.{whole}
use aether_edit.Prelude.Int.{pos}
use aether_edit.Prelude.Assoc.{lookup}
use aether_edit.Tenancy.Access.{Outcome, answered, refused, lost}
use aether_edit.Tenancy.{upload_completed, job_completed, MeteringEvent, Ledger}
use aether_edit.Tenancy.Metering.{
  ack, term, nak, handle, consume, rollup_delta, count_event, apply_metering, upsert, add_rollup,
  is_recorded, sum_bytes, sum_storage_bytes,
}
use aether_edit.Tenancy.Rollups.{read, read_seconds, billed_seconds, billed, landed}
use aether_edit.Tenancy.Billing.{IsBilled, Holds, deliver_all, deliver_all-IsBilled, handle_answers}
use aether_edit.Tenancy.Quota.{
  Tier, MeteredQuota, allowed, denied, storage_exceeded, add_int64, resolve_tier, check_storage,
  check_upload_session, encoded_seconds, check_job_admission,
}
use aether_edit.Tenancy.Tiers.{TierConfig, validate_config, AllLimited, validate_config_iff}
use aether_edit.Tenancy.Admission.{
  IsWithin, HasTier, check_upload_session_iff, check_job_admission_iff,
}

abbrev upload : String → ℕ → MeteringEvent whole
upload id n = record {
  event_id = id;
  workspace_id = "w";
  kind = upload_completed;
  bytes = some (pos n);
  encode_seconds = none;
  at = some 5;
}

abbrev empty : Ledger whole
empty = record { events = []; rollups = [] }

abbrev monthly : ℕ → String
monthly t = "2026-01"

abbrev encode : String → ℕ → MeteringEvent whole
encode id n = record {
  event_id = id;
  workspace_id = "w";
  kind = job_completed;
  bytes = none;
  encode_seconds = some n;
  at = some 5;
}

-- A message comes twice, one is refused by the database and comes again, one is malformed, and the
-- answer of the database to another is lost, so that it comes again.
abbrev stream : List (Outcome × Option (MeteringEvent whole))
stream =
    (answered, some (upload "a" 7))
    ∷ (answered, some (upload "a" 7))
    ∷ (refused, some (upload "b" 3))
    ∷ (answered, none)
    ∷ (answered, some (upload "b" 3))
    ∷ (lost, some (encode "c" 60))
    ∷ (answered, some (encode "c" 60))
    ∷ (answered, some (encode "d" 30))
    ∷ []

encodes_up : read_seconds "w" "2026-01" (deliver_all monthly stream empty).rollups ≡ some 90
unfolding read_seconds deliver_all handle consume rollup_delta count_event apply_metering
    is_recorded upsert add_rollup
encodes_up = refl

sums_up : sum_storage_bytes "w" (deliver_all monthly stream empty) ≡ 10
unfolding sum_storage_bytes sum_bytes deliver_all handle consume rollup_delta count_event
    apply_metering is_recorded upsert add_rollup
sums_up = refl

empty-IsBilled : IsBilled monthly empty
unfolding read billed read_seconds billed_seconds sum_storage_bytes sum_bytes landed
empty-IsBilled = record {
  once = tt;
  sums = λ col ws month. refl;
  seconds = λ ws month. refl;
  stored = λ ws. refl;
}

deliver_all-IsBilled_example : IsBilled monthly (deliver_all monthly stream empty)
deliver_all-IsBilled_example = deliver_all-IsBilled monthly stream empty empty-IsBilled

abbrev first : Option (MeteringEvent whole)
first = some (upload "a" 7)

handle_answers_example :
    (((handle monthly lost first empty).0 ≡ ack)
      × (lost ≡ answered)
      × ((ev : MeteringEvent whole) × Holds first ev
          × (is_recorded ev.event_id (handle monthly lost first empty).1.events ≡ true)))
    ⊎ ((((handle monthly lost first empty).0 ≡ term)
          × ((ev : MeteringEvent whole) → ¬ Holds first ev)
          × ((handle monthly lost first empty).1 ≡ empty))
        ⊎ (((handle monthly lost first empty).0 ≡ nak)
            × ((ev : MeteringEvent whole) × Holds first ev
                × (((lost ≡ refused) × ((handle monthly lost first empty).1 ≡ empty))
                    ⊎ ((lost ≡ lost)
                        × (is_recorded ev.event_id (handle monthly lost first empty).1.events
                            ≡ true))))))
handle_answers_example = handle_answers monthly lost first empty

abbrev tier : Tier whole
tier = record {
  encode_hours_per_month = 2;
  storage_bytes = pos 20;
  max_upload_bytes = pos 0;
  allow_uploads = true;
  allow_jobs = true;
}

abbrev quota : MeteredQuota whole
quota = record {
  workspaces = ("w", record { id = "w"; name = "W"; plan_tier = "free"; created_by = "u" }) ∷ [];
  ledger = record {
    events = [];
    rollups =
        record {
          workspace_id = "w";
          month = "2026-01";
          bytes_uploaded = 10;
          encode_seconds = 7199;
          upload_sessions = 0;
          uploads_completed = 1;
          jobs_queued = 0;
          jobs_started = 0;
          jobs_completed = 1;
          jobs_failed = 0;
        }
        ∷ [];
  };
  tiers = ("free", tier) ∷ [];
}

-- The sum of a size near 2 ^ 63 and the stored bytes wraps round, and the session is admitted.
overflow_admitted : check_upload_session true true "w" (pos 9223372036854775807) quota ≡ ok allowed
unfolding check_upload_session check_storage resolve_tier lookup sum_storage_bytes sum_bytes
    add_int64
overflow_admitted = refl

too_much : check_upload_session true true "w" (pos 11) quota ≡ ok (denied storage_exceeded)
unfolding check_upload_session check_storage resolve_tier lookup sum_storage_bytes sum_bytes
    add_int64
too_much = refl

small_enough : sum_storage_bytes "w" quota.ledger + 9 < 2 ^ 63
unfolding sum_storage_bytes sum_bytes
small_enough = omega arith

check_upload_session_iff_example :
    (check_upload_session true true "w" (pos 9) quota ≡ ok allowed) ↔ (
      (t : Tier whole) × HasTier "w" quota t
      × (str_eq "w" "" ≡ false)
      × (t.allow_uploads ≡ true)
      × IsWithin 9 t.max_upload_bytes
      × IsWithin (sum_storage_bytes "w" quota.ledger + 9) t.storage_bytes)
check_upload_session_iff_example = check_upload_session_iff "w" 9 quota small_enough

check_job_admission_iff_example :
    (check_job_admission true true "w" "2026-01" quota ≡ ok allowed) ↔ (
      (t : Tier whole) × HasTier "w" quota t
      × (str_eq "w" "" ≡ false)
      × (t.allow_jobs ≡ true)
      × ((ltb 0 t.encode_hours_per_month ≡ false)
          ⊎ (leb (t.encode_hours_per_month * 3600) (encoded_seconds "w" "2026-01" quota) ≡ false)))
check_job_admission_iff_example = check_job_admission_iff "w" "2026-01" quota

abbrev plans : TierConfig whole
plans = record { default_tier = "free"; tiers = ("free", tier) ∷ [] }

validate_config_iff_example : (validate_config plans ≡ ok tt) ↔ (
    (str_eq "free" "" ≡ false)
    × ((t : Tier whole) × (lookup "free" plans.tiers ≡ some t))
    × AllLimited plans.tiers)
validate_config_iff_example = validate_config_iff plans
