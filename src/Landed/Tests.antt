-- ===== src/Landed/Tests.antt =====
-- services/orchestrator/internal/consumer/landed.go: concrete deliveries.
use aether_edit.Prelude.{◌≤◌, String, ◌≡◌, refl, true, some, [], ◌∷◌, arith}
use aether_edit.Prelude.Float.{whole}
use aether_edit.Prelude.Table.{count_where, select_first}
use aether_edit.Store.{blocks_source, has_active_job_for_source, create_job}
use aether_edit.Landed.{
  UploadLanded, Outcomes, State, ack, probed, preset_found, create_for, auto_create_job, finish,
  handle,
}
use aether_edit.Landed.Once.{count_live, deliver_all, deliver_all_once, acked_live}

abbrev upload : UploadLanded
upload = record { workspace_id = "w"; user_id = "u"; object_key = "k"; sha256 = "s" }

abbrev well : String → Outcomes
well id = record {
  exists = some true;
  scratch = true;
  downloads = true;
  probe = probed;
  upsert_up = true;
  preset = preset_found "p";
  active_up = true;
  create_up = true;
  fresh = id;
  now = 4;
}

abbrev nothing : State whole
nothing = record { rows = []; announced = [] }

none_before : count_live "w" "k" "p" nothing.rows ≤ 1
unfolding count_live count_where
none_before = omega arith

deliver_all_once_example :
    count_live "w" "k" "p"
      (deliver_all true ((well "j1", some upload) ∷ (well "j2", some upload) ∷ []) nothing).rows
    ≤ 1
deliver_all_once_example =
    deliver_all_once true ((well "j1", some upload) ∷ (well "j2", some upload) ∷ []) nothing "w" "k"
      "p" none_before

acked : (handle true (well "j1") (some upload) nothing).0 ≡ ack
unfolding handle finish auto_create_job has_active_job_for_source blocks_source select_first
    create_for create_job
acked = refl

acked_live_example :
    1 ≤ count_live "w" "k" "p" (handle true (well "j1") (some upload) nothing).1.rows
acked_live_example = acked_live (well "j1") upload "p" nothing refl acked
