-- ===== src/Jobs/Tests.antt =====
-- Jobs and presets at concrete values: services/orchestrator/internal/jobs.
use aether_edit.Prelude.{◌≡◌, refl, ◌↔◌, none, some, [], ◌∷◌, ok, err}
use aether_edit.Prelude.Int.{pos}
use aether_edit.Jobs.{queued, running, completed, state_of, transition, illegal_move, unknown_state}
use aether_edit.Jobs.Lifecycle.{◌⟶◌, transition_iff}
use aether_edit.Jobs.Preset.{
  hls, webm, hevc, crf, vbr, p5, Rung, Preset, validate, rung_duplicate, webm_needs_av1,
  crf_excludes_bitrate, matches_rung_name, check_rung, check_ladder, check_rate, valid_container,
  valid_video_codec, valid_rate_control_mode, valid_speed_preset, webm_without_av1, seen_name,
}
use aether_edit.Jobs.Preset.Validity.{IsValid, validate_iff}

transition_iff_example : (transition running completed ≡ none) ↔ (running ⟶ completed)
transition_iff_example = transition_iff running completed

transition_at :
    (transition completed queued ≡ some illegal_move)
    × (transition (state_of "paused") queued ≡ some unknown_state)
unfolding transition state_of
transition_at = (refl, refl)

abbrev rung_720 : Rung
rung_720 = record { name = "720p"; width = pos 1280; height = pos 720 }

abbrev rung_480 : Rung
rung_480 = record { name = "480p"; width = pos 854; height = pos 480 }

abbrev sample : Preset
sample = record {
  id = "p";
  workspace_id = "w";
  name = "HLS";
  container = hls;
  video_codec = hevc;
  rate_control = vbr;
  crf_value = pos 0;
  bitrate_kbps = pos 4000;
  max_bitrate_kbps = pos 6000;
  gop_length = pos 48;
  speed_preset = p5;
  ladder = rung_720 ∷ rung_480 ∷ [];
}

sample_valid : validate sample ≡ ok tt
unfolding validate check_rung check_ladder check_rate valid_container valid_video_codec
    valid_rate_control_mode valid_speed_preset webm_without_av1 seen_name matches_rung_name
sample_valid = refl

validate_iff_example : (validate sample ≡ ok tt) ↔ IsValid sample
validate_iff_example = validate_iff sample

refused :
    (validate (record sample { ladder = rung_720 ∷ rung_720 ∷ [] }) ≡ err (rung_duplicate "720p"))
    × (validate (record sample { container = webm }) ≡ err webm_needs_av1)
    × (validate (record sample { rate_control = crf }) ≡ err crf_excludes_bitrate)
unfolding validate check_rung check_ladder check_rate valid_container valid_video_codec
    valid_rate_control_mode valid_speed_preset webm_without_av1 seen_name matches_rung_name
refused = (refl, refl, refl)
